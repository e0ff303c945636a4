-- ===== src/Alloc/LinkedList/Answer.antt =====
-- How `alloc` ends for each layout of nonzero size, the ones that `size_align` refuses included.
use Prim.Native.Nat.{max}
use native.Mathlib.Decide.{dec_lt}
use taijios.Common.{ℕ, ◌+◌, ◌^◌, ◌≤◌, ◌<◌, ◌≡◌, ◌⊎◌, inl, inr, refl, arith, panic, List}
use taijios.Alloc.{Layout, IsLayout, align_to}
use taijios.Alloc.Align.{from_size_align-none}
use taijios.Alloc.Client.{Allocation}
use taijios.Alloc.LinkedList.{LinkedListAllocator, node_align, size_align, alloc}
use taijios.Alloc.LinkedList.Request.{IsRequest}
use taijios.Alloc.LinkedList.Invariant.{IsHeap}
use taijios.Alloc.LinkedList.Serve.{Allocated, alloc-Allocated}

-- A layout is a request when it stays a layout at the alignment of a node.
pub IsLayout-IsRequest :
    (l : Layout) → IsLayout l → 0 < l.size → l.size + max l.align node_align ≤ 2 ^ 63 → IsRequest l
IsLayout-IsRequest l valid pos fits = record {
  pos = pos;
  log = valid.log;
  log_lt = valid.log_lt;
  pow = valid.pow;
  fits = fits;
}

size_align-over :
    (l : Layout) → 0 < l.size → 2 ^ 63 < l.size + max l.align node_align → size_align l ≡ panic
unfolding size_align align_to
size_align-over l pos over = rw (from_size_align-none l.size (max l.align node_align) pos over) refl

-- Under the invariant, an allocation with a valid layout of nonzero size ends in one of three ways.
-- When the size, rounded up to the alignment that is at least a node's, exceeds `isize::MAX`, the
-- call panics. Otherwise it does not: it returns null with the allocator unchanged, and no free
-- region suits the request, or it returns a nonnull aligned pointer into the heap, at the first
-- aligned address of the first region that suits, and the invariant holds with the new block.
pub alloc_complete :
    {lo hi : ℕ} {self : LinkedListAllocator} {live : List Allocation}
    → IsHeap lo hi self live
    → (l : Layout) → IsLayout l
    → 0 < l.size
    → ((2 ^ 63 < l.size + max l.align node_align) × (alloc self l ≡ panic))
      ⊎ ((l.size + max l.align node_align ≤ 2 ^ 63) × Allocated lo hi self live l)
unfolding alloc
alloc_complete heap l valid pos = elim (dec_lt (2 ^ 63) (l.size + max l.align node_align)) [
  | yes over ↦ inl (over, rw (size_align-over l pos over) refl)
  | no within ↦
      let fits : l.size + max l.align node_align ≤ 2 ^ 63 = omega (arith, within) in
      inr (fits, alloc-Allocated heap l (IsLayout-IsRequest l valid pos fits))
]
