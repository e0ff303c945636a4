-- ===== src/Alloc/LinkedList/Waste.antt =====
-- What an aligned allocation costs for good.
use Prim.Native.Nat.{◌-◌}
use mathlib.Core.List.{Mem, mem-append_right, mem-cons_self}
use mathlib.Core.Path.{subst₂}
use taijios.Common.{ℕ, ◌+◌, ◌<◌, ◌≡◌, sym, ap, ◌∙◌, arith, ok, ok_unique, List, [], ◌∷◌}
use taijios.Alloc.{Layout, round_up}
use taijios.Alloc.Block.{Block, block, total_size}
use taijios.Alloc.LinkedList.{LinkedListAllocator, alloc, dealloc}
use taijios.Alloc.LinkedList.Request.{IsRequest, block_size, block_align}
use taijios.Alloc.Client.{Allocation}
use taijios.Alloc.LinkedList.Invariant.{IsHeap}
use taijios.Alloc.LinkedList.Serve.{exhausted, served, alloc-Allocated}
use taijios.Alloc.LinkedList.Release.{dealloc-IsHeap}

-- The bytes in front of an aligned block are lost: when the block is given back, the free regions
-- are short of what lay between the start of the first region that suited and the block.
pub alloc-dealloc-bytes :
    {lo hi : ℕ} (self : LinkedListAllocator) (live : List Allocation) (l : Layout) (ptr : ℕ)
    (mid after : LinkedListAllocator)
    → IsHeap lo hi self live
    → IsRequest l
    → alloc self l ≡ ok (ptr, mid)
    → 0 < ptr
    → dealloc mid ptr l ≡ ok after
    → (region : Block) × (Mem region self.next)
      × (ptr ≡ round_up region.addr (block_align l))
      × (total_size after.next + (ptr - region.addr) ≡ total_size self.next)
unfolding total_size
alloc-dealloc-bytes {lo} {hi} self live l ptr mid after heap r e pos d =
    elim (alloc-Allocated heap l r) [
      | exhausted g all ↦ absurd (omega (arith, ap (λ p. p.0) (ok_unique e g)))
      | served p mid' g good from ↦
          let same : (p, mid') ≡ (ptr, mid) = ok_unique g e in
          let at : p ≡ ptr = ap (λ q. q.0) same in
          let heap' : IsHeap lo hi mid (record { ptr = ptr; layout = l } ∷ live) =
            subst₂ (λ q a. IsHeap lo hi a (record { ptr = q; layout = l } ∷ live)) at
              (ap (λ q. q.1) same) good.heap in
          let (after', d', front, _) =
            dealloc-IsHeap mid [] (record { ptr = ptr; layout = l }) live heap' in
          let freed : after.next ≡ block ptr (block_size l) ∷ mid.next =
            ap (λ (a : LinkedListAllocator). a.next) (ok_unique d d') ∙ front in
          (
            from.region,
            rw from.regions (mem-append_right from.before mem-cons_self),
            sym at ∙ from.first,
            omega (
              arith,
              from.bytes,
              ap total_size freed,
              at,
              ap (λ (q : ℕ × LinkedListAllocator). total_size q.1.next) same,
            ),
          )
    ]
