-- ===== src/Alloc/LinkedList/Global.antt =====
-- The linked-list allocator is a `GlobalAlloc`.
use taijios.Common.{
  ℕ, ◌+◌, ◌%◌, ◌^◌, ◌≤◌, ◌<◌, ◌≡◌, ◌⊎◌, inl, inr, arith, ok, List, [], ◌∷◌, map, All, All-map,
}
use taijios.Alloc.{Layout, null}
use taijios.Alloc.Block.{block, count_at, within-sub}
use taijios.Alloc.Client.{Allocation, requested, IsGranted, GlobalAlloc}
use taijios.Alloc.LinkedList.{LinkedListAllocator, new, init, alloc, dealloc}
use taijios.Alloc.LinkedList.Request.{IsRequest, Adjusted, adjust, block_size}
use taijios.Alloc.LinkedList.Invariant.{block_of, IsLive, IsHeap, add_free_region-ok}
use taijios.Alloc.LinkedList.Serve.{exhausted, served, alloc-Allocated}
use taijios.Alloc.LinkedList.Release.{dealloc-IsHeap}

-- The memory that `init` is given: it can hold a node, and lies in the lower half of the addresses.
pub record IsArena (lo size : ℕ) : Type 0 where
  pub nonnull : 0 < lo
  pub aligned : lo % 8 ≡ 0
  pub holds : 16 ≤ size
  pub bounded : lo + size ≤ 2 ^ 63

-- `init` on an arena does not panic, and sets the invariant up.
pub init-IsHeap :
    (lo size : ℕ)
    → IsArena lo size
    → (self : LinkedListAllocator) × (init new lo size ≡ ok self) × IsHeap lo (lo + size) self []
unfolding init new count_at
init-IsHeap lo size arena = (
  record { next = block lo size ∷ [] },
  add_free_region-ok (record { next = [] }) lo size arena.aligned
      (omega (arith, arena.bounded, arena.holds)) arena.holds,
  record {
    nonnull = arena.nonnull;
    bounded = arena.bounded;
    disjoint = λ x. omega arith;
    nodes = (record { aligned = arena.aligned; holds = arena.holds }, tt);
    served = tt;
  },
)

module _ {lo hi : ℕ} {self : LinkedListAllocator} {live : List Allocation}
    (heap : IsHeap lo hi self live) where
  pub alloc_law :
      (l : Layout)
      → IsRequest l
      → ((after : LinkedListAllocator) × (alloc self l ≡ ok (null, after))
          × IsHeap lo hi after live)
        ⊎ ((ptr : ℕ) × (after : LinkedListAllocator) × (alloc self l ≡ ok (ptr, after))
            × (null < ptr)
            × IsHeap lo hi after (record { ptr = ptr; layout = l } ∷ live))
  alloc_law l r = elim (alloc-Allocated heap l r) [
    | exhausted e all ↦ inl (self, e, heap)
    | served ptr after e good from ↦ inr (ptr, after, e, good.nonnull, good.heap)
  ]

pub requested-le :
    (x : ℕ) (live : List Allocation)
    → All IsLive live
    → count_at x (map requested live) ≤ count_at x (map block_of live)
unfolding count_at
requested-le x [] h = omega arith
requested-le x (a ∷ live) h = omega (
  arith,
  requested-le x live h.1,
  within-sub a.ptr a.ptr (a.ptr + a.layout.size) (a.ptr + block_size a.layout) x (omega arith)
      (omega (arith, (adjust a.layout h.0.request).enough)),
)

pub IsLive-IsGranted : (a : Allocation) → IsLive a → IsGranted a
IsLive-IsGranted a h =
    let adj : Adjusted a.layout = adjust a.layout h.request in
    record {
      nonnull = h.nonnull;
      pos = h.request.pos;
      aligned = adj.divides a.ptr (rw adj.align at h.aligned);
    }

abbrev pub linked_list : GlobalAlloc
linked_list = record {
  Allocator = LinkedListAllocator;
  alloc = alloc;
  dealloc = dealloc;
  Request = IsRequest;
  Inv = IsHeap;
  alloc_law = alloc_law;
  dealloc_law = λ self xs a ys heap.
      let (after, e, _, good) = dealloc-IsHeap self xs a ys heap in (after, e, good);
  apart_law = λ {lo} {hi} {self} {live} heap x.
      omega (arith, heap.disjoint x, requested-le x live heap.served);
  granted_law = λ {lo} {hi} {self} {live} heap. All-map IsLive IsLive-IsGranted live heap.served;
}
