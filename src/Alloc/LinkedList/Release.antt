-- ===== src/Alloc/LinkedList/Release.antt =====
-- `dealloc` gives a live block back, and what it frees is served again.
use mathlib.Core.List.{map-append}
use mathlib.Core.Path.{subst}
use taijios.Common.{
  ◌∙◌, checked_add, add_usize, sub_usize, refl, ◌%◌, ◌^◌, sym, some, ◌>>=◌, inl, inr, ℕ, ◌+◌, ◌≤◌,
  ◌≡◌, ap, arith, ok, List, ◌∷◌, ◌++◌, map, All-append, All-left, All-right,
}
use taijios.Alloc.Block.{within, count_at, count_at-middle, within_bounds, Inside}
use taijios.Alloc.LinkedList.{LinkedListAllocator, dealloc}
use taijios.Alloc.LinkedList.{
  alloc_from_region, alloc, find_from, find_region, allocate_in, end_addr, start_addr,
}
use taijios.Alloc.Align.{round_up_bounds, round_up-least}
use taijios.Alloc.{round_up}
use taijios.Alloc.LinkedList.Region.{alloc_from_region_cases, Fits}
use taijios.Alloc.LinkedList.Request.{mod-pow, Adjusted, block_align, adjust, block_size}
use taijios.Alloc.Client.{Allocation}
use taijios.Alloc.LinkedList.Invariant.{block_of, IsLive, IsHeap, add_free_region-ok}

module _ {lo hi : ℕ} (self : LinkedListAllocator) (xs : List Allocation) (a : Allocation)
    (ys : List Allocation) (heap : IsHeap lo hi self (xs ++ (a ∷ ys))) where
  abbrev freed : LinkedListAllocator
  freed = record { next = block_of a ∷ self.next }

  shared :
      (x : ℕ)
      → within a.ptr (a.ptr + block_size a.layout) x
          + (count_at x self.next + count_at x (map block_of (xs ++ ys)))
        ≤ within lo hi x
  shared x = omega (
    arith,
    heap.disjoint x,
    ap (count_at x) (map-append block_of xs (a ∷ ys)),
    ap (count_at x) (map-append block_of xs ys),
    count_at-middle x (map block_of xs) (block_of a) (map block_of ys),
  )

  pub freed-IsLive : IsLive a
  freed-IsLive = (All-right IsLive xs (a ∷ ys) heap.served).0

  pub freed-Inside : Inside lo hi (block_of a)
  freed-Inside =
      within_bounds lo hi (block_of a)
        (λ x. count_at x self.next + count_at x (map block_of (xs ++ ys))) shared
        (omega (arith, (adjust a.layout freed-IsLive.request).holds_node))

  adj : Adjusted a.layout
  adj = adjust a.layout freed-IsLive.request

  multiple : a.ptr % 2 ^ adj.exp ≡ 0
  multiple = rw adj.align at freed-IsLive.aligned

  pub at_layout : a.ptr % a.layout.align ≡ 0
  at_layout = adj.divides a.ptr multiple

  dealloc-freed : dealloc self a.ptr a.layout ≡ ok freed
  unfolding dealloc
  dealloc-freed = rw adj.result (
      add_free_region-ok self a.ptr (block_size a.layout)
        (mod-pow a.ptr 3 adj.exp adj.exp_ge multiple)
        (omega (arith, freed-Inside, heap.bounded, adj.holds_node)) adj.holds_node)

  freed-IsHeap : IsHeap lo hi freed (xs ++ ys)
  unfolding count_at
  freed-IsHeap = record {
    nonnull = heap.nonnull;
    bounded = heap.bounded;
    disjoint = λ x. omega (arith, shared x);
    nodes = (
      record { aligned = mod-pow a.ptr 3 adj.exp adj.exp_ge multiple; holds = adj.holds_node },
      heap.nodes,
    );
    served =
        All-append IsLive xs ys (All-left IsLive xs (a ∷ ys) heap.served)
          (All-right IsLive xs (a ∷ ys) heap.served).1;
  }

  same_start : round_up a.ptr (2 ^ adj.exp) ≡ a.ptr
  same_start = omega (
    arith,
    round_up_bounds adj.exp a.ptr,
    round_up-least adj.exp a.ptr a.ptr (omega arith) multiple,
  )

  freed-Fits : Fits (block_of a) (block_size a.layout) (2 ^ adj.exp)
  freed-Fits = record {
    first = refl;
    inside = omega (arith, same_start);
    left = inl (rw same_start refl);
  }

  suited : alloc_from_region (block_of a) (block_size a.layout) (2 ^ adj.exp) ≡ ok (some a.ptr)
  suited =
      elim (alloc_from_region_cases (block_of a) (block_size a.layout) adj.exp adj.exp_lt
        (omega (arith, freed-Inside, heap.bounded, adj.holds_node, adj.small))
        (omega (arith, freed-Inside, heap.bounded))) [
          | inl good ↦ good.0 ∙ ap (λ t. ok (some t)) same_start
          | inr bad ↦ absurd (bad.1 freed-Fits)
        ]

  found_again :
      find_from freed.next (block_size a.layout) (block_align a.layout)
      ≡ ok (some (block_of a, a.ptr), self.next)
  unfolding find_from
  found_again =
      rw
        (subst (λ al. alloc_from_region (block_of a) (block_size a.layout) al ≡ ok (some a.ptr))
          (sym adj.align) suited)
        refl

  exact : allocate_in self (block_of a) a.ptr (block_size a.layout) ≡ ok (a.ptr, self)
  unfolding allocate_in end_addr start_addr checked_add add_usize sub_usize
  exact = ground (arith, freed-Inside, heap.bounded)

  alloc-freed : alloc freed a.layout ≡ ok (a.ptr, self)
  unfolding alloc find_region
  alloc-freed = rw (adj.result, found_again) exact

-- A live block goes back without a panic: it is the first free region, and the invariant is kept.
pub dealloc-IsHeap :
    {lo hi : ℕ} (self : LinkedListAllocator) (xs : List Allocation) (a : Allocation)
    (ys : List Allocation)
    → IsHeap lo hi self (xs ++ (a ∷ ys))
    → (after : LinkedListAllocator) × (dealloc self a.ptr a.layout ≡ ok after)
      × (after.next ≡ block_of a ∷ self.next)
      × IsHeap lo hi after (xs ++ ys)
dealloc-IsHeap self xs a ys heap =
    (_, dealloc-freed self xs a ys heap, refl, freed-IsHeap self xs a ys heap)

-- Memory is reused: a block that was given back is served to the next request of its layout, and
-- the allocator is then as before both calls.
pub dealloc-alloc :
    {lo hi : ℕ} (self : LinkedListAllocator) (xs : List Allocation) (a : Allocation)
    (ys : List Allocation)
    → IsHeap lo hi self (xs ++ (a ∷ ys))
    → (dealloc self a.ptr a.layout >>= λ after. alloc after a.layout) ≡ ok (a.ptr, self)
dealloc-alloc self xs a ys heap =
    rw (dealloc-freed self xs a ys heap) (alloc-freed self xs a ys heap)
