-- ===== src/Alloc/FixedSize/Answer.antt =====
-- How `alloc` ends for each layout of nonzero size, the ones that are no request included.
use Prim.Native.Nat.{max}
use native.Mathlib.Decide.{dec_lt}
use taijios.Common.{
  ℕ, ◌+◌, ◌^◌, ◌≤◌, ◌<◌, ◌≡◌, ◌⊎◌, inl, inr, refl, arith, none, some, Option-cases, List,
}
use taijios.Alloc.{Layout, IsLayout}
use taijios.Alloc.Client.{Allocation}
use taijios.Alloc.LinkedList.{node_align}
use taijios.Alloc.LinkedList.Answer.{IsLayout-IsRequest}
use taijios.Alloc.FixedSize.{Heap, list_index, FixedSizeBlockAllocator, fallback_alloc, alloc}
use taijios.Alloc.FixedSize.Classes.{list_index-IsClass}
use taijios.Alloc.FixedSize.Contract.{Contract}
use taijios.Alloc.FixedSize.Invariant.{class_bounds, IsFixedSize}
use taijios.Alloc.FixedSize.Serve.{Served, alloc-Served}

-- A layout that has a class is small.
class-small :
    (l : Layout) (i : ℕ) → list_index l ≡ some i → l.size + max l.align node_align ≤ 2 ^ 63
class-small l i e =
    let c = list_index-IsClass l i e in
    let (low, high) = class_bounds i c.low in omega (arith, c.holds_size, c.holds_align, low, high)

module _ (H : Heap) (C : Contract H) where
  alloc-no_class :
      (self : FixedSizeBlockAllocator H) (l : Layout)
      → list_index l ≡ none
      → alloc H self l ≡ fallback_alloc H self l
  unfolding alloc
  alloc-no_class self l e = rw (e, alloc) refl

  -- Under the invariant, a call of `alloc` with a valid layout of nonzero size whose size, rounded up
  -- to the alignment that is at least a node's, does not exceed `isize::MAX` does not panic: it
  -- returns null or a nonnull pointer, and the invariant holds, with the new block. For any other
  -- valid layout there is no block size, and the call is the fallback heap's, with that layout.
  pub alloc-Served_or_fallback :
      {lo hi : ℕ} (self : FixedSizeBlockAllocator H) (live : List Allocation)
      → IsFixedSize H C lo hi self live
      → (l : Layout) → IsLayout l
      → 0 < l.size
      → ((l.size + max l.align node_align ≤ 2 ^ 63) × Served H C lo hi self l live)
        ⊎ ((2 ^ 63 < l.size + max l.align node_align)
            × (list_index l ≡ none)
            × (alloc H self l ≡ fallback_alloc H self l))
  alloc-Served_or_fallback self live inv l valid pos =
      elim (dec_lt (2 ^ 63) (l.size + max l.align node_align)) [
        | no within ↦
            let fits : l.size + max l.align node_align ≤ 2 ^ 63 = omega (arith, within) in
            inl (fits, alloc-Served H C self live inv l (IsLayout-IsRequest l valid pos fits))
        | yes over ↦ elim (Option-cases (list_index l)) [
          | inl e ↦ inr (over, e, alloc-no_class self l e)
          | inr (i, e) ↦ absurd (omega (arith, class-small l i e))
        ]
      ]
