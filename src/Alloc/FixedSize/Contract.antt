-- ===== src/Alloc/FixedSize/Contract.antt =====
-- What the fallback heap promises to a caller that gives back only what it was granted.
use mathlib.Core.List.{append_assoc}
use mathlib.Core.Path.{subst}
use taijios.Common.{sym, ℕ, ◌+◌, ◌≤◌, ◌≡◌, ◌⊎◌, ok, none, some, List, [], ◌∷◌, ◌++◌, map, All}
use taijios.Alloc.{Layout}
use taijios.Alloc.Block.{count_at, within}
use taijios.Alloc.Client.{Allocation, requested, IsGranted}
use taijios.Alloc.LinkedList.Request.{IsRequest}
use taijios.Alloc.LinkedList.Global.{IsArena}
use taijios.Alloc.FixedSize.{Heap}

-- `Owns lo hi heap given`: the heap `[lo, hi)` has given out the allocations of the list, whose
-- order does not matter. Blocks are given out aligned and apart, and no call panics.
pub record Contract (H : Heap) : Type 1 where
  pub Owns : ℕ → ℕ → H.State → List Allocation → Type 0
  pub init_law :
      (lo size : ℕ)
      → IsArena lo size
      → (heap : H.State) × (H.init H.empty lo size ≡ ok heap) × Owns lo (lo + size) heap []
  pub allocate_law :
      {lo hi : ℕ} (heap : H.State) (given : List Allocation) (l : Layout)
      → Owns lo hi heap given
      → IsRequest l
      → ((after : H.State) × (H.allocate_first_fit heap l ≡ ok (none, after))
          × Owns lo hi after given)
        ⊎ ((ptr : ℕ) × (after : H.State) × (H.allocate_first_fit heap l ≡ ok (some ptr, after))
            × Owns lo hi after (record { ptr = ptr; layout = l } ∷ given))
  pub deallocate_law :
      {lo hi : ℕ} (heap : H.State) (xs : List Allocation) (a : Allocation) (ys : List Allocation)
      → Owns lo hi heap (xs ++ (a ∷ ys))
      → (after : H.State) × (H.deallocate heap a.ptr a.layout ≡ ok after)
        × Owns lo hi after (xs ++ ys)
  pub front_law :
      {lo hi : ℕ} (heap : H.State) (xs : List Allocation) (a : Allocation) (ys : List Allocation)
      → Owns lo hi heap (xs ++ (a ∷ ys))
      → Owns lo hi heap (a ∷ (xs ++ ys))
  pub back_law :
      {lo hi : ℕ} (heap : H.State) (xs : List Allocation) (a : Allocation) (ys : List Allocation)
      → Owns lo hi heap (a ∷ (xs ++ ys))
      → Owns lo hi heap (xs ++ (a ∷ ys))
  pub apart_law :
      {lo hi : ℕ} (heap : H.State) (given : List Allocation)
      → Owns lo hi heap given
      → (x : ℕ) → count_at x (map requested given) ≤ within lo hi x
  pub granted_law :
      {lo hi : ℕ} (heap : H.State) (given : List Allocation)
      → Owns lo hi heap given
      → All IsGranted given

module _ (H : Heap) (C : Contract H) {lo hi : ℕ} (heap : H.State) (ls xs : List Allocation)
    (a : Allocation) (ys : List Allocation) where
  -- An allocation behind two lists comes to the front.
  pub take_out :
      C.Owns lo hi heap (ls ++ (xs ++ (a ∷ ys))) → C.Owns lo hi heap (a ∷ (ls ++ (xs ++ ys)))
  take_out h =
      subst (λ l. C.Owns lo hi heap (a ∷ l)) (append_assoc ls xs ys)
        (C.front_law heap (ls ++ xs) a ys
          (subst (C.Owns lo hi heap) (sym (append_assoc ls xs (a ∷ ys))) h))

  -- An allocation at the front goes behind two lists.
  pub put_in :
      C.Owns lo hi heap (a ∷ (ls ++ (xs ++ ys))) → C.Owns lo hi heap (ls ++ (xs ++ (a ∷ ys)))
  put_in h = subst (C.Owns lo hi heap) (append_assoc ls xs (a ∷ ys)) (
      C.back_law heap (ls ++ xs) a ys
        (subst (λ l. C.Owns lo hi heap (a ∷ l)) (sym (append_assoc ls xs ys)) h))
