-- ===== src/Alloc/FixedSize/Classes.antt =====
-- `list_index`: the least block size that holds a layout.
use Prim.Native.Nat.{max}
use native.Mathlib.Nat.{pow-suc}
use taijios.Common.{
  ℕ, zero, suc, ◌+◌, ◌*◌, ◌^◌, ◌≤◌, ◌<◌, ◌≡◌, ◌⊎◌, inl, inr, refl, ap, arith, Bool, true, false,
  none, some, List, [], ◌∷◌, leb, get_elem?, Option-cases,
}
use taijios.Alloc.{Layout}
use taijios.Alloc.FixedSize.{block_sizes, position, list_index}

position-some :
    (p : ℕ → Bool) (xs : List ℕ) (i : ℕ)
    → position p xs ≡ some i
    → (x : ℕ) × (get_elem? xs i ≡ some x) × (p x ≡ true)
unfolding position
position-some p [] i e = absurd cc
position-some p (x ∷ xs) zero e = (x, refl, ground (arith, Option-cases (position p xs)))
position-some p (x ∷ xs) (suc i) e =
    position-some p xs i (ground (arith, Option-cases (position p xs)))

position-before :
    (p : ℕ → Bool) (xs : List ℕ) (i j y : ℕ)
    → position p xs ≡ some i
    → j < i
    → get_elem? xs j ≡ some y
    → p y ≡ false
unfolding position
position-before p [] i j y e lt f = absurd cc
position-before p (x ∷ xs) zero j y e lt f = absurd (omega arith)
position-before p (x ∷ xs) (suc i) zero y e lt f = ground (arith, Option-cases (position p xs))
position-before p (x ∷ xs) (suc i) (suc j) y e lt f =
    position-before p xs i j y (ground (arith, Option-cases (position p xs))) (omega arith) f

position-none :
    (p : ℕ → Bool) (xs : List ℕ) (j y : ℕ)
    → position p xs ≡ none
    → get_elem? xs j ≡ some y
    → p y ≡ false
unfolding position
position-none p [] j y e f = absurd (ground arith)
position-none p (x ∷ xs) zero y e f = ground (arith, Option-cases (position p xs))
position-none p (x ∷ xs) (suc j) y e f =
    ground (arith, Option-cases (position p xs), position-none p xs j y)

-- The block sizes are the powers of two from 2^3 on.
pub block_sizes-pow : (i x : ℕ) → get_elem? block_sizes i ≡ some x → (i < 9) × (x ≡ 2 ^ (i + 3))
block_sizes-pow zero x e = ground arith
block_sizes-pow (suc zero) x e = ground arith
block_sizes-pow (suc (suc zero)) x e = ground arith
block_sizes-pow (suc (suc (suc zero))) x e = ground arith
block_sizes-pow (suc (suc (suc (suc zero)))) x e = ground arith
block_sizes-pow (suc (suc (suc (suc (suc zero))))) x e = ground arith
block_sizes-pow (suc (suc (suc (suc (suc (suc zero)))))) x e = ground arith
block_sizes-pow (suc (suc (suc (suc (suc (suc (suc zero))))))) x e = ground arith
block_sizes-pow (suc (suc (suc (suc (suc (suc (suc (suc zero)))))))) x e = ground arith
block_sizes-pow (suc (suc (suc (suc (suc (suc (suc (suc (suc i))))))))) x e = absurd cc

pub block_sizes-at : (i : ℕ) → i < 9 → get_elem? block_sizes i ≡ some (2 ^ (i + 3))
block_sizes-at zero h = refl
block_sizes-at (suc zero) h = refl
block_sizes-at (suc (suc zero)) h = refl
block_sizes-at (suc (suc (suc zero))) h = refl
block_sizes-at (suc (suc (suc (suc zero)))) h = refl
block_sizes-at (suc (suc (suc (suc (suc zero))))) h = refl
block_sizes-at (suc (suc (suc (suc (suc (suc zero)))))) h = refl
block_sizes-at (suc (suc (suc (suc (suc (suc (suc zero))))))) h = refl
block_sizes-at (suc (suc (suc (suc (suc (suc (suc (suc zero)))))))) h = refl
block_sizes-at (suc (suc (suc (suc (suc (suc (suc (suc (suc i))))))))) h = absurd (omega arith)

-- What `list_index` promises: the index of the least block size that holds size and alignment.
pub record IsClass (l : Layout) (i : ℕ) : Type 0 where
  pub low : i < 9
  pub at : get_elem? block_sizes i ≡ some (2 ^ (i + 3))
  pub holds_size : l.size ≤ 2 ^ (i + 3)
  pub holds_align : l.align ≤ 2 ^ (i + 3)

module _ (l : Layout) where
  -- A layout has the class of the least block size that holds it.
  pub list_index-IsClass : (i : ℕ) → list_index l ≡ some i → IsClass l i
  unfolding list_index
  list_index-IsClass i e =
      let (x, at, holds) = position-some (λ s. leb (max l.size l.align) s) block_sizes i e in
      let (low, pow) = block_sizes-pow i x at in
      let fits : max l.size l.align ≤ x = ground arith in
      record {
        low = low;
        at = rw (← pow) at;
        holds_size = rw (← pow) (omega (arith, fits));
        holds_align = rw (← pow) (omega (arith, fits));
      }

  -- No smaller block size holds it.
  pub list_index-least :
      (i j x : ℕ)
      → list_index l ≡ some i
      → j < i
      → get_elem? block_sizes j ≡ some x
      → x < max l.size l.align
  unfolding list_index
  list_index-least i j x e lt f =
      ground (arith, position-before (λ s. leb (max l.size l.align) s) block_sizes i j x e lt f)

  pub list_index-none : list_index l ≡ none → 2048 < max l.size l.align
  unfolding list_index
  list_index-none e =
      ground (arith, position-none (λ s. leb (max l.size l.align) s) block_sizes 8 2048 e refl)

  -- Every layout of at most 2048 bytes and alignment has a class, whose blocks hold it and, beyond
  -- the least block size, waste less than half; a greater layout has none.
  pub list_index_fit :
      ((i : ℕ) × (list_index l ≡ some i)
        × IsClass l i
        × ((i ≡ 0) ⊎ (2 ^ (i + 3) < 2 * max l.size l.align)))
      ⊎ ((list_index l ≡ none) × (2048 < max l.size l.align))
  list_index_fit = elim (Option-cases (list_index l)) [
    | inl e ↦ inr (e, list_index-none e)
    | inr (i, e) ↦ inl (i, e, list_index-IsClass i e, half i e)
  ]
    where
      half : (i : ℕ) → list_index l ≡ some i → (i ≡ 0) ⊎ (2 ^ (i + 3) < 2 * max l.size l.align)
      half zero e = inl refl
      half (suc i) e =
          let c = list_index-IsClass (suc i) e in
          let next : suc i + 3 ≡ suc (i + 3) = omega arith in
          inr (
            omega (
              arith,
              pow-suc 2 (i + 3),
              ap (λ (t : ℕ). 2 ^ t) next,
              list_index-least (suc i) i (2 ^ (i + 3)) e (omega arith)
                  (block_sizes-at i (omega (arith, c.low))),
            ))
