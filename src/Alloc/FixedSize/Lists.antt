-- ===== src/Alloc/FixedSize/Lists.antt =====
-- The free blocks of the nine lists, as allocations of the fallback heap.
use mathlib.Core.List.{append_assoc}
use taijios.Common.{
  ℕ, zero, suc, ◌+◌, ◌^◌, ◌≡◌, ◌∙◌, refl, ap, sym, arith, none, some, List, [], ◌∷◌, ◌++◌, map,
  get_elem?, set,
}
use taijios.Alloc.{Layout}
use taijios.Alloc.Client.{Allocation}
use taijios.Alloc.FixedSize.{list_index}

-- the layout of a block of the `i`th size, and a block of it
abbrev pub class_layout : ℕ → Layout
class_layout i = record { size = 2 ^ (i + 3); align = 2 ^ (i + 3) }

abbrev pub block_at : ℕ → ℕ → Allocation
block_at i ptr = record { ptr = ptr; layout = class_layout i }

-- what the fallback heap has given out for an allocation of the client
unfoldable pub backing : Allocation → Allocation
backing a = elim (list_index a.layout) [ some i ↦ block_at i a.ptr | none ↦ a ]

-- the blocks in lists, the first of which is the list of the `k`th size
unfoldable pub free_blocks : ℕ → List (List ℕ) → List Allocation
free_blocks k [] = []
free_blocks k (head ∷ heads) = map (block_at k) head ++ free_blocks (suc k) heads

-- The list at `i`, of blocks of size `c`, can be exchanged, whatever the others hold.
pub record Slot (k i c : ℕ) (heads : List (List ℕ)) (head : List ℕ) : Type 0 where
  pub before : List Allocation
  pub behind : List Allocation
  pub whole : free_blocks k heads ≡ before ++ (map (block_at c) head ++ behind)
  pub exchanged :
      (new : List ℕ) → free_blocks k (set heads i new) ≡ before ++ (map (block_at c) new ++ behind)

pub slot :
    (k i c : ℕ) (heads : List (List ℕ)) (head : List ℕ)
    → k + i ≡ c
    → get_elem? heads i ≡ some head
    → Slot k i c heads head
unfolding free_blocks
slot k i c [] head at e = absurd (ground arith)
slot k zero c (first ∷ heads) head at e =
    let same : k ≡ c = omega arith in
    let here : first ≡ head = cc in
    record {
      before = [];
      behind = free_blocks (suc k) heads;
      whole = rw (same, here) refl;
      exchanged = λ new. rw same refl;
    }
slot k (suc i) c (first ∷ heads) head at e =
    let rest = slot (suc k) i c heads head (omega arith) e in
    record {
      before = map (block_at k) first ++ rest.before;
      behind = rest.behind;
      whole =
          ap (λ l. map (block_at k) first ++ l) rest.whole
          ∙ sym (
              append_assoc (map (block_at k) first) rest.before
                (map (block_at c) head ++ rest.behind));
      exchanged = λ new.
          ap (λ l. map (block_at k) first ++ l) (rest.exchanged new)
          ∙ sym (
              append_assoc (map (block_at k) first) rest.before
                (map (block_at c) new ++ rest.behind));
    }
