-- ===== src/Alloc/LinkedList/Search.antt =====
-- `find_region`: the first region in list order that suits is taken out of the list.
use taijios.Common.{
  ℕ, ◌+◌, ◌^◌, ◌<◌, ◌≡◌, refl, inl, inr, none, some, ok, List, [], ◌∷◌, ◌++◌, usize_mod, All,
}
use taijios.Alloc.LinkedList.{ListNode, find_from, Found}
use taijios.Alloc.LinkedList.Region.{Fits, alloc_from_region_cases}
use taijios.Alloc.{round_up}

-- No request of this size and alignment fits the region.
abbrev pub Unfit : ℕ → ℕ → ListNode → Type 0
Unfit size align region = ¬ Fits region size align

-- The outcome of a first-fit search in `regions`.
pub data FirstFit (size align : ℕ) (regions : List ListNode) (found : Found) : Type 0 where
  missing :
      All (Unfit size align) regions → found ≡ (none, regions) → FirstFit size align regions found
  hit :
      (before : List ListNode) (region : ListNode) (behind : List ListNode)
      → regions ≡ before ++ (region ∷ behind)
      → All (Unfit size align) before
      → Fits region size align
      → found ≡ (some (region, round_up region.addr align), before ++ behind)
      → FirstFit size align regions found

-- A region below the end of the address range, so that no address in it overflows.
abbrev pub InRange : ℕ → ListNode → Type 0
InRange align region = (region.addr + align < usize_mod) × (region.addr + region.size < usize_mod)

module _ (size k : ℕ) (hk : k < 64) where
  FirstFit-cons :
      {regions : List ListNode} {found : Found} (region : ListNode)
      → Unfit size (2 ^ k) region
      → FirstFit size (2 ^ k) regions found
      → FirstFit size (2 ^ k) (region ∷ regions) (found.0, region ∷ found.1)
  FirstFit-cons region bad (missing all e) = missing (bad, all) (rw e refl)
  FirstFit-cons region bad (hit before r behind e all fits f) =
      hit (region ∷ before) r behind (rw e refl) (bad, all) fits (rw f refl)

  -- The search never panics, and is first fit.
  pub find_from-FirstFit :
      (regions : List ListNode)
      → All (InRange (2 ^ k)) regions
      → (found : Found) × (find_from regions size (2 ^ k) ≡ ok found)
        × FirstFit size (2 ^ k) regions found
  unfolding find_from
  find_from-FirstFit [] ok_all = ((none, []), refl, missing tt refl)
  find_from-FirstFit (region ∷ regions) h =
      let (found, e, fit) = find_from-FirstFit regions h.1 in
      elim (alloc_from_region_cases region size k hk h.0.0 h.0.1) [
        | inl good ↦ (
          (some (region, round_up region.addr (2 ^ k)), regions),
          rw good.0 refl,
          hit [] region regions refl tt good.1 refl,
        )
        | inr bad ↦
            ((found.0, region ∷ found.1), rw (bad.0, e) refl, FirstFit-cons region bad.1 fit)
      ]
