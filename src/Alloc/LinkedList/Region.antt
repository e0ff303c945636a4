-- ===== src/Alloc/LinkedList/Region.antt =====
-- `alloc_from_region`: when a region serves a request, and where.
use taijios.Common.{
  ℕ, ◌+◌, ◌-◌, ◌^◌, ◌≤◌, ◌<◌, ◌≡◌, ◌⊎◌, inl, inr, refl, arith, true, false, none, some, ok,
  usize_mod, add_usize, sub_usize, checked_add, leb, Bool, ◌&&◌, if◌then◌else◌, Bool-cases,
}
use taijios.Alloc.{round_up}
use taijios.Alloc.Align.{align_up-round_up, round_up_bounds}
use taijios.Alloc.LinkedList.{
  ListNode, alloc_from_region, start_addr, end_addr, excess_fits, node_size,
}

-- The region takes the block at its first aligned address, and what is left is nothing or a node.
pub record Suits (region : ListNode) (size align start : ℕ) : Type 0 where
  pub first : start ≡ round_up region.addr align
  pub inside : start + size ≤ region.addr + region.size
  pub left :
      (start + size ≡ region.addr + region.size)
      ⊎ (start + size + node_size ≤ region.addr + region.size)

abbrev pub Fits : ListNode → ℕ → ℕ → Type 0
Fits region size align = Suits region size align (round_up region.addr align)

-- The test of `alloc_from_region` without its arithmetic checks.
abbrev suits : ListNode → ℕ → ℕ → Bool
suits region size start =
    leb (start + size) (region.addr + region.size)
    && excess_fits (region.addr + region.size - (start + size))

suits-Suits :
    (region : ListNode) (size align : ℕ)
    → suits region size (round_up region.addr align) ≡ true
    → Fits region size align
unfolding excess_fits
suits-Suits region size align h = record {
  first = refl;
  inside = ground arith;
  left = ground arith;
}

Suits-suits :
    (region : ListNode) (size align : ℕ)
    → suits region size (round_up region.addr align) ≡ false
    → ¬ Fits region size align
unfolding excess_fits
Suits-suits region size align h f = ground (arith, f.inside, f.left)

module _ (region : ListNode) (size k : ℕ) (hk : k < 64) (small : region.addr + 2 ^ k < usize_mod)
    (ends : region.addr + region.size < usize_mod) where
  abbrev start : ℕ
  start = round_up region.addr (2 ^ k)

  alloc_from_region-suits :
      alloc_from_region region size (2 ^ k)
      ≡ ok (if suits region size start then some start else none)
  unfolding alloc_from_region start_addr end_addr checked_add sub_usize add_usize
  alloc_from_region-suits =
      rw (align_up-round_up k region.addr hk small) (ground (arith, round_up_bounds k region.addr))

  -- The answer is the first aligned address, exactly when the region suits.
  pub alloc_from_region_cases :
      ((alloc_from_region region size (2 ^ k) ≡ ok (some start)) × Fits region size (2 ^ k))
      ⊎ ((alloc_from_region region size (2 ^ k) ≡ ok none) × (¬ Fits region size (2 ^ k)))
  alloc_from_region_cases = elim (Bool-cases (suits region size start)) [
    | inl good ↦ inl (rw (alloc_from_region-suits, good), suits-Suits region size (2 ^ k) good)
    | inr bad ↦ inr (rw (alloc_from_region-suits, bad), Suits-suits region size (2 ^ k) bad)
  ]
