-- ===== src/Memory/Pages.antt =====
-- The whole pages of the usable regions of a memory map, counted and numbered apart from the
-- iterators of the code, and that the code's addresses are those pages.
use taijios.Common.{
  ℕ, zero, suc, ◌+◌, ◌-◌, ◌*◌, ◌/◌, ◌%◌, ◌≤◌, ◌≡◌, ◌↔◌, ◌∙◌, refl, ap, sym, arith, true, false,
  Option, none, some, List, [], ◌∷◌, ◌++◌, get_elem?, All, ltb, if◌then◌else◌, Bool-cases, inl, inr,
}
use taijios.Memory.{Machine, steps, step_by, frame_addresses}
use taijios.Memory.Frames.{IsRegion, frame_addresses-usable, frame_addresses-reserved}

-- how many whole pages lie between two addresses
abbrev pub pages : ℕ → ℕ → ℕ
pages start end = (end - start) / 4096

-- Page `n` of a range, or what lies behind its pages.
abbrev pub page_or : ℕ → ℕ → (ℕ → Option ℕ) → ℕ → Option ℕ
page_or start count rest n = if ltb n count then some (start + n * 4096) else rest (n - count)

get_elem?-steps :
    (count start n : ℕ) (xs : List ℕ)
    → get_elem? (steps count start ++ xs) n ≡ page_or start count (get_elem? xs) n
unfolding steps
get_elem?-steps zero start n xs = ground arith
get_elem?-steps (suc count) start zero xs = ground arith
get_elem?-steps (suc count) start (suc n) xs =
    ground (arith, get_elem?-steps count (start + 4096) n xs)

-- With both ends at a page the code's count, which rounds up, is that of the whole pages.
get_elem?-step_by :
    (start end n : ℕ) (xs : List ℕ)
    → start % 4096 ≡ 0
    → end % 4096 ≡ 0
    → get_elem? (step_by start end ++ xs) n ≡ page_or start (pages start end) (get_elem? xs) n
unfolding step_by
get_elem?-step_by start end n xs s e =
    let same : (end - start + (4096 - 1)) / 4096 ≡ (end - start) / 4096 = omega (arith, s, e) in
    rw same (get_elem?-steps ((end - start) / 4096) start n xs)

module _ (M : Machine) where
  open M use {MemoryRegion, is_usable, start_addr, end_addr}

  -- the whole pages of the usable regions
  unfoldable pub total_pages : List MemoryRegion → ℕ
  total_pages [] = 0
  total_pages (r ∷ regions) =
      (if is_usable r then pages (start_addr r) (end_addr r) else 0) + total_pages regions

  -- Page `n` of the usable regions, in the order of the map.
  unfoldable pub nth_page : List MemoryRegion → ℕ → Option ℕ
  nth_page [] n = none
  nth_page (r ∷ regions) n = elim (is_usable r) [
    | true ↦ page_or (start_addr r) (pages (start_addr r) (end_addr r)) (nth_page regions) n
    | false ↦ nth_page regions n
  ]

  nth_page-usable :
      (r : MemoryRegion) (regions : List MemoryRegion) (n : ℕ)
      → is_usable r ≡ true
      → nth_page (r ∷ regions) n
        ≡ page_or (start_addr r) (pages (start_addr r) (end_addr r)) (nth_page regions) n
  unfolding nth_page
  nth_page-usable r regions n u = rw (u, nth_page) refl

  nth_page-reserved :
      (r : MemoryRegion) (regions : List MemoryRegion) (n : ℕ)
      → is_usable r ≡ false
      → nth_page (r ∷ regions) n ≡ nth_page regions n
  unfolding nth_page
  nth_page-reserved r regions n u = rw (u, nth_page) refl

  -- There is no page `n` exactly when there are no more than `n`.
  pub nth_page-none :
      (regions : List MemoryRegion) (n : ℕ)
      → (nth_page regions n ≡ none) ↔ (total_pages regions ≤ n)
  unfolding nth_page total_pages
  nth_page-none [] n = (λ e. omega arith, λ h. refl)
  nth_page-none (r ∷ regions) n =
      elim (is_usable r)
        as (λ u.
          ((elim u [
            | true ↦ page_or (start_addr r) (pages (start_addr r) (end_addr r)) (nth_page regions) n
            | false ↦ nth_page regions n
          ])
            ≡ none)
          ↔ ((if u then pages (start_addr r) (end_addr r) else 0) + total_pages regions ≤ n)) [
            | true ↦
                let rest = nth_page-none regions (n - pages (start_addr r) (end_addr r)) in
                (λ e. ground (arith, rest), λ h. ground (arith, rest))
            | false ↦
                let rest = nth_page-none regions n in
                (λ e. omega (arith, rest.0 e), λ h. rest.1 (omega (arith, h)))
          ]

  -- The addresses that the code lists are the whole pages of the usable regions, in their order.
  pub frame_addresses-nth :
      (regions : List MemoryRegion) (n : ℕ)
      → All (λ r. is_usable r ≡ true → IsRegion M r) regions
      → get_elem? (frame_addresses M regions) n ≡ nth_page regions n
  frame_addresses-nth [] n h = unfold frame_addresses nth_page in refl
  frame_addresses-nth (r ∷ regions) n h = elim (Bool-cases (is_usable r)) [
    | inl u ↦
        let region = h.0 u in
        let count = pages (start_addr r) (end_addr r) in
        ap (λ xs. get_elem? xs n) (frame_addresses-usable M r regions u)
        ∙ get_elem?-step_by (start_addr r) (end_addr r) n (frame_addresses M regions)
            region.start_aligned region.end_aligned
        ∙ ap (λ (rest : Option ℕ). if ltb n count then some (start_addr r + n * 4096) else rest)
            (frame_addresses-nth regions (n - count) h.1)
        ∙ sym (nth_page-usable r regions n u)
    | inr u ↦
        ap (λ xs. get_elem? xs n) (frame_addresses-reserved M r regions u)
        ∙ frame_addresses-nth regions n h.1
        ∙ sym (nth_page-reserved r regions n u)
  ]
