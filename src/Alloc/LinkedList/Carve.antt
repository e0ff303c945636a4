-- ===== src/Alloc/LinkedList/Carve.antt =====
-- The second half of `alloc`: a block is cut out of the region that was found.
use taijios.Common.{
  ℕ, ◌+◌, ◌-◌, ◌%◌, ◌^◌, ◌≤◌, ◌≡◌, refl, arith, inl, inr, ok, List, ◌∷◌, All, ltb, Bool-cases, ◌⊎◌,
  if◌then◌else◌, add_usize-ok, sub_usize-ok, checked_add-some, true,
}
use taijios.Alloc.Block.{block, within, count_at, total_size}
use taijios.Alloc.LinkedList.{LinkedListAllocator, ListNode, allocate_in, end_addr, start_addr}
use taijios.Alloc.LinkedList.Invariant.{IsNode, add_free_region-ok}

-- The list after `region` has been taken out and what is left behind the block put back.
abbrev pub put_back : List ListNode → ListNode → ℕ → ℕ → List ListNode
put_back rest region start size =
    let excess = region.addr + region.size - (start + size) in
    if ltb 0 excess then block (start + size) excess ∷ rest else rest

-- The facts about a region that was found.
pub record Place (lo hi : ℕ) (region : ListNode) (start size : ℕ) : Type 0 where
  pub inside : (lo ≤ region.addr) × (region.addr + region.size ≤ hi)
  pub after : region.addr ≤ start
  pub aligned : start % 8 ≡ 0
  pub whole : size % 8 ≡ 0
  pub large : 16 ≤ size
  pub fits : start + size ≤ region.addr + region.size
  pub left :
      (start + size ≡ region.addr + region.size) ⊎ (start + size + 16 ≤ region.addr + region.size)

module _ (lo hi : ℕ) (bounded : hi ≤ 2 ^ 63) (rest : LinkedListAllocator) (region : ListNode)
    (start size : ℕ) (place : Place lo hi region start size) where
  open place use {inside, after, aligned, whole, large, fits, left}

  split :
      (ltb 0 (region.addr + region.size - (start + size)) ≡ true)
      → 16 ≤ region.addr + region.size - (start + size)
  split more = ground arith

  pub allocate_in-ok :
      allocate_in rest region start size
      ≡ ok (start, record { next = put_back rest.next region start size })
  unfolding allocate_in end_addr start_addr
  allocate_in-ok =
      rw
        (
          checked_add-some start size (omega arith),
          add_usize-ok region.addr region.size (omega arith),
          sub_usize-ok (region.addr + region.size) (start + size) fits,
        )
        (elim (Bool-cases (ltb 0 (region.addr + region.size - (start + size)))) [
          | inl more ↦
              rw
                (
                  more,
                  add_free_region-ok rest (start + size)
                      (region.addr + region.size - (start + size)) (omega arith)
                      (omega (arith, split more)) (split more),
                )
                refl
          | inr empty ↦ rw empty refl
        ])

  pub put_back-count :
      (x : ℕ)
      → count_at x (put_back rest.next region start size) + within start (start + size) x
        ≤ within region.addr (region.addr + region.size) x + count_at x rest.next
  unfolding count_at within
  put_back-count x = ground arith

  pub put_back-IsNode : All IsNode rest.next → All IsNode (put_back rest.next region start size)
  put_back-IsNode h = elim (Bool-cases (ltb 0 (region.addr + region.size - (start + size)))) [
    | inl more ↦ rw more (record { aligned = omega arith; holds = split more }, h)
    | inr empty ↦ rw empty h
  ]

  pub put_back-total :
      total_size (put_back rest.next region start size) + size + (start - region.addr)
      ≡ region.size + total_size rest.next
  unfolding total_size
  put_back-total = ground (arith, fits, after)
