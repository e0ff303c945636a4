-- ===== src/Alloc/Tests.antt =====
-- `align_up` at concrete inputs.
use taijios.Common.{
  ◌+◌, ◌-◌, ◌%◌, ◌^◌, ◌≤◌, ◌<◌, ◌≡◌, ◌⊎◌, refl, arith, ok, panic, usize_mod, add_usize, sub_usize,
  ℕ,
}
use taijios.Alloc.{align_up}
use taijios.Alloc.Align.{align_up_least}

align_up_rounds : align_up 13 8 ≡ ok 16
unfolding align_up add_usize sub_usize
align_up_rounds = refl

align_up_overflows : align_up (2 ^ 64 - 1) 8 ≡ panic
unfolding align_up add_usize sub_usize
align_up_overflows = refl

align_up_least_example :
    ((usize_mod ≤ 13 + 2 ^ 3) × (align_up 13 (2 ^ 3) ≡ panic))
    ⊎ ((r : ℕ) × (13 + 2 ^ 3 < usize_mod)
        × (align_up 13 (2 ^ 3) ≡ ok r)
        × (13 ≤ r)
        × (r % 2 ^ 3 ≡ 0)
        × (r ≤ 24))
align_up_least_example = align_up_least 13 3 24 (omega arith) (omega arith) refl
