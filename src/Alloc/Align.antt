-- ===== src/Alloc/Align.antt =====
-- src/allocator.rs: rounding up to a power of two, and what a valid layout gives.
use Prim.Native.Nat.{bit_and}
use mathlib.Core.Path.{◌≡⟨◌⟩◌, ◌∎, ap₂}
use native.Mathlib.Nat.{
  pow-suc, one-le-pow, add-zero, add-suc, div-add-mod', mod-lt, mul-mod_left, div-lt_iff_lt-mul,
  mul-sub, mul_comm, add-mul, mul-le-mul_right, le_trans,
}
use native.Mathlib.Decide.{ℕ_discrete, dec_lt}
use taijios.Common.{
  ◌⊎◌, inl, inr, panic, add_usize, ℕ, zero, suc, ◌+◌, ◌*◌, ◌-◌, ◌/◌, ◌%◌, ◌^◌, ◌≤◌, ◌<◌, ◌≡◌, refl,
  ap, sym, true, arith, ◌∙◌, ok, none, some, Bool, false, leb, ◌&&◌, add_usize-ok, sub_usize-ok,
  usize_mod, le→leb, ==_iff,
}
use taijios.Common.Bits.{bit_and_high, bit_and_full}
use taijios.Alloc.{align_up, not_usize, from_size_align, is_power_of_two, round_up, is_pow_below}

pub two_pow-add : (j k : ℕ) → 2 ^ (j + k) ≡ 2 ^ j * 2 ^ k
two_pow-add j zero = rw add-zero (omega arith)
two_pow-add j (suc k) = omega (
  arith,
  ap (λ (t : ℕ). 2 ^ t) (add-suc j k),
  pow-suc 2 (j + k),
  pow-suc 2 k,
  two_pow-add j k,
  ap (λ (t : ℕ). 2 ^ j * t) (pow-suc 2 k),
)

pub two_pow-pos : (k : ℕ) → 0 < 2 ^ k
two_pow-pos k = one-le-pow k 2 (omega arith)

pow-split : (k : ℕ) → k ≤ 64 → usize_mod ≡ 2 ^ (64 - k) * 2 ^ k
pow-split k h =
    ap (λ (t : ℕ). 2 ^ t) (let e : 64 ≡ (64 - k) + k = omega arith in e) ∙ two_pow-add (64 - k) k

-- The mask `!(2^k - 1)` keeps the bits from `k` on.
mask-high :
    (k x : ℕ) → k ≤ 64 → x < usize_mod → bit_and x (not_usize (2 ^ k - 1)) ≡ x / 2 ^ k * 2 ^ k
mask-high k x hk hx =
    let p : 0 < 2 ^ k = two_pow-pos k in
    let q : ℕ = x / 2 ^ k in
    let top : q < 2 ^ (64 - k) = (div-lt_iff_lt-mul p).1 (rw (← pow-split k hk) hx) in
    let mask : (2 ^ (64 - k) - 1) * 2 ^ k ≡ not_usize (2 ^ k - 1) = omega (
      arith,
      pow-split k hk,
      mul_comm (2 ^ (64 - k) - 1) (2 ^ k),
      mul-sub (2 ^ k) (2 ^ (64 - k)) 1,
    ) in
    bit_and x (not_usize (2 ^ k - 1))
    ≡⟨ ap₂ bit_and (sym (div-add-mod' x (2 ^ k))) (sym mask) ⟩
      bit_and (q * 2 ^ k + x % 2 ^ k) ((2 ^ (64 - k) - 1) * 2 ^ k)
    ≡⟨ bit_and_high k q (x % 2 ^ k) (2 ^ (64 - k) - 1) (mod-lt x p) ⟩
      bit_and q (2 ^ (64 - k) - 1) * 2 ^ k
    ≡⟨ ap (λ t. t * 2 ^ k) (bit_and_full (64 - k) q top) ⟩ q * 2 ^ k ∎

module _ (k : ℕ) where
  pub round_up_bounds : (n : ℕ) → (n ≤ round_up n (2 ^ k)) × (round_up n (2 ^ k) < n + 2 ^ k)
  unfolding round_up
  round_up_bounds n =
      let p : 0 < 2 ^ k = two_pow-pos k in
      omega (arith, div-add-mod' (n + 2 ^ k - 1) (2 ^ k), mod-lt (n + 2 ^ k - 1) p)

  pub round_up-mod : (n : ℕ) → round_up n (2 ^ k) % 2 ^ k ≡ 0
  unfolding round_up
  round_up-mod n = mul-mod_left _ _

  pub round_up-least : (n m : ℕ) → n ≤ m → m % 2 ^ k ≡ 0 → round_up n (2 ^ k) ≤ m
  unfolding round_up
  round_up-least n m h d =
      let p : 0 < 2 ^ k = two_pow-pos k in
      let below : (n + 2 ^ k - 1) / 2 ^ k < m / 2 ^ k + 1 =
        (div-lt_iff_lt-mul p).1
          (omega (arith, div-add-mod' m (2 ^ k), add-mul (m / 2 ^ k) 1 (2 ^ k))) in
      le_trans (mul-le-mul_right {n = m / 2 ^ k} (2 ^ k) (omega arith))
        (omega (arith, div-add-mod' m (2 ^ k)))

  pub align_up-round_up :
      (addr : ℕ)
      → k < 64
      → addr + 2 ^ k < usize_mod
      → align_up addr (2 ^ k) ≡ ok (round_up addr (2 ^ k))
  unfolding align_up round_up
  align_up-round_up addr hk h =
      let p : 0 < 2 ^ k = two_pow-pos k in
      rw
        (
          add_usize-ok addr (2 ^ k) h,
          sub_usize-ok (addr + 2 ^ k) 1 (omega arith),
          sub_usize-ok (2 ^ k) 1 p,
        )
        (ap ok (mask-high k (addr + 2 ^ k - 1) (omega arith) (omega arith)))

-- At an alignment that is a power of two, the call panics exactly when `addr + align` overflows;
-- otherwise the result is a multiple of the alignment, not below `addr`, and not above any `m` that
-- is such a multiple.
pub align_up_least :
    (addr k m : ℕ)
    → k < 64
    → addr ≤ m
    → m % 2 ^ k ≡ 0
    → ((usize_mod ≤ addr + 2 ^ k) × (align_up addr (2 ^ k) ≡ panic))
      ⊎ ((r : ℕ) × (addr + 2 ^ k < usize_mod)
          × (align_up addr (2 ^ k) ≡ ok r)
          × (addr ≤ r)
          × (r % 2 ^ k ≡ 0)
          × (r ≤ m))
unfolding align_up add_usize
align_up_least addr k m h le multiple = elim (dec_lt (addr + 2 ^ k) usize_mod) [
  | yes small ↦ inr (
    round_up addr (2 ^ k),
    small,
    align_up-round_up k addr h small,
    (round_up_bounds k addr).0,
    round_up-mod k addr,
    round_up-least k addr m le multiple,
  )
  | no large ↦ inl (omega arith, ground arith)
]

pub is_pow_below-pow : (n k : ℕ) → k < n → is_pow_below n (2 ^ k) ≡ true
is_pow_below-pow zero k h = elim h [ ]
is_pow_below-pow (suc n) k h = elim (ℕ_discrete k n) [
  | yes e ↦ rw (e, (==_iff (2 ^ n) (2 ^ n)).1 refl)
  | no ne ↦ ground (arith, is_pow_below-pow n k (omega arith))
]

-- A power of two and a size that fits are accepted.
pub from_size_align-some :
    (size k : ℕ)
    → k < 64
    → size + 2 ^ k ≤ 2 ^ 63
    → from_size_align size (2 ^ k) ≡ some (record { size = size; align = 2 ^ k })
unfolding from_size_align
from_size_align-some size k h fits =
    rw (is_pow_below-pow 64 k h, le→leb size (2 ^ 63 - 2 ^ k) (omega arith))

and-false : (b : Bool) → b && false ≡ false
and-false true = refl
and-false false = refl

-- A size of more than `isize::MAX` when rounded up is not.
pub from_size_align-none :
    (size align : ℕ) → 0 < size → 2 ^ 63 < size + align → from_size_align size align ≡ none
unfolding from_size_align
from_size_align-none size align pos over =
    let large : leb size (2 ^ 63 - align) ≡ false = ground arith in
    rw (large, and-false (is_power_of_two align)) refl
