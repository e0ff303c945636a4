-- ===== src/Common/Bits.antt =====
-- Masks: `x & !(2^k - 1)` as arithmetic.
use Prim.Native.Nat.{
  ℕ, zero, suc, ◌+◌, ◌*◌, ◌-◌, ◌/◌, ◌%◌, ◌^◌, ◌≤◌, ◌<◌, min, bit_and, digits, bit_and-bitwise,
}
use mathlib.Core.Path.{◌≡◌, refl, ap, ◌∙◌}
use native.Mathlib.Nat.{pow-suc, one-le-pow}
use native.Mathlib.Decide.{dec_le}
use native.Mathlib.Omega.{arith}

-- One more round of `digits` changes nothing once the fuel covers the number.
more_fuel :
    (op : ℕ → ℕ → ℕ) (rounds a b : ℕ)
    → a ≤ rounds
    → digits (λ _. 0) op (suc rounds) a b ≡ digits (λ _. 0) op rounds a b
more_fuel op zero zero b le = refl
more_fuel op zero (suc a) b le = absurd (omega arith)
more_fuel op (suc rounds) zero b le = refl
more_fuel op (suc rounds) (suc a) b le = rw (more_fuel op rounds (suc a / 2) (b / 2) (omega arith))

exact_fuel :
    (op : ℕ → ℕ → ℕ) (rounds a b : ℕ)
    → a ≤ rounds
    → digits (λ _. 0) op rounds a b ≡ digits (λ _. 0) op a a b
exact_fuel op zero a b le = let empty : a ≡ 0 = omega arith in rw empty
exact_fuel op (suc rounds) a b le = elim (dec_le a rounds) [
  | yes below ↦ more_fuel op rounds a b below ∙ exact_fuel op rounds a b below
  | no above ↦ let last : a ≡ suc rounds = omega arith in rw last
]

-- A conjunction by its last binary digit.
pub bit_and-last : (a b : ℕ) → bit_and a b ≡ 2 * bit_and (a / 2) (b / 2) + min (a % 2) (b % 2)
bit_and-last zero b = omega (arith, bit_and-bitwise 0 b, bit_and-bitwise 0 (b / 2))
bit_and-last (suc a) b =
    let half : suc a / 2 ≤ a = omega arith in
    omega (
      arith,
      exact_fuel min a (suc a / 2) (b / 2) half,
      bit_and-bitwise (suc a / 2) (b / 2),
      bit_and-bitwise (suc a) b,
    )

twice_power : (n k : ℕ) → n * 2 ^ suc k ≡ n * 2 ^ k + n * 2 ^ k
twice_power n k = omega (arith, ap (λ (t : ℕ). n * t) (pow-suc 2 k))

-- A multiple of `2 ^ k` as a mask drops the low `k` bits.
pub bit_and_high :
    (k q r p : ℕ) → r < 2 ^ k → bit_and (q * 2 ^ k + r) (p * 2 ^ k) ≡ bit_and q p * 2 ^ k
bit_and_high zero q r p fits = let e : r ≡ 0 = omega arith in rw e (ground arith)
bit_and_high (suc k) q r p fits = ground (
  arith,
  bit_and-last (q * 2 ^ suc k + r) (p * 2 ^ suc k),
  twice_power q k,
  twice_power p k,
  twice_power (bit_and q p) k,
  pow-suc 2 k,
  bit_and_high k q (r / 2) p (omega (arith, pow-suc 2 k)),
)

-- A full mask keeps every bit.
pub bit_and_full : (j q : ℕ) → q < 2 ^ j → bit_and q (2 ^ j - 1) ≡ q
bit_and_full zero q h = let e : q ≡ 0 = omega arith in rw e refl
bit_and_full (suc j) q h = ground (
  arith,
  bit_and-last q (2 ^ suc j - 1),
  pow-suc 2 j,
  one-le-pow j 2,
  bit_and_full j (q / 2) (omega (arith, pow-suc 2 j)),
)
