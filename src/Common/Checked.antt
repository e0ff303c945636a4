-- ===== src/Common/Checked.antt =====
-- Computations that may panic, and the checked `usize` arithmetic of a build with overflow checks.
use Prim.Native.Nat.{ℕ, ◌+◌, ◌-◌, ◌^◌, ◌≤◌, ◌<◌}
use mathlib.Core.Path.{◌≡◌, refl}
use mathlib.Core.Logic.{◌⊎◌, inl, inr}
use mathlib.Core.Bool.{Bool, true, false}
use mathlib.Core.Option.{Option, none, some}
use taijios.Common.Tests.{ltb, leb, if◌then◌else◌, lt→ltb, le→leb}

pub data Outcome {ℓ} (A : Type ℓ) : Type ℓ where
  ok : A → Outcome A
  panic : Outcome A

infixl 5 ◌>>=◌ ◌>>◌
abbrev pub ◌>>=◌ {ℓ κ} : {A : Type ℓ} {B : Type κ} → Outcome A → (A → Outcome B) → Outcome B
ok a >>= f = f a
panic >>= f = panic

abbrev pub ◌>>◌ {ℓ} : {B : Type ℓ} → Outcome (Unit {0}) → Outcome B → Outcome B
m >> k = m >>= λ _. k

-- `assert!`
abbrev pub assert : Bool → Outcome (Unit {0})
assert true = ok tt
assert false = panic

-- `Option::unwrap`, `Option::expect`
abbrev pub expect {ℓ} : {A : Type ℓ} → Option A → Outcome A
expect (some a) = ok a
expect none = panic

abbrev pub usize_mod : ℕ
usize_mod = 2 ^ 64

unfoldable pub add_usize : ℕ → ℕ → Outcome ℕ
add_usize a b = if ltb (a + b) usize_mod then ok (a + b) else panic

unfoldable pub sub_usize : ℕ → ℕ → Outcome ℕ
sub_usize a b = if leb b a then ok (a - b) else panic

-- `usize::checked_add`
unfoldable pub checked_add : ℕ → ℕ → Option ℕ
checked_add a b = if ltb (a + b) usize_mod then some (a + b) else none

pub add_usize-ok : (a b : ℕ) → a + b < usize_mod → add_usize a b ≡ ok (a + b)
unfolding add_usize
add_usize-ok a b h = rw (lt→ltb _ _ h)

pub sub_usize-ok : (a b : ℕ) → b ≤ a → sub_usize a b ≡ ok (a - b)
unfolding sub_usize
sub_usize-ok a b h = rw (le→leb _ _ h)

pub checked_add-some : (a b : ℕ) → a + b < usize_mod → checked_add a b ≡ some (a + b)
unfolding checked_add
checked_add-some a b h = rw (lt→ltb _ _ h)

-- To split on a computed result and keep the equation.
pub Outcome-cases {ℓ} : {A : Type ℓ} (m : Outcome A) → (m ≡ panic) ⊎ ((a : A) × (m ≡ ok a))
Outcome-cases panic = inl refl
Outcome-cases (ok a) = inr (a, refl)

-- Two results of one call agree.
pub ok_unique {ℓ} : {A : Type ℓ} {m : Outcome A} {a b : A} → m ≡ ok a → m ≡ ok b → a ≡ b
ok_unique e f = cc
