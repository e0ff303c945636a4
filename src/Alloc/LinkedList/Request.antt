-- ===== src/Alloc/LinkedList/Request.antt =====
-- `size_align`: the size and the alignment that a request is served with.
use Prim.Native.Nat.{max}
use native.Mathlib.Nat.{pow-suc, mul-mod_left, mul_assoc, div-add-mod'}
use mathlib.Core.Path.{subst}
use taijios.Common.{ℕ, suc, ◌+◌, ◌*◌, ◌-◌, ◌/◌, ◌%◌, ◌^◌, ◌≤◌, ◌<◌, ◌≡◌, refl, zero, arith, ok}
use taijios.Alloc.{Layout, align_to, pad_to_align, round_up}
use taijios.Alloc.Align.{
  from_size_align-some, round_up_bounds, round_up-mod, two_pow-pos, two_pow-add,
}
use taijios.Alloc.LinkedList.{size_align, node_align, node_size}

-- A layout of nonzero size, as `GlobalAlloc` requires, whose alignment is a power of two, and that
-- stays a layout at the alignment of a node.
pub record IsRequest (l : Layout) : Type 0 where
  pub pos : 0 < l.size
  pub log : ℕ
  pub log_lt : log < 64
  pub pow : l.align ≡ 2 ^ log
  pub fits : l.size + max l.align node_align ≤ 2 ^ 63

-- the size and alignment of the block that serves a layout
abbrev pub block_align : Layout → ℕ
block_align l = max l.align node_align

abbrev pub block_size : Layout → ℕ
block_size l = max (round_up l.size (block_align l)) node_size

-- What `size_align` gives.
pub record Adjusted (l : Layout) : Type 0 where
  pub exp : ℕ
  pub exp_lt : exp < 64
  pub exp_ge : 3 ≤ exp
  pub align : block_align l ≡ 2 ^ exp
  pub small : 2 ^ exp ≤ 2 ^ 63
  pub divides : (n : ℕ) → n % 2 ^ exp ≡ 0 → n % l.align ≡ 0
  pub result : size_align l ≡ ok (block_size l, block_align l)
  pub enough : l.size ≤ block_size l
  pub holds_node : node_size ≤ block_size l
  pub whole : block_size l % node_align ≡ 0
  pub bounded : block_size l ≤ 2 ^ 63

mul-pow-mod : (q j i : ℕ) → q * 2 ^ (j + i) % 2 ^ i ≡ 0
mul-pow-mod q j i = rw (two_pow-add j i, ← mul_assoc q (2 ^ j) (2 ^ i)) (mul-mod_left _ (2 ^ i))

-- A multiple of a power of two is one of each smaller power.
pub mod-pow : (n i k : ℕ) → i ≤ k → n % 2 ^ k ≡ 0 → n % 2 ^ i ≡ 0
mod-pow n i k h d =
    let shift : (k - i) + i ≡ k = omega arith in
    let whole : n / 2 ^ k * 2 ^ k ≡ n = omega (arith, div-add-mod' n (2 ^ k)) in
    subst (λ t. t % 2 ^ i ≡ 0) whole
      (subst (λ t. n / 2 ^ k * 2 ^ t % 2 ^ i ≡ 0) shift (mul-pow-mod (n / 2 ^ k) (k - i) i))

-- the exponent of an alignment raised to that of a node
record Raised (log k : ℕ) : Type 0 where
  lt : k < 64
  ge : 3 ≤ k
  le : log ≤ k
  eq : max (2 ^ log) 8 ≡ 2 ^ k

raise : (log : ℕ) → log < 64 → (k : ℕ) × Raised log k
raise zero h = (3, record { lt = omega arith; ge = omega arith; le = omega arith; eq = refl })
raise (suc zero) h = (3, record { lt = omega arith; ge = omega arith; le = omega arith; eq = refl })
raise (suc (suc zero)) h =
    (3, record { lt = omega arith; ge = omega arith; le = omega arith; eq = refl })
raise (suc (suc (suc m))) h = (
  suc (suc (suc m)),
  record {
    lt = h;
    ge = omega arith;
    le = omega arith;
    eq = omega (arith, pow-suc 2 (suc (suc m)), pow-suc 2 (suc m), pow-suc 2 m, two_pow-pos m);
  },
)

max-whole : (n : ℕ) → n % 8 ≡ 0 → max n 16 % 8 ≡ 0
max-whole n h = omega arith

-- Every request is adjusted without a panic: the block can hold the request and a node, its size is
-- a multiple of the node's alignment, and its alignment is a power of two.
pub adjust : (l : Layout) → IsRequest l → Adjusted l
unfolding size_align align_to pad_to_align
adjust l r =
    let (k, up) = raise r.log r.log_lt in
    let pow : block_align l ≡ 2 ^ k = rw r.pow up.eq in
    let fits : l.size + 2 ^ k ≤ 2 ^ 63 = rw (← pow) r.fits in
    record {
      exp = k;
      exp_lt = up.lt;
      exp_ge = up.ge;
      align = pow;
      small = omega (arith, fits);
      divides = λ n d. rw r.pow (mod-pow n r.log k up.le d);
      result = rw (pow, from_size_align-some l.size k up.lt fits) refl;
      enough = rw pow (omega (arith, round_up_bounds k l.size));
      holds_node = omega arith;
      whole = max-whole _ (rw pow (mod-pow _ 3 k up.ge (round_up-mod k l.size)));
      bounded = rw pow (omega (arith, round_up_bounds k l.size));
    }
