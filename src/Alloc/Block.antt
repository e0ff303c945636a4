-- ===== src/Alloc/Block.antt =====
-- Memory blocks as sets of byte addresses. Disjointness is counted: no byte lies in two blocks.
use taijios.Common.{
  ℕ, ◌+◌, ◌-◌, ◌≤◌, ◌<◌, ◌≡◌, arith, List, [], ◌∷◌, ◌++◌, ◌&&◌, leb, ltb, if◌then◌else◌, All,
}

pub record Block : Type 0 where
  pub addr : ℕ
  pub size : ℕ

abbrev pub block : ℕ → ℕ → Block
block a n = record { addr = a; size = n }

-- 1 if byte `x` lies in `[lo, hi)`, else 0
unfoldable pub within : ℕ → ℕ → ℕ → ℕ
within lo hi x = if leb lo x && ltb x hi then 1 else 0

-- how many of the blocks contain byte `x`
unfoldable pub count_at : ℕ → List Block → ℕ
count_at x [] = 0
count_at x (b ∷ bs) = within b.addr (b.addr + b.size) x + count_at x bs

-- the bytes of all the blocks
unfoldable pub total_size : List Block → ℕ
total_size [] = 0
total_size (b ∷ bs) = b.size + total_size bs

-- Every byte of the blocks lies in `[lo, hi)`, and no byte lies in two of them.
abbrev pub Disjoint : ℕ → ℕ → List Block → Type 0
Disjoint lo hi bs = (x : ℕ) → count_at x bs ≤ within lo hi x

pub count_at-append :
    (x : ℕ) (bs cs : List Block) → count_at x (bs ++ cs) ≡ count_at x bs + count_at x cs
unfolding count_at
count_at-append x [] cs = omega arith
count_at-append x (b ∷ bs) cs = omega (arith, count_at-append x bs cs)

pub total_size-append : (bs cs : List Block) → total_size (bs ++ cs) ≡ total_size bs + total_size cs
unfolding total_size
total_size-append [] cs = omega arith
total_size-append (b ∷ bs) cs = omega (arith, total_size-append bs cs)

pub count_at-middle :
    (x : ℕ) (bs : List Block) (b : Block) (cs : List Block)
    → count_at x (bs ++ (b ∷ cs)) ≡ within b.addr (b.addr + b.size) x + count_at x (bs ++ cs)
unfolding count_at
count_at-middle x bs b cs = omega (arith, count_at-append x bs (b ∷ cs), count_at-append x bs cs)

pub total_size-middle :
    (bs : List Block) (b : Block) (cs : List Block)
    → total_size (bs ++ (b ∷ cs)) ≡ b.size + total_size (bs ++ cs)
unfolding total_size
total_size-middle bs b cs = omega (arith, total_size-append bs (b ∷ cs), total_size-append bs cs)

-- A block in front of a list of disjoint blocks meets none of the others.
pub apart_of_count :
    (x : ℕ) (b c : Block) (k : ℕ)
    → within b.addr (b.addr + b.size) x + (within c.addr (c.addr + c.size) x + k) ≤ 1
    → b.addr ≤ x
    → x < b.addr + b.size
    → ¬ ((c.addr ≤ x) × (x < c.addr + c.size))
unfolding within
apart_of_count x b c k h lo hi = ground arith

-- A nonempty block that is counted inside the bounds lies inside them.
pub within_bounds :
    (lo hi : ℕ) (b : Block) (rest : ℕ → ℕ)
    → ((x : ℕ) → within b.addr (b.addr + b.size) x + rest x ≤ within lo hi x)
    → 0 < b.size
    → (lo ≤ b.addr) × (b.addr + b.size ≤ hi)
unfolding within
within_bounds lo hi b rest h pos = ground (arith, h b.addr, h (b.addr + b.size - 1))

pub within-le : (lo hi x : ℕ) → within lo hi x ≤ 1
unfolding within
within-le lo hi x = ground arith

-- A range cut in two, with what is dropped before the cut.
pub within-split :
    (lo a b hi x : ℕ) → lo ≤ a → a ≤ b → b ≤ hi → within a b x + within b hi x ≤ within lo hi x
unfolding within
within-split lo a b hi x p q r = ground arith

pub within-sub : (lo a b hi x : ℕ) → lo ≤ a → b ≤ hi → within a b x ≤ within lo hi x
unfolding within
within-sub lo a b hi x p q = ground arith

-- A range above another.
pub within-above :
    (lo mid a b x : ℕ) → mid ≤ a → lo ≤ mid → a ≤ b → within a b x + within lo mid x ≤ within lo b x
unfolding within
within-above lo mid a b x p q r = ground arith

abbrev pub Inside : ℕ → ℕ → Block → Type 0
Inside lo hi b = (lo ≤ b.addr) × (b.addr + b.size ≤ hi)

abbrev pub IsNonempty : Block → Type 0
IsNonempty b = 0 < b.size

-- Disjoint nonempty blocks lie inside the bounds, whatever else is counted with them.
pub All-Inside :
    (lo hi : ℕ) (bs : List Block) (rest : ℕ → ℕ)
    → ((x : ℕ) → count_at x bs + rest x ≤ within lo hi x)
    → All IsNonempty bs
    → All (Inside lo hi) bs
unfolding count_at
All-Inside lo hi [] rest h pos = tt
All-Inside lo hi (b ∷ bs) rest h pos = (
  within_bounds lo hi b (λ x. count_at x bs + rest x) (λ x. omega (arith, h x)) pos.0,
  All-Inside lo hi bs (λ x. within b.addr (b.addr + b.size) x + rest x) (λ x. omega (arith, h x))
      pos.1,
)
