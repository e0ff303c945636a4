-- ===== src/Alloc/Client.antt =====
-- `GlobalAlloc` as an interface, and its clients: any sequence of calls in which a client gives
-- back only what it holds, with the layout that it asked for.
use mathlib.Core.Path.{subst, subst₂}
use mathlib.Core.List.{map-append, append_assoc}
use native.Mathlib.Decide.{dec_lt}
use taijios.Common.{
  ℕ, ◌+◌, ◌%◌, ◌≤◌, ◌<◌, ◌≡◌, ◌⊎◌, inl, inr, refl, sym, ap, ◌∙◌, arith, Outcome, ok, ok_unique,
  List, [], ◌∷◌, ◌++◌, map, All, All-right,
}
use taijios.Alloc.{Layout, null}
use taijios.Alloc.Block.{
  Block, block, within, count_at, count_at-append, count_at-middle, apart_of_count, within-le,
  within_bounds,
}

-- A pointer that a client holds, with the layout that it asked for.
pub record Allocation : Type 0 where
  pub ptr : ℕ
  pub layout : Layout

-- the bytes that the client may use
abbrev pub requested : Allocation → Block
requested a = block a.ptr a.layout.size

pub record IsGranted (a : Allocation) : Type 0 where
  pub nonnull : null < a.ptr
  pub pos : 0 < a.layout.size
  pub aligned : a.ptr % a.layout.align ≡ 0

-- What an implementation of the trait owes: an invariant over what its client holds.
pub record GlobalAlloc : Type 1 where
  pub Allocator : Type 0
  pub alloc : Allocator → Layout → Outcome (ℕ × Allocator)
  pub dealloc : Allocator → ℕ → Layout → Outcome Allocator
  pub Request : Layout → Type 0
  pub Inv : ℕ → ℕ → Allocator → List Allocation → Type 0
  pub alloc_law :
      {lo hi : ℕ} {self : Allocator} {live : List Allocation}
      → Inv lo hi self live
      → (l : Layout) → Request l
      → ((after : Allocator) × (alloc self l ≡ ok (null, after)) × Inv lo hi after live)
        ⊎ ((ptr : ℕ) × (after : Allocator) × (alloc self l ≡ ok (ptr, after))
            × (null < ptr)
            × Inv lo hi after (record { ptr = ptr; layout = l } ∷ live))
  pub dealloc_law :
      {lo hi : ℕ} (self : Allocator) (xs : List Allocation) (a : Allocation) (ys : List Allocation)
      → Inv lo hi self (xs ++ (a ∷ ys))
      → (after : Allocator) × (dealloc self a.ptr a.layout ≡ ok after) × Inv lo hi after (xs ++ ys)
  pub apart_law :
      {lo hi : ℕ} {self : Allocator} {live : List Allocation}
      → Inv lo hi self live
      → (x : ℕ) → count_at x (map requested live) ≤ within lo hi x
  pub granted_law :
      {lo hi : ℕ} {self : Allocator} {live : List Allocation}
      → Inv lo hi self live
      → All IsGranted live

-- Every byte that is in the blocks `a` and `b` of the client is counted twice.
counted :
    (x : ℕ) (xs : List Allocation) (a : Allocation) (ys : List Allocation) (b : Allocation)
    (zs : List Allocation)
    → count_at x (map requested (xs ++ (a ∷ (ys ++ (b ∷ zs)))))
      ≡ within a.ptr (a.ptr + a.layout.size) x
        + (within b.ptr (b.ptr + b.layout.size) x + count_at x (map requested (xs ++ (ys ++ zs))))
counted x xs a ys b zs = omega (
  arith,
  ap (count_at x) (map-append requested xs (a ∷ (ys ++ (b ∷ zs)))),
  ap (count_at x) (map-append requested xs (ys ++ zs)),
  ap (count_at x) (map-append requested ys (b ∷ zs)),
  ap (count_at x) (map-append requested ys zs),
  count_at-middle x (map requested xs) (requested a) (map requested (ys ++ (b ∷ zs))),
  count_at-append x (map requested xs) (map requested (ys ++ (b ∷ zs))),
  count_at-append x (map requested xs) (map requested (ys ++ zs)),
  count_at-middle x (map requested ys) (requested b) (map requested zs),
)

-- One of two blocks ends before the other one starts.
abbrev pub IsApart : Allocation → Allocation → Type 0
IsApart a b = (a.ptr + a.layout.size ≤ b.ptr) ⊎ (b.ptr + b.layout.size ≤ a.ptr)

ends_before :
    (a b : Allocation)
    → 0 < a.layout.size
    → 0 < b.layout.size
    → ((x : ℕ)
        → a.ptr ≤ x
        → x < a.ptr + a.layout.size
        → ¬ ((b.ptr ≤ x) × (x < b.ptr + b.layout.size)))
    → IsApart a b
ends_before a b first second apart = elim (dec_lt a.ptr b.ptr) [
  | yes below ↦ elim (dec_lt b.ptr (a.ptr + a.layout.size)) [
    | yes within ↦
        absurd (apart b.ptr (omega (arith, below)) within (omega arith, omega (arith, second)))
    | no behind ↦ inl (omega (arith, behind))
  ]
  | no above ↦ elim (dec_lt a.ptr (b.ptr + b.layout.size)) [
    | yes within ↦
        absurd (apart a.ptr (omega arith) (omega (arith, first)) (omega (arith, above), within))
    | no behind ↦ inr (omega (arith, behind))
  ]
]

-- A property of each item, wherever it stands.
All-split :
    {A : Type 0} (Q : A → Type 0) (ys : List A)
    → ((ps : List A) (b : A) (zs : List A) → ys ≡ ps ++ (b ∷ zs) → Q b)
    → All Q ys
All-split Q [] h = tt
All-split Q (b ∷ ys) h =
    (h [] b ys refl, All-split Q ys (λ ps c zs e. h (b ∷ ps) c zs (ap (λ l. b ∷ l) e)))

module _ (G : GlobalAlloc) where
  open G use {
    Allocator, alloc, dealloc, Request, Inv, alloc_law, dealloc_law, apart_law, granted_law,
  }

  pub record State : Type 0 where
    pub allocator : Allocator
    pub live : List Allocation

  -- One call. `alloc` adds the block to what the client holds, `dealloc` takes one away.
  pub data Step (s t : State) : Type 0 where
    take :
        (l : Layout) (ptr : ℕ)
        → Request l
        → alloc s.allocator l ≡ ok (ptr, t.allocator)
        → null < ptr
        → t.live ≡ record { ptr = ptr; layout = l } ∷ s.live
        → Step s t
    refuse :
        (l : Layout)
        → Request l
        → alloc s.allocator l ≡ ok (null, t.allocator)
        → t.live ≡ s.live
        → Step s t
    give :
        (xs : List Allocation) (a : Allocation) (ys : List Allocation)
        → s.live ≡ xs ++ (a ∷ ys)
        → dealloc s.allocator a.ptr a.layout ≡ ok t.allocator
        → t.live ≡ xs ++ ys
        → Step s t

  -- The states that a client can reach from `initial`, at which it holds nothing.
  pub data Reach (initial : Allocator) : State → Type 0 where
    start : {s : State} → s.allocator ≡ initial → s.live ≡ [] → Reach initial s
    later : {s t : State} → Reach initial s → Step s t → Reach initial t

  abbrev pub Holds : ℕ → ℕ → State → Type 0
  Holds lo hi s = Inv lo hi s.allocator s.live

  pub Step-Holds : {lo hi : ℕ} (s t : State) → Step s t → Holds lo hi s → Holds lo hi t
  Step-Holds {lo} {hi} s t (take l ptr r e pos f) h = rw f (elim (alloc_law h l r) [
    | inl (after, g, _) ↦ absurd (omega (arith, ap (λ p. p.0) (ok_unique e g)))
    | inr (p, after, g, _, good) ↦
        let same : (ptr, t.allocator) ≡ (p, after) = ok_unique e g in
        subst₂ (λ q a. Inv lo hi a (record { ptr = q; layout = l } ∷ s.live))
          (ap (λ p. p.0) (sym same)) (ap (λ p. p.1) (sym same)) good
  ])
  Step-Holds {lo} {hi} s t (refuse l r e f) h = rw f (elim (alloc_law h l r) [
    | inl (after, g, kept) ↦ subst (λ a. Inv lo hi a s.live) (ap (λ p. p.1) (ok_unique g e)) kept
    | inr (p, after, g, pos, _) ↦ absurd (omega (arith, pos, ap (λ p. p.0) (ok_unique e g)))
  ])
  Step-Holds {lo} {hi} s t (give xs a ys e d f) h =
      let (after, d', kept) = dealloc_law s.allocator xs a ys (subst (Inv lo hi s.allocator) e h) in
      rw f (subst (λ b. Inv lo hi b (xs ++ ys)) (ok_unique d' d) kept)

  module _ {lo hi : ℕ} {initial : Allocator} (fresh : Inv lo hi initial []) where
    pub Reach-Holds : {s : State} → Reach initial s → Holds lo hi s
    Reach-Holds (start e f) = rw (e, f) fresh
    Reach-Holds (later {s} {t} r step) = Step-Holds s t step (Reach-Holds r)

    -- Two blocks that the client holds share no byte.
    pub live-disjoint :
        {s : State}
        → Reach initial s
        → (xs : List Allocation) (a : Allocation) (ys : List Allocation) (b : Allocation)
          (zs : List Allocation)
        → s.live ≡ xs ++ (a ∷ (ys ++ (b ∷ zs)))
        → (x : ℕ) → a.ptr ≤ x
        → x < a.ptr + a.layout.size
        → ¬ ((b.ptr ≤ x) × (x < b.ptr + b.layout.size))
    live-disjoint {s} r xs a ys b zs e x low high =
        let inv = subst (Inv lo hi s.allocator) e (Reach-Holds r) in
        apart_of_count x (requested a) (requested b) (count_at x (map requested (xs ++ (ys ++ zs))))
          (omega (arith, apart_law inv x, counted x xs a ys b zs, within-le lo hi x)) low high

    live-IsGranted :
        {s : State}
        → Reach initial s
        → (xs : List Allocation) (a : Allocation) (ys : List Allocation) → s.live ≡ xs ++ (a ∷ ys)
        → IsGranted a
    live-IsGranted {s} r xs a ys e =
        let inv = subst (Inv lo hi s.allocator) e (Reach-Holds r) in
        (All-right IsGranted xs (a ∷ ys) (granted_law inv)).0

    -- One of two blocks that the client holds ends before the other one starts.
    live-IsApart :
        {s : State}
        → Reach initial s
        → (xs : List Allocation) (a : Allocation) (ys : List Allocation) (b : Allocation)
          (zs : List Allocation)
        → s.live ≡ xs ++ (a ∷ (ys ++ (b ∷ zs)))
        → IsApart a b
    live-IsApart {s} r xs a ys b zs e =
        let first = live-IsGranted r xs a (ys ++ (b ∷ zs)) e in
        let second =
          live-IsGranted r (xs ++ (a ∷ ys)) b zs (e ∙ sym (append_assoc xs (a ∷ ys) (b ∷ zs))) in
        ends_before a b first.pos second.pos (live-disjoint r xs a ys b zs e)

    -- It is apart from all that the client holds for longer.
    pub live-IsApart-All :
        {s : State}
        → Reach initial s
        → (xs : List Allocation) (a : Allocation) (ys : List Allocation) → s.live ≡ xs ++ (a ∷ ys)
        → All (IsApart a) ys
    live-IsApart-All r xs a ys e =
        All-split (IsApart a) ys
          (λ ps b zs f. live-IsApart r xs a ps b zs (e ∙ ap (λ l. xs ++ (a ∷ l)) f))

    -- A block that the client holds lies in the heap, and is aligned.
    pub live-Inside :
        {s : State}
        → Reach initial s
        → (xs : List Allocation) (a : Allocation) (ys : List Allocation) → s.live ≡ xs ++ (a ∷ ys)
        → (lo ≤ a.ptr) × (a.ptr + a.layout.size ≤ hi) × (a.ptr % a.layout.align ≡ 0)
    live-Inside {s} r xs a ys e =
        let inv = subst (Inv lo hi s.allocator) e (Reach-Holds r) in
        let granted : IsGranted a = (All-right IsGranted xs (a ∷ ys) (granted_law inv)).0 in
        let inside =
          within_bounds lo hi (requested a) (λ x. count_at x (map requested (xs ++ ys)))
            (λ x. omega (
              arith,
              apart_law inv x,
              ap (count_at x) (map-append requested xs (a ∷ ys)),
              ap (count_at x) (map-append requested xs ys),
              count_at-middle x (map requested xs) (requested a) (map requested ys),
            ))
            granted.pos in
        (inside.0, inside.1, granted.aligned)

    -- No call of the client panics.
    pub call-ok :
        {s : State}
        → Reach initial s
        → ((l : Layout) → Request l → (r : ℕ × Allocator) × (alloc s.allocator l ≡ ok r))
          × ((xs : List Allocation) (a : Allocation) (ys : List Allocation)
              → s.live ≡ xs ++ (a ∷ ys)
              → (after : Allocator) × (dealloc s.allocator a.ptr a.layout ≡ ok after))
    call-ok {s} r = (
      λ l q. elim (alloc_law (Reach-Holds r) l q) [
        | inl (after, g, _) ↦ ((null, after), g)
        | inr (p, after, g, _, _) ↦ ((p, after), g)
      ],
      λ xs a ys e.
          let (after, d, _) =
            dealloc_law s.allocator xs a ys (subst (Inv lo hi s.allocator) e (Reach-Holds r)) in
          (after, d),
    )
