-- ===== src/Memory/Frames.antt =====
-- No frame is handed out twice, and each lies in a usable region.
use taijios.Common.{
  ℕ, zero, suc, ◌+◌, ◌-◌, ◌*◌, ◌/◌, ◌%◌, ◌^◌, ◌≤◌, ◌<◌, ◌≡◌, ◌≢◌, ◌⊎◌, inl, inr, refl, arith, true,
  false, some, List, [], ◌∷◌, ◌++◌, get_elem?, All, ◌==◌, if◌then◌else◌, Bool-cases,
}
use taijios.Alloc.Block.{within}
use taijios.Memory.{Machine, frame_size, steps, step_by, frame_addresses}

-- how often a number stands in a list
unfoldable occurs : ℕ → List ℕ → ℕ
occurs x [] = 0
occurs x (a ∷ xs) = (if a == x then 1 else 0) + occurs x xs

occurs-append : (x : ℕ) (xs bs : List ℕ) → occurs x (xs ++ bs) ≡ occurs x xs + occurs x bs
unfolding occurs
occurs-append x [] bs = omega arith
occurs-append x (a ∷ xs) bs = omega (arith, occurs-append x xs bs)

occurs-at : (x : ℕ) (xs : List ℕ) (i : ℕ) → get_elem? xs i ≡ some x → 0 < occurs x xs
unfolding occurs
occurs-at x [] i e = absurd (ground arith)
occurs-at x (a ∷ xs) zero e = ground arith
occurs-at x (a ∷ xs) (suc i) e = omega (arith, occurs-at x xs i e)

occurs-twice :
    (x : ℕ) (xs : List ℕ) (i j : ℕ)
    → i < j
    → get_elem? xs i ≡ some x
    → get_elem? xs j ≡ some x
    → 1 < occurs x xs
unfolding occurs
occurs-twice x [] i j lt e f = absurd (ground arith)
occurs-twice x (a ∷ xs) i zero lt e f = absurd (omega arith)
occurs-twice x (a ∷ xs) zero (suc j) lt e f = ground (arith, occurs-at x xs j f)
occurs-twice x (a ∷ xs) (suc i) (suc j) lt e f =
    omega (arith, occurs-twice x xs i j (omega arith) e f)

-- The addresses of a range are within it, each once.
occurs-steps :
    (x n start end : ℕ)
    → n * 4096 < end - start + 4096
    → occurs x (steps n start) ≤ within start end x
unfolding occurs steps within
occurs-steps x zero start end h = omega arith
occurs-steps x (suc n) start end h =
    ground (arith, occurs-steps x n (start + 4096) end (omega arith))

occurs-step_by : (x start end : ℕ) → occurs x (step_by start end) ≤ within start end x
unfolding step_by
occurs-step_by x start end =
    occurs-steps x ((end - start + (4096 - 1)) / 4096) start end (omega arith)

-- An item of a list put together stands in the first list or in the second.
get_elem?-append :
    {A : Type 0} (xs ys : List A) (i : ℕ) (a : A)
    → get_elem? (xs ++ ys) i ≡ some a
    → (get_elem? xs i ≡ some a) ⊎ ((j : ℕ) × (get_elem? ys j ≡ some a))
get_elem?-append [] ys i a e = inr (i, e)
get_elem?-append (x ∷ xs) ys zero a e = inl e
get_elem?-append (x ∷ xs) ys (suc i) a e = get_elem?-append xs ys i a e

steps-at :
    (n start i x : ℕ) → get_elem? (steps n start) i ≡ some x → (i < n) × (x ≡ start + i * 4096)
unfolding steps
steps-at zero start i x e = absurd (ground arith)
steps-at (suc n) start zero x e = ground arith
steps-at (suc n) start (suc i) x e = omega (arith, steps-at n (start + 4096) i x e)

module _ (M : Machine) where
  open M use {MemoryRegion, is_usable, start_addr, end_addr, PhysFrame, start_address}

  -- A region as the bootloader reports it: whole pages, below the limit of physical addresses.
  pub record IsRegion (r : MemoryRegion) : Type 0 where
    pub start_aligned : start_addr r % 4096 ≡ 0
    pub end_aligned : end_addr r % 4096 ≡ 0
    pub bounded : end_addr r ≤ 2 ^ 52

  -- in how many usable regions an address lies
  unfoldable pub coverage : ℕ → List MemoryRegion → ℕ
  coverage x [] = 0
  coverage x (r ∷ regions) =
      (if is_usable r then within (start_addr r) (end_addr r) x else 0) + coverage x regions

  pub record IsMap (regions : List MemoryRegion) : Type 0 where
    pub each : All (λ r. is_usable r ≡ true → IsRegion r) regions
    pub disjoint : (x : ℕ) → coverage x regions ≤ 1

  occurs-frame_addresses :
      (x : ℕ) (regions : List MemoryRegion)
      → occurs x (frame_addresses M regions) ≤ coverage x regions
  unfolding coverage frame_addresses occurs
  occurs-frame_addresses x [] = omega arith
  occurs-frame_addresses x (r ∷ regions) =
      elim (is_usable r)
        as (λ u.
          occurs x (elim u [
            | true ↦ step_by (start_addr r) (end_addr r) ++ frame_addresses M regions
            | false ↦ frame_addresses M regions
          ])
          ≤ (if u then within (start_addr r) (end_addr r) x else 0) + coverage x regions) [
            | true ↦ omega (
              arith,
              occurs-append x (step_by (start_addr r) (end_addr r)) (frame_addresses M regions),
              occurs-step_by x (start_addr r) (end_addr r),
              occurs-frame_addresses x regions,
            )
            | false ↦ omega (arith, occurs-frame_addresses x regions)
          ]

  -- The whole frame at an address lies in a usable region.
  pub record IsUsable (regions : List MemoryRegion) (addr : ℕ) : Type 0 where
    pub region : MemoryRegion
    pub index : ℕ
    pub listed : get_elem? regions index ≡ some region
    pub usable : is_usable region ≡ true
    pub above : start_addr region ≤ addr
    pub below : addr + frame_size ≤ end_addr region
    pub frame_start : addr % frame_size ≡ 0
    pub small : addr < 2 ^ 52

  later_region :
      (r : MemoryRegion) (regions : List MemoryRegion) (addr : ℕ)
      → IsUsable regions addr
      → IsUsable (r ∷ regions) addr
  later_region r regions addr u = record {
    region = u.region;
    index = suc u.index;
    listed = u.listed;
    usable = u.usable;
    above = u.above;
    below = u.below;
    frame_start = u.frame_start;
    small = u.small;
  }

  first_region :
      (r : MemoryRegion) (regions : List MemoryRegion) (i addr : ℕ)
      → is_usable r ≡ true
      → IsRegion r
      → get_elem? (step_by (start_addr r) (end_addr r)) i ≡ some addr
      → IsUsable (r ∷ regions) addr
  unfolding step_by
  first_region r regions i addr u ok_region e =
      let (inside, there) =
        steps-at ((end_addr r - start_addr r + (4096 - 1)) / 4096) (start_addr r) i addr e in
      record {
        region = r;
        index = 0;
        listed = refl;
        usable = u;
        above = omega (arith, there);
        below = omega (arith, inside, there, ok_region.start_aligned, ok_region.end_aligned);
        frame_start = omega (arith, there, ok_region.start_aligned);
        small = omega (
          arith, inside, there, ok_region.bounded, ok_region.start_aligned, ok_region.end_aligned,
        );
      }

  pub frame_addresses-usable :
      (r : MemoryRegion) (regions : List MemoryRegion)
      → is_usable r ≡ true
      → frame_addresses M (r ∷ regions)
        ≡ step_by (start_addr r) (end_addr r) ++ frame_addresses M regions
  unfolding frame_addresses
  frame_addresses-usable r regions u = rw (u, frame_addresses) refl

  pub frame_addresses-reserved :
      (r : MemoryRegion) (regions : List MemoryRegion)
      → is_usable r ≡ false
      → frame_addresses M (r ∷ regions) ≡ frame_addresses M regions
  unfolding frame_addresses
  frame_addresses-reserved r regions u = rw (u, frame_addresses) refl

  pub frame_addresses-IsUsable :
      (regions : List MemoryRegion) (i addr : ℕ)
      → All (λ r. is_usable r ≡ true → IsRegion r) regions
      → get_elem? (frame_addresses M regions) i ≡ some addr
      → IsUsable regions addr
  frame_addresses-IsUsable [] i addr h e = absurd (unfold frame_addresses in ground arith)
  frame_addresses-IsUsable (r ∷ regions) i addr h e = elim (Bool-cases (is_usable r)) [
    | inl u ↦
        elim (get_elem?-append (step_by (start_addr r) (end_addr r)) (frame_addresses M regions) i
          addr (rw (frame_addresses-usable r regions u) at e)) [
            | inl here ↦ first_region r regions i addr u (h.0 u) here
            | inr later ↦
                later_region r regions addr
                  (frame_addresses-IsUsable regions later.0 addr h.1 later.1)
          ]
    | inr u ↦ later_region r regions addr (
        frame_addresses-IsUsable regions i addr h.1
          (rw (frame_addresses-reserved r regions u) at e))
  ]

  -- An address stands once among those of a map whose usable regions are disjoint.
  pub frame_addresses-once :
      (regions : List MemoryRegion) (i j addr : ℕ)
      → IsMap regions
      → i < j
      → get_elem? (frame_addresses M regions) i ≡ some addr
      → get_elem? (frame_addresses M regions) j ≢ some addr
  frame_addresses-once regions i j addr m lt e f = omega (
    arith,
    occurs-twice addr (frame_addresses M regions) i j lt e f,
    occurs-frame_addresses addr regions,
    m.disjoint addr,
  )
