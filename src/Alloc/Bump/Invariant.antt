-- ===== src/Alloc/Bump/Invariant.antt =====
-- What the bump allocator keeps: the live blocks lie apart below `next`, and are counted.
use mathlib.Core.List.{map-append}
use mathlib.Core.Path.{subst, sym}
use taijios.Common.{
  All, All-append, All-left, All-right, ℕ, ◌+◌, ◌-◌, ◌%◌, ◌^◌, ◌≤◌, ◌<◌, ◌≡◌, inl, inr, refl, ap,
  arith, ok, List, [], ◌∷◌, ◌++◌, map, length, length-append, leb, ◌==◌, if◌then◌else◌, Bool-cases,
  add_usize, sub_usize, checked_add,
}
use taijios.Alloc.{Layout, IsLayout, null, align_up, round_up}
use taijios.Alloc.Align.{align_up-round_up, round_up_bounds, round_up-mod}
use taijios.Alloc.Block.{within, count_at, count_at-middle, within-above}
use taijios.Alloc.Client.{Allocation, requested, IsGranted}
use taijios.Alloc.Bump.{BumpAllocator, new, init, alloc, dealloc}

-- `GlobalAlloc::alloc` may be called with a layout of nonzero size only.
pub record IsRequest (l : Layout) : Type 0 where
  pub valid : IsLayout l
  pub pos : 0 < l.size

pub record IsBump (self : BumpAllocator) (live : List Allocation) : Type 0 where
  pub nonnull : 0 < self.heap_start
  pub below : self.next ≤ self.heap_end
  pub bounded : self.heap_end ≤ 2 ^ 63
  pub counted : self.allocations ≡ length live
  pub few : self.allocations + self.heap_start ≤ self.next
  pub served : All IsGranted live
  pub disjoint : (x : ℕ) → count_at x (map requested live) ≤ within self.heap_start self.next x

-- The allocator after a block of layout `l` was handed out.
abbrev pub bumped : BumpAllocator → Layout → BumpAllocator
bumped self l = record self {
  next = round_up self.next l.align + l.size;
  allocations = self.allocations + 1;
}

module _ {self : BumpAllocator} {live : List Allocation} (inv : IsBump self live) (l : Layout)
    (r : IsRequest l) where
  open inv use {nonnull, below, bounded, counted, few, disjoint}

  start_bounds :
      (self.next ≤ round_up self.next l.align)
      × (round_up self.next l.align < self.next + l.align)
      × (round_up self.next l.align % l.align ≡ 0)
  start_bounds =
      let (a, b) = round_up_bounds r.valid.log self.next in
      rw r.valid.pow (a, b, round_up-mod r.valid.log self.next)

  -- A request never panics: it is refused exactly when it does not fit behind `next`, and then
  -- nothing changes.
  pub alloc-bumped : alloc self l ≡ (
      if leb (round_up self.next l.align + l.size) self.heap_end
      then ok (round_up self.next l.align, bumped self l)
      else ok (null, self))
  unfolding alloc checked_add add_usize
  alloc-bumped =
      rw
        (subst (λ a. align_up self.next a ≡ ok (round_up self.next a)) (sym r.valid.pow)
          (align_up-round_up r.valid.log self.next r.valid.log_lt
            (omega (arith, below, bounded, r.valid.pow, r.valid.fits, r.pos))))
        (ground (arith, start_bounds))

  -- A block that is handed out is aligned, lies in the heap and apart from the live ones.
  pub bumped-IsBump :
      round_up self.next l.align + l.size ≤ self.heap_end
      → IsBump (bumped self l) (record { ptr = round_up self.next l.align; layout = l } ∷ live)
        × (null < round_up self.next l.align)
        × (round_up self.next l.align % l.align ≡ 0)
        × (self.heap_start ≤ round_up self.next l.align)
  unfolding count_at
  bumped-IsBump fits = (
    record {
      nonnull = nonnull;
      below = fits;
      bounded = bounded;
      counted = omega (arith, counted);
      few = omega (arith, few, start_bounds, r.pos);
      served = (
        record {
          nonnull = omega (arith, start_bounds, few, nonnull);
          pos = r.pos;
          aligned = start_bounds.2;
        },
        inv.served,
      );
      disjoint = λ x. omega (
        arith,
        disjoint x,
        within-above self.heap_start self.next (round_up self.next l.align)
            (round_up self.next l.align + l.size) x start_bounds.0 (omega (arith, few))
            (omega arith),
      );
    },
    omega (arith, start_bounds, few, nonnull),
    start_bounds.2,
    omega (arith, start_bounds, few),
  )

count_at-nil :
    (x : ℕ) (live : List Allocation) → length live ≡ 0 → count_at x (map requested live) ≡ 0
unfolding count_at
count_at-nil x [] h = refl
count_at-nil x (a ∷ live) h = absurd (omega arith)

-- The allocator after one block of several was given back.
abbrev pub released : BumpAllocator → BumpAllocator
released self = record self {
  next = if (self.allocations - 1) == 0 then self.heap_start else self.next;
  allocations = self.allocations - 1;
}

module _ (self : BumpAllocator) (xs : List Allocation) (a : Allocation) (ys : List Allocation)
    (inv : IsBump self (xs ++ (a ∷ ys))) where
  open inv use {nonnull, below, bounded, counted, few, disjoint}

  left : self.allocations ≡ length (xs ++ ys) + 1
  left = omega (arith, counted, length-append xs (a ∷ ys), length-append xs ys)

  -- Giving back a live block never panics. Memory is available again only when it was the last one:
  -- then all of the heap is.
  pub dealloc-released :
      (ptr : ℕ) (l : Layout)
      → (dealloc self ptr l ≡ ok (released self))
        × ((released self).next ≡ (if length (xs ++ ys) == 0 then self.heap_start else self.next))
  unfolding dealloc sub_usize
  dealloc-released ptr l = (ground (arith, left), ground (arith, left))

  pub released-IsBump : IsBump (released self) (xs ++ ys)
  released-IsBump = record {
    nonnull = nonnull;
    below = ground (arith, left, below, few);
    bounded = bounded;
    counted = omega (arith, left);
    few = ground (arith, left, few);
    served =
        All-append IsGranted xs ys (All-left IsGranted xs (a ∷ ys) inv.served)
          (All-right IsGranted xs (a ∷ ys) inv.served).1;
    disjoint = λ x. elim (Bool-cases ((self.allocations - 1) == 0)) [
      | inl last ↦ omega (arith, count_at-nil x (xs ++ ys) (ground (arith, left, last)))
      | inr more ↦ rw more (
          omega (
            arith,
            disjoint x,
            ap (count_at x) (map-append requested xs (a ∷ ys)),
            ap (count_at x) (map-append requested xs ys),
            count_at-middle x (map requested xs) (requested a) (map requested ys),
          ))
    ];
  }

-- `init` sets the invariant up.
pub init-IsBump :
    (lo size : ℕ)
    → 0 < lo
    → lo + size ≤ 2 ^ 63
    → (self : BumpAllocator) × (init new lo size ≡ ok self)
      × (self.heap_start ≡ lo)
      × (self.heap_end ≡ lo + size)
      × IsBump self []
unfolding init new add_usize count_at
init-IsBump lo size pos fits = (
  record { heap_start = lo; heap_end = lo + size; next = lo; allocations = 0 },
  ground arith,
  refl,
  refl,
  record {
    nonnull = pos;
    below = omega arith;
    bounded = fits;
    counted = refl;
    few = omega arith;
    served = tt;
    disjoint = λ x. omega arith;
  },
)
