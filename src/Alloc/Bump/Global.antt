-- ===== src/Alloc/Bump/Global.antt =====
-- The bump allocator is a `GlobalAlloc`.
use taijios.Common.{
  ℕ, ◌+◌, ◌≤◌, ◌<◌, ◌≡◌, ◌⊎◌, inl, inr, refl, arith, ok, List, ◌∷◌, ◌++◌, map, leb, Bool-cases,
  leb→le,
}
use taijios.Alloc.{Layout, null, round_up}
use taijios.Alloc.Block.{within, count_at, within-sub}
use taijios.Alloc.Client.{Allocation, requested, GlobalAlloc}
use taijios.Alloc.Bump.{BumpAllocator, alloc, dealloc}
use taijios.Alloc.Bump.Invariant.{
  IsRequest, IsBump, bumped, alloc-bumped, bumped-IsBump, released, dealloc-released,
  released-IsBump,
}

-- The invariant over the heap `[lo, hi)`.
pub record IsBumpAt (lo hi : ℕ) (self : BumpAllocator) (live : List Allocation) : Type 0 where
  pub starts : self.heap_start ≡ lo
  pub ends : self.heap_end ≡ hi
  pub inv : IsBump self live

pub alloc_law :
    {lo hi : ℕ} {self : BumpAllocator} {live : List Allocation}
    → IsBumpAt lo hi self live
    → (l : Layout) → IsRequest l
    → ((after : BumpAllocator) × (alloc self l ≡ ok (null, after)) × IsBumpAt lo hi after live)
      ⊎ ((ptr : ℕ) × (after : BumpAllocator) × (alloc self l ≡ ok (ptr, after))
          × (null < ptr)
          × IsBumpAt lo hi after (record { ptr = ptr; layout = l } ∷ live))
alloc_law {self} at l r =
    elim (Bool-cases (leb (round_up self.next l.align + l.size) self.heap_end)) [
      | inl fits ↦
          let (good, nonnull, _, _) = bumped-IsBump at.inv l r (leb→le _ _ fits) in
          inr (
            round_up self.next l.align,
            bumped self l,
            rw (alloc-bumped at.inv l r, fits) refl,
            nonnull,
            record { starts = at.starts; ends = at.ends; inv = good },
          )
      | inr full ↦ inl (self, rw (alloc-bumped at.inv l r, full) refl, at)
    ]

pub dealloc_law :
    {lo hi : ℕ} (self : BumpAllocator) (xs : List Allocation) (a : Allocation)
    (ys : List Allocation)
    → IsBumpAt lo hi self (xs ++ (a ∷ ys))
    → (after : BumpAllocator) × (dealloc self a.ptr a.layout ≡ ok after)
      × IsBumpAt lo hi after (xs ++ ys)
dealloc_law self xs a ys at = (
  released self,
  (dealloc-released self xs a ys at.inv a.ptr a.layout).0,
  record { starts = at.starts; ends = at.ends; inv = released-IsBump self xs a ys at.inv },
)

pub apart_law :
    {lo hi : ℕ} {self : BumpAllocator} {live : List Allocation}
    → IsBumpAt lo hi self live
    → (x : ℕ) → count_at x (map requested live) ≤ within lo hi x
apart_law {lo} {hi} {self} at x = omega (
  arith,
  at.inv.disjoint x,
  within-sub lo self.heap_start self.next hi x (omega (arith, at.starts))
      (omega (arith, at.ends, at.inv.below)),
)

abbrev pub bump : GlobalAlloc
bump = record {
  Allocator = BumpAllocator;
  alloc = alloc;
  dealloc = dealloc;
  Request = IsRequest;
  Inv = IsBumpAt;
  alloc_law = alloc_law;
  dealloc_law = dealloc_law;
  apart_law = apart_law;
  granted_law = λ {lo} {hi} {self} {live} at. at.inv.served;
}
