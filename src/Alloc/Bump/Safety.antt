-- ===== src/Alloc/Bump/Safety.antt =====
-- What a client of the bump allocator can rely on, from `init` on.
use mathlib.Core.Path.{subst}
use taijios.Common.{ℕ, ◌+◌, ◌%◌, ◌^◌, ◌≤◌, ◌<◌, ◌≡◌, ◌⊎◌, All, ok, ok_unique, List, [], ◌∷◌, ◌++◌}
use taijios.Alloc.Client
use taijios.Alloc.Client.{Allocation, State, Reach}
use taijios.Alloc.Bump.{BumpAllocator, new, init}
use taijios.Alloc.Bump.Invariant.{init-IsBump}
use taijios.Alloc.Bump.Global.{IsBumpAt, bump}

module _ (lo size : ℕ) {self : BumpAllocator} (pos : 0 < lo) (fits : lo + size ≤ 2 ^ 63)
    (ready : init new lo size ≡ ok self) where
  fresh : IsBumpAt lo (lo + size) self []
  fresh =
      let (self', e, starts, ends, inv) = init-IsBump lo size pos fits in
      subst (λ a. IsBumpAt lo (lo + size) a []) (ok_unique e ready)
        (record { starts = starts; ends = ends; inv = inv })

  -- After `init` on a heap in the lower half of the addresses and any calls of a client that gives
  -- back only what it holds, each block that the client holds, the only one included, lies in the
  -- heap at a multiple of its alignment, and ends before or starts behind each block that stands
  -- after it in the list of what the client holds.
  pub bump-disjoint :
      {s : State bump}
      → Reach bump self s
      → (xs : List Allocation) (a : Allocation) (ys : List Allocation) → s.live ≡ xs ++ (a ∷ ys)
      → (lo ≤ a.ptr)
        × (a.ptr + a.layout.size ≤ lo + size)
        × (a.ptr % a.layout.align ≡ 0)
        × All (λ b. (a.ptr + a.layout.size ≤ b.ptr) ⊎ (b.ptr + b.layout.size ≤ a.ptr)) ys
  bump-disjoint r xs a ys e =
      let (low, high, aligned) = Client.live-Inside bump fresh r xs a ys e in
      (low, high, aligned, Client.live-IsApart-All bump fresh r xs a ys e)
