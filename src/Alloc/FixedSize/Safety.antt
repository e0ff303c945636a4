-- ===== src/Alloc/FixedSize/Safety.antt =====
-- What a client of the fixed-size allocator can rely on, from `init` on.
use mathlib.Core.Path.{subst}
use taijios.Common.{ℕ, ◌+◌, ◌%◌, ◌≤◌, ◌<◌, ◌≡◌, ok, ok_unique, List, [], ◌∷◌, ◌++◌}
use taijios.Alloc.Client
use taijios.Alloc.Client.{Allocation, State, Reach}
use taijios.Alloc.LinkedList.Global.{IsArena}
use taijios.Alloc.FixedSize.{Heap, FixedSizeBlockAllocator, new, init}
use taijios.Alloc.FixedSize.Contract.{Contract}
use taijios.Alloc.FixedSize.Invariant.{IsFixedSize}
use taijios.Alloc.FixedSize.Global.{init-IsFixedSize, fixed_size}

module _ (H : Heap) (C : Contract H) {lo size : ℕ} {self : FixedSizeBlockAllocator H}
    (arena : IsArena lo size) (ready : init H (new H) lo size ≡ ok self) where
  pub fresh : IsFixedSize H C lo (lo + size) self []
  fresh =
      let (self', e, inv) = init-IsFixedSize H C lo size arena in
      subst (λ a. IsFixedSize H C lo (lo + size) a []) (ok_unique e ready) inv

  -- Over every fallback heap that keeps its contract, after `init` on an arena and any calls of a
  -- client that gives back only what it holds, two blocks that the client holds share no byte.
  pub fixed_size-disjoint :
      {s : State (fixed_size H C)}
      → Reach (fixed_size H C) self s
      → (xs : List Allocation) (a : Allocation) (ys : List Allocation) (b : Allocation)
        (zs : List Allocation)
      → s.live ≡ xs ++ (a ∷ (ys ++ (b ∷ zs)))
      → (x : ℕ) → a.ptr ≤ x
      → x < a.ptr + a.layout.size
      → ¬ ((b.ptr ≤ x) × (x < b.ptr + b.layout.size))
  fixed_size-disjoint r = Client.live-disjoint (fixed_size H C) fresh r

  -- Each block that such a client holds lies in the arena, at a multiple of its alignment.
  pub fixed_size-Inside :
      {s : State (fixed_size H C)}
      → Reach (fixed_size H C) self s
      → (xs : List Allocation) (a : Allocation) (ys : List Allocation) → s.live ≡ xs ++ (a ∷ ys)
      → (lo ≤ a.ptr) × (a.ptr + a.layout.size ≤ lo + size) × (a.ptr % a.layout.align ≡ 0)
  fixed_size-Inside r = Client.live-Inside (fixed_size H C) fresh r
