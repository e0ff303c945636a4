-- ===== src/Alloc/Bump/Tests.antt =====
-- The bump allocator on a heap of 100 bytes, and the theorems at its states.
use taijios.Common.{
  ◌+◌, ◌%◌, ◌≤◌, ◌≡◌, ◌⊎◌, All, refl, arith, ok, [], ◌∷◌, length, leb, ◌==◌, if◌then◌else◌,
  add_usize, sub_usize, checked_add,
}
use taijios.Alloc.{Layout, null, align_up, round_up}
use taijios.Alloc.Block.{count_at, within}
use taijios.Alloc.Client.{Allocation, State, Reach, start, later, take}
use taijios.Alloc.Bump.{BumpAllocator, new, init, alloc, dealloc}
use taijios.Alloc.Bump.Invariant.{
  IsRequest, IsBump, bumped, alloc-bumped, released, dealloc-released,
}
use taijios.Alloc.Bump.Global.{bump}
use taijios.Alloc.Bump.Safety.{bump-disjoint}

abbrev ready : BumpAllocator
ready = record { heap_start = 1000; heap_end = 1100; next = 1000; allocations = 0 }

abbrev small : Layout
small = record { size = 10; align = 4 }

abbrev wide : Layout
wide = record { size = 32; align = 32 }

abbrev one : BumpAllocator
one = record { heap_start = 1000; heap_end = 1100; next = 1010; allocations = 1 }

abbrev two : BumpAllocator
two = record { heap_start = 1000; heap_end = 1100; next = 1056; allocations = 2 }

-- A third block of 64 bytes does not fit; the heap is free again when both are given back.
runs :
    (init new 1000 100 ≡ ok ready)
    × (alloc ready small ≡ ok (1000, one))
    × (alloc one wide ≡ ok (1024, two))
    × (alloc two (record { size = 64; align = 8 }) ≡ ok (null, two))
    × (dealloc two 1000 small ≡ ok (record two { allocations = 1 }))
    × (dealloc (record two { allocations = 1 }) 1024 wide ≡ ok ready)
unfolding init new alloc dealloc align_up add_usize sub_usize checked_add
runs = (refl, refl, refl, refl, refl, refl)

abbrev small-IsRequest : IsRequest small
small-IsRequest = record {
  valid = record { log = 2; log_lt = omega arith; pow = refl; fits = omega arith };
  pos = omega arith;
}

abbrev wide-IsRequest : IsRequest wide
wide-IsRequest = record {
  valid = record { log = 5; log_lt = omega arith; pow = refl; fits = omega arith };
  pos = omega arith;
}

abbrev first : Allocation
first = record { ptr = 1000; layout = small }

abbrev second : Allocation
second = record { ptr = 1024; layout = wide }

abbrev fresh_state : State bump
fresh_state = record { allocator = ready; live = [] }

abbrev one_state : State bump
one_state = record { allocator = one; live = first ∷ [] }

abbrev two_state : State bump
two_state = record { allocator = two; live = second ∷ first ∷ [] }

two_state-Reach : Reach bump ready two_state
two_state-Reach =
    later {s = one_state}
      (later {s = fresh_state} (start refl refl)
        (take small 1000 small-IsRequest runs.1 (omega arith) refl))
      (take wide 1024 wide-IsRequest runs.2 (omega arith) refl)

bump-disjoint_example :
    (1000 ≤ 1024)
    × (1024 + 32 ≤ 1000 + 100)
    × (1024 % 32 ≡ 0)
    × All {A = Allocation} (λ b. (1024 + 32 ≤ b.ptr) ⊎ (b.ptr + b.layout.size ≤ 1024)) (first ∷ [])
bump-disjoint_example =
    bump-disjoint 1000 100 (omega arith) (omega arith) runs.0 {s = two_state} two_state-Reach []
      second (first ∷ []) refl

one-IsBump : IsBump one (first ∷ [])
unfolding count_at within
one-IsBump = record {
  nonnull = omega arith;
  below = omega arith;
  bounded = omega arith;
  counted = refl;
  few = omega arith;
  served = (record { nonnull = omega arith; pos = omega arith; aligned = refl }, tt);
  disjoint = λ x. ground arith;
}

alloc-bumped_example : alloc one wide ≡ (
    if leb (round_up 1010 32 + 32) 1100
    then ok (round_up 1010 32, bumped one wide)
    else ok (null, one))
alloc-bumped_example = alloc-bumped one-IsBump wide wide-IsRequest

dealloc-released_example :
    (dealloc one 1000 small ≡ ok (released one))
    × ((released one).next ≡ (if length {A = Allocation} [] == 0 then 1000 else 1010))
dealloc-released_example = dealloc-released one [] first [] one-IsBump 1000 small
