-- ===== src/Memory/Tests.antt =====
-- A machine whose frames are their numbers, with a map of two usable regions and a reserved one.
use taijios.Common.{
  ℕ, ◌*◌, ◌/◌, ◌^◌, ◌≤◌, ◌<◌, ◌≡◌, ◌≢◌, ◌↔◌, refl, arith, Bool, true, false, Option, none, some,
  List, [], ◌∷◌, Outcome, ok, panic, ltb, if◌then◌else◌, add_usize,
}
use taijios.Alloc.Block.{within}
use taijios.Memory.{
  Machine, BootInfoFrameAllocator, init, steps, step_by, frame_addresses, nth_frame, usable_frame,
  allocate_frame,
}
use taijios.Memory.Pages.{total_pages, nth_page}
use taijios.Memory.Frames.{IsMap, coverage}
use taijios.Memory.Allocate.{starts, advanced, Calls, allocate_frame-next, allocate_frame-fresh}

pub record Region : Type 0 where
  usable : Bool
  first : ℕ
  last : ℕ

-- a frame by number
abbrev frame_of : ℕ → Outcome ℕ
frame_of addr = if ltb addr (2 ^ 52) then ok (addr / 4096) else panic

pub frame_of-contained :
    (addr : ℕ)
    → addr < 2 ^ 52
    → (frame : ℕ) × (frame_of addr ≡ ok frame) × (frame * 4096 ≡ addr / 4096 * 4096)
frame_of-contained addr small = (addr / 4096, ground arith, refl)

abbrev pub plain : Machine
plain = record {
  MemoryRegion = Region;
  is_usable = λ r. r.usable;
  start_addr = λ r. r.first * 4096;
  end_addr = λ r. r.last * 4096;
  PhysFrame = ℕ;
  start_address = λ n. n * 4096;
  containing_address = frame_of;
  contained = frame_of-contained;
}

abbrev pub regions : List Region
regions =
    (record { usable = true; first = 1; last = 3 })
    ∷ ((record { usable = false; first = 3; last = 5 })
        ∷ ((record { usable = true; first = 5; last = 6 }) ∷ []))

abbrev at_call : ℕ → BootInfoFrameAllocator plain
at_call n = record { memory_map = regions; next = n }

-- Frames 1, 2 and 5, and no more.
runs :
    (init plain regions ≡ at_call 0)
    × (allocate_frame plain (at_call 0) ≡ ok (some 1, at_call 1))
    × (allocate_frame plain (at_call 1) ≡ ok (some 2, at_call 2))
    × (allocate_frame plain (at_call 2) ≡ ok (some 5, at_call 3))
    × (allocate_frame plain (at_call 3) ≡ ok (none, at_call 4))
unfolding init allocate_frame usable_frame nth_frame frame_addresses step_by steps add_usize
runs = (refl, refl, refl, refl, refl)

regions-IsMap : IsMap plain regions
unfolding coverage within
regions-IsMap = record {
  each = (
    λ u. record { start_aligned = omega arith; end_aligned = omega arith; bounded = omega arith },
    (
      λ u. record { start_aligned = omega arith; end_aligned = omega arith; bounded = omega arith },
      (
        λ u. record {
          start_aligned = omega arith;
          end_aligned = omega arith;
          bounded = omega arith;
        },
        tt,
      ),
    ),
  );
  disjoint = λ x. ground arith;
}

-- three whole pages: 4096, 8192 and 20480
pages_run :
    (total_pages plain regions ≡ 3)
    × (nth_page plain regions 1 ≡ some 8192)
    × (nth_page plain regions 2 ≡ some 20480)
    × (nth_page plain regions 3 ≡ none)
unfolding total_pages nth_page
pages_run = (refl, refl, refl, refl)

allocate_frame-next_example :
    (frame : Option ℕ) × (allocate_frame plain (at_call 2) ≡ ok (frame, advanced plain (at_call 2)))
    × (starts plain frame ≡ nth_page plain regions 2)
    × ((frame ≡ none) ↔ (total_pages plain regions ≤ 2))
allocate_frame-next_example = allocate_frame-next plain (at_call 2) regions-IsMap (omega arith)

allocate_frame-fresh_example : 1 * 4096 ≢ 5 * 4096
allocate_frame-fresh_example =
    allocate_frame-fresh plain (at_call 0) (at_call 1) (at_call 2) (at_call 3) 1 5 regions-IsMap
      runs.1 (Calls.call (some 2) runs.2 Calls.done) runs.3
