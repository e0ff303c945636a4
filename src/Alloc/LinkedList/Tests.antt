-- ===== src/Alloc/LinkedList/Tests.antt =====
-- The linked-list allocator on an arena of 128 bytes, and the theorems at its states.
use Prim.Native.Nat.{max}
use taijios.Common.{
  ◌⊎◌, panic, ◌+◌, ◌%◌, ◌^◌, ◌≤◌, ◌<◌, ◌≡◌, refl, arith, ok, ◌>>=◌, [], ◌∷◌, add_usize, sub_usize,
  checked_add, ◌-◌,
}
use mathlib.Core.List.{Mem}
use taijios.Alloc.{Layout, IsLayout, align_up, from_size_align, align_to, round_up, pad_to_align}
use taijios.Alloc.Block.{Block, block, count_at, within, total_size}
use taijios.Alloc.Client.{Allocation, State, Reach, start, later, take}
use taijios.Alloc.LinkedList.{
  LinkedListAllocator, new, init, alloc, dealloc, add_free_region, find_from, find_region,
  allocate_in, alloc_from_region, size_align, start_addr, end_addr, excess_fits, Found,
}
use taijios.Alloc.LinkedList.Request.{IsRequest, block_align}
use taijios.Alloc.LinkedList.Invariant.{IsHeap, block_of}
use taijios.Alloc.LinkedList.Search.{FirstFit, find_from-FirstFit}
use taijios.Alloc.LinkedList.Serve.{Allocated}
use taijios.Alloc.LinkedList.Answer.{alloc_complete}
use taijios.Alloc.LinkedList.Release.{dealloc-IsHeap, dealloc-alloc}
use taijios.Alloc.LinkedList.Waste.{alloc-dealloc-bytes}
use taijios.Alloc.LinkedList.Global.{IsArena, linked_list}
use taijios.Alloc.LinkedList.Safety.{linked_list-disjoint, linked_list-Inside}

abbrev small : Layout
small = record { size = 10; align = 4 }

abbrev wide : Layout
wide = record { size = 32; align = 32 }

abbrev ready : LinkedListAllocator
ready = record { next = block 4096 128 ∷ [] }

abbrev one : LinkedListAllocator
one = record { next = block 4112 112 ∷ [] }

abbrev two : LinkedListAllocator
two = record { next = block 4160 64 ∷ [] }

-- 16 bytes in front of the aligned block are lost: 64 bytes of 112 remain, with 32 handed out.
runs :
    (init new 4096 128 ≡ ok ready)
    × (alloc ready small ≡ ok (4096, one))
    × (alloc one wide ≡ ok (4128, two))
    × (dealloc two 4128 wide ≡ ok (record { next = block 4128 32 ∷ block 4160 64 ∷ [] }))
unfolding init new add_free_region alloc dealloc find_region find_from allocate_in alloc_from_region
    size_align start_addr end_addr excess_fits align_up from_size_align align_to round_up
    pad_to_align add_usize sub_usize checked_add
runs = (refl, refl, refl, refl)

abbrev arena : IsArena 4096 128
arena = record {
  nonnull = omega arith;
  aligned = omega arith;
  holds = omega arith;
  bounded = omega arith;
}

abbrev small-IsRequest : IsRequest small
small-IsRequest = record {
  pos = omega arith;
  log = 2;
  log_lt = omega arith;
  pow = refl;
  fits = omega arith;
}

abbrev wide-IsRequest : IsRequest wide
wide-IsRequest = record {
  pos = omega arith;
  log = 5;
  log_lt = omega arith;
  pow = refl;
  fits = omega arith;
}

abbrev first : Allocation
first = record { ptr = 4096; layout = small }

abbrev second : Allocation
second = record { ptr = 4128; layout = wide }

abbrev fresh_state : State linked_list
fresh_state = record { allocator = ready; live = [] }

abbrev one_state : State linked_list
one_state = record { allocator = one; live = first ∷ [] }

abbrev two_state : State linked_list
two_state = record { allocator = two; live = second ∷ first ∷ [] }

one_state-Reach : Reach linked_list ready one_state
one_state-Reach =
    later {s = fresh_state} (start refl refl)
      (take small 4096 small-IsRequest runs.1 (omega arith) refl)

two_state-Reach : Reach linked_list ready two_state
two_state-Reach =
    later {s = one_state} one_state-Reach (take wide 4128 wide-IsRequest runs.2 (omega arith) refl)

linked_list-disjoint_example : ¬ ((4096 ≤ 4130) × (4130 < 4096 + 10))
linked_list-disjoint_example =
    linked_list-disjoint arena runs.0 {s = two_state} two_state-Reach [] second [] first [] refl
      4130 (omega arith) (omega arith)

linked_list-Inside_example : (4096 ≤ 4128) × (4128 + 32 ≤ 4096 + 128) × (4128 % 32 ≡ 0)
linked_list-Inside_example =
    linked_list-Inside arena runs.0 {s = two_state} two_state-Reach [] second (first ∷ []) refl

two-IsHeap : IsHeap 4096 4224 two (second ∷ first ∷ [])
unfolding count_at within round_up
two-IsHeap = record {
  nonnull = omega arith;
  bounded = omega arith;
  disjoint = λ x. ground arith;
  nodes = (record { aligned = refl; holds = omega arith }, tt);
  served = (
    record { request = wide-IsRequest; nonnull = omega arith; aligned = refl },
    (record { request = small-IsRequest; nonnull = omega arith; aligned = refl }, tt),
  );
}

one-IsHeap : IsHeap 4096 4224 one (first ∷ [])
unfolding count_at within round_up
one-IsHeap = record {
  nonnull = omega arith;
  bounded = omega arith;
  disjoint = λ x. ground arith;
  nodes = (record { aligned = refl; holds = omega arith }, tt);
  served = (record { request = small-IsRequest; nonnull = omega arith; aligned = refl }, tt);
}

wide-IsLayout : IsLayout wide
wide-IsLayout = record { log = 5; log_lt = omega arith; pow = refl; fits = omega arith }

alloc_complete_example :
    ((2 ^ 63 < 32 + max 32 8) × (alloc one wide ≡ panic))
    ⊎ ((32 + max 32 8 ≤ 2 ^ 63) × Allocated 4096 4224 one (first ∷ []) wide)
alloc_complete_example = alloc_complete one-IsHeap wide wide-IsLayout (omega arith)

-- The greatest size at an alignment of 1 is that of a layout, and panics.
abbrev greatest : Layout
greatest = record { size = 2 ^ 63 - 1; align = 1 }

greatest-IsLayout : IsLayout greatest
greatest-IsLayout = record { log = 0; log_lt = omega arith; pow = refl; fits = omega arith }

greatest_panics : alloc ready greatest ≡ panic
unfolding alloc size_align align_to from_size_align
greatest_panics = refl

dealloc-IsHeap_example :
    (after : LinkedListAllocator) × (dealloc two 4128 wide ≡ ok after)
    × (after.next ≡ block_of second ∷ two.next)
    × IsHeap 4096 4224 after (first ∷ [])
dealloc-IsHeap_example = dealloc-IsHeap two [] second (first ∷ []) two-IsHeap

dealloc-alloc_example : (dealloc two 4128 wide >>= λ after. alloc after wide) ≡ ok (4128, two)
dealloc-alloc_example = dealloc-alloc two [] second (first ∷ []) two-IsHeap

find_from-FirstFit_example :
    (found : Found) × (find_from (block 4096 16 ∷ block 4160 64 ∷ []) 32 (2 ^ 5) ≡ ok found)
    × FirstFit 32 (2 ^ 5) (block 4096 16 ∷ block 4160 64 ∷ []) found
find_from-FirstFit_example =
    find_from-FirstFit 32 5 (omega arith) (block 4096 16 ∷ block 4160 64 ∷ [])
      ((omega arith, omega arith), ((omega arith, omega arith), tt))

alloc-dealloc-bytes_example :
    (region : Block) × Mem region one.next
    × (4128 ≡ round_up region.addr (block_align wide))
    × (total_size (block 4128 32 ∷ block 4160 64 ∷ []) + (4128 - region.addr) ≡ total_size one.next)
alloc-dealloc-bytes_example =
    alloc-dealloc-bytes one (first ∷ []) wide 4128 two
      (record { next = block 4128 32 ∷ block 4160 64 ∷ [] }) one-IsHeap wide-IsRequest runs.2
      (omega arith) runs.3
