-- ===== src/Alloc/FixedSize/Tests.antt =====
-- The fixed-size allocator over the linked-list allocator on 8192 bytes, and the theorems there.
use Prim.Native.Nat.{max}
use taijios.Common.{
  ℕ, ◌+◌, ◌*◌, ◌%◌, ◌^◌, ◌≤◌, ◌<◌, ◌≡◌, ◌⊎◌, refl, arith, ok, none, some, ◌>>=◌, List, [], ◌∷◌,
  add_usize, sub_usize, checked_add,
}
use taijios.Alloc.{Layout, IsLayout, align_up, from_size_align, align_to, round_up, pad_to_align}
use taijios.Alloc.Block.{block}
use taijios.Alloc.Client.{Allocation, State, Reach, start, later, take, Reach-Holds}
use taijios.Alloc.LinkedList.{
  LinkedListAllocator, add_free_region, find_from, find_region, allocate_in, alloc_from_region,
  size_align, start_addr, end_addr, excess_fits,
}
use taijios.Alloc.LinkedList
use taijios.Alloc.LinkedList.Request.{IsRequest}
use taijios.Alloc.LinkedList.Global.{IsArena}
use taijios.Alloc.FixedSize.{
  FixedSizeBlockAllocator, new, init, list_index, position, alloc, alloc_block, fallback_alloc,
  dealloc,
}
use taijios.Alloc.FixedSize.Classes.{IsClass, list_index_fit}
use taijios.Alloc.FixedSize.Invariant.{IsFixedSize}
use taijios.Alloc.FixedSize.Serve.{Served}
use taijios.Alloc.FixedSize.Answer.{alloc-Served_or_fallback}
use taijios.Alloc.FixedSize.Release.{dealloc-IsFixedSize, dealloc-alloc_class}
use taijios.Alloc.FixedSize.Global.{init-IsFixedSize, fixed_size}
use taijios.Alloc.FixedSize.Safety.{fresh, fixed_size-disjoint, fixed_size-Inside}
use taijios.Alloc.FixedSize.Fallback.{linked_heap, linked_contract}

abbrev small : Layout
small = record { size = 10; align = 4 }

abbrev large : Layout
large = record { size = 3000; align = 8 }

abbrev nothing_free : List (List ℕ)
nothing_free = [] ∷ [] ∷ [] ∷ [] ∷ [] ∷ [] ∷ [] ∷ [] ∷ [] ∷ []

abbrev at_region : ℕ → ℕ → FixedSizeBlockAllocator linked_heap
at_region addr size = record {
  list_heads = nothing_free;
  fallback_allocator = record { next = block addr size ∷ [] };
}

abbrev ready : FixedSizeBlockAllocator linked_heap
ready = at_region 4096 8192

abbrev one : FixedSizeBlockAllocator linked_heap
one = at_region 4112 8176

abbrev two : FixedSizeBlockAllocator linked_heap
two = at_region 7112 5176

-- A small request takes a block of 16 bytes, a large one goes to the fallback heap, and a block of
-- 16 bytes that comes back is the first of its list.
runs :
    (init linked_heap (new linked_heap) 4096 8192 ≡ ok ready)
    × (alloc linked_heap ready small ≡ ok (4096, one))
    × (alloc linked_heap one large ≡ ok (4112, two))
    × (dealloc linked_heap two 4096 small
        ≡ ok (record two {
          list_heads = [] ∷ ((4096 ∷ []) ∷ ([] ∷ [] ∷ [] ∷ [] ∷ [] ∷ [] ∷ [] ∷ []));
        }))
unfolding init new alloc dealloc alloc_block fallback_alloc list_index position LinkedList.init
    LinkedList.new LinkedList.alloc add_free_region find_region find_from allocate_in
    alloc_from_region size_align start_addr end_addr excess_fits align_up from_size_align align_to
    round_up pad_to_align add_usize sub_usize checked_add
runs = (refl, refl, refl, refl)

indices :
    (list_index small ≡ some 1)
    × (list_index large ≡ none)
    × (list_index (record { size = 1; align = 2048 }) ≡ some 8)
    × (list_index (record { size = 2049; align = 1 }) ≡ none)
unfolding list_index position
indices = (refl, refl, refl, refl)

arena : IsArena 4096 8192
arena = record {
  nonnull = omega arith;
  aligned = omega arith;
  holds = omega arith;
  bounded = omega arith;
}

small-IsRequest : IsRequest small
small-IsRequest = record {
  pos = omega arith;
  log = 2;
  log_lt = omega arith;
  pow = refl;
  fits = omega arith;
}

large-IsRequest : IsRequest large
large-IsRequest = record {
  pos = omega arith;
  log = 3;
  log_lt = omega arith;
  pow = refl;
  fits = omega arith;
}

abbrev first : Allocation
first = record { ptr = 4096; layout = small }

abbrev second : Allocation
second = record { ptr = 4112; layout = large }

abbrev fresh_state : State (fixed_size linked_heap linked_contract)
fresh_state = record { allocator = ready; live = [] }

abbrev one_state : State (fixed_size linked_heap linked_contract)
one_state = record { allocator = one; live = first ∷ [] }

abbrev two_state : State (fixed_size linked_heap linked_contract)
two_state = record { allocator = two; live = second ∷ first ∷ [] }

one_state-Reach : Reach (fixed_size linked_heap linked_contract) ready one_state
one_state-Reach =
    later {s = fresh_state} (start refl refl)
      (take small 4096 small-IsRequest runs.1 (omega arith) refl)

two_state-Reach : Reach (fixed_size linked_heap linked_contract) ready two_state
two_state-Reach =
    later {s = one_state} one_state-Reach
      (take large 4112 large-IsRequest runs.2 (omega arith) refl)

fixed_size-disjoint_example : ¬ ((4096 ≤ 4130) × (4130 < 4096 + 10))
fixed_size-disjoint_example =
    fixed_size-disjoint linked_heap linked_contract arena runs.0 {s = two_state} two_state-Reach []
      second [] first [] refl 4130 (omega arith) (omega arith)

fixed_size-Inside_example : (4096 ≤ 4112) × (4112 + 3000 ≤ 4096 + 8192) × (4112 % 8 ≡ 0)
fixed_size-Inside_example =
    fixed_size-Inside linked_heap linked_contract arena runs.0 {s = two_state} two_state-Reach []
      second (first ∷ []) refl

list_index_fit_example :
    ((i : ℕ) × (list_index small ≡ some i)
      × IsClass small i
      × ((i ≡ 0) ⊎ (2 ^ (i + 3) < 2 * max 10 4)))
    ⊎ ((list_index small ≡ none) × (2048 < max 10 4))
list_index_fit_example = list_index_fit small

begun :
    (self : FixedSizeBlockAllocator linked_heap) × (init linked_heap (new linked_heap) 4096 8192
      ≡ ok self)
    × IsFixedSize linked_heap linked_contract 4096 (4096 + 8192) self []
begun = init-IsFixedSize linked_heap linked_contract 4096 8192 arena

small-IsLayout : IsLayout small
small-IsLayout = record { log = 2; log_lt = omega arith; pow = refl; fits = omega arith }

alloc-Served_or_fallback_example :
    ((10 + max 4 8 ≤ 2 ^ 63)
      × Served linked_heap linked_contract 4096 (4096 + 8192) begun.0 small [])
    ⊎ ((2 ^ 63 < 10 + max 4 8)
        × (list_index small ≡ none)
        × (alloc linked_heap begun.0 small ≡ fallback_alloc linked_heap begun.0 small))
alloc-Served_or_fallback_example =
    alloc-Served_or_fallback linked_heap linked_contract begun.0 [] begun.2 small small-IsLayout
      (omega arith)

dealloc-alloc_class_example :
    (dealloc linked_heap begun.0 4096 small >>= λ after. alloc linked_heap after small)
    ≡ ok (4096, begun.0)
dealloc-alloc_class_example =
    dealloc-alloc_class linked_heap linked_contract begun.0 [] small small 4096 1 begun.2 indices.0
      indices.0

-- The state behind the first request, as the client reaches it.
held : IsFixedSize linked_heap linked_contract 4096 (4096 + 8192) one (first ∷ [])
held =
    Reach-Holds (fixed_size linked_heap linked_contract)
      (fresh linked_heap linked_contract arena runs.0) one_state-Reach

dealloc-IsFixedSize_example :
    (after : FixedSizeBlockAllocator linked_heap) × (dealloc linked_heap one 4096 small ≡ ok after)
    × IsFixedSize linked_heap linked_contract 4096 (4096 + 8192) after []
dealloc-IsFixedSize_example = dealloc-IsFixedSize linked_heap linked_contract one [] first [] held
