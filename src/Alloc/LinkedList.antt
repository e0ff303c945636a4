-- ===== src/Alloc/LinkedList.antt =====
-- src/allocator/linked_list.rs: first-fit allocation from a linked list of free regions.
-- A node is written at the start of the region that it describes, so a node is its address, its
-- size and what it owns: `Option<&'static mut ListNode>`, the rest of the chain, is the list behind it.
pub mod Request
pub mod Region
pub mod Search
pub mod Invariant
pub mod Carve
pub mod Serve
pub mod Answer
pub mod Release
pub mod Global
pub mod Safety
mod Tests
pub mod Waste
use Prim.Native.Nat.{max}
use taijios.Common.{
  ℕ, ◌+◌, ◌≤◌, ◌<◌, Bool, ◌&&◌, Option, none, some, List, [], ◌∷◌, leb, ltb, ◌==◌, if◌then◌else◌,
  Outcome, ok, ◌>>=◌, ◌>>◌, assert, expect, add_usize, sub_usize, checked_add,
}
use taijios.Alloc.{Layout, null, align_up, align_to, pad_to_align}
use taijios.Alloc.Block.{Block, block}

-- `mem::size_of::<ListNode>()` and `mem::align_of::<ListNode>()`: a `usize` and a pointer
abbrev pub node_size : ℕ
node_size = 16

abbrev pub node_align : ℕ
node_align = 8

abbrev pub ListNode : Type 0
ListNode = Block

unfoldable pub start_addr : ListNode → ℕ
start_addr node = node.addr

unfoldable pub end_addr : ListNode → Outcome ℕ
end_addr node = add_usize (start_addr node) node.size

-- `head` is a node of size 0 outside the heap; only its `next` is used.
pub record LinkedListAllocator : Type 0 where
  pub next : List ListNode

unfoldable pub new : LinkedListAllocator
new = record { next = [] }

unfoldable pub add_free_region : LinkedListAllocator → ℕ → ℕ → Outcome LinkedListAllocator
add_free_region self addr size = do
  aligned ← align_up addr node_align
  assert (aligned == addr)
  assert (leb node_size size)
  ok (record { next = block addr size ∷ self.next })

unfoldable pub init : LinkedListAllocator → ℕ → ℕ → Outcome LinkedListAllocator
init self heap_start heap_size = add_free_region self heap_start heap_size

-- What is left of a region behind the allocation must be empty or hold a node.
unfoldable pub excess_fits : ℕ → Bool
excess_fits excess_size =
    if ltb 0 excess_size && ltb excess_size node_size then Bool.false else Bool.true

unfoldable pub alloc_from_region : ListNode → ℕ → ℕ → Outcome (Option ℕ)
alloc_from_region region size align = do
  alloc_start ← align_up (start_addr region) align
  elim (checked_add alloc_start size) [
    | none ↦ ok none
    | some alloc_end ↦ do
      region_end ← end_addr region
      if ltb region_end alloc_end then ok none else do
        excess_size ← sub_usize region_end alloc_end
        ok (if excess_fits excess_size then some alloc_start else none)
  ]

abbrev pub Found : Type 0
Found = Option (ListNode × ℕ) × List ListNode

-- The walk along `current.next`: the region found is unlinked, the nodes before it stay.
unfoldable pub find_from : List ListNode → ℕ → ℕ → Outcome Found
find_from [] size align = ok (none, [])
find_from (region ∷ next) size align = do
  fit ← alloc_from_region region size align
  elim fit [
    | some alloc_start ↦ ok (some (region, alloc_start), next)
    | none ↦ do found ← find_from next size align; ok (found.0, region ∷ found.1)
  ]

unfoldable pub find_region :
    LinkedListAllocator → ℕ → ℕ → Outcome (Option (ListNode × ℕ) × LinkedListAllocator)
find_region self size align = do
  found ← find_from self.next size align
  ok (found.0, record { next = found.1 })

unfoldable pub size_align : Layout → Outcome (ℕ × ℕ)
size_align layout = do
  aligned ← expect (align_to layout node_align)
  let padded = pad_to_align aligned
  ok (max padded.size node_size, padded.align)

-- The part of `alloc` behind a successful search: what is left of the region is added again.
unfoldable pub allocate_in :
    LinkedListAllocator → ListNode → ℕ → ℕ → Outcome (ℕ × LinkedListAllocator)
allocate_in self region alloc_start size = do
  alloc_end ← expect (checked_add alloc_start size)
  region_end ← end_addr region
  excess_size ← sub_usize region_end alloc_end
  left ← if ltb 0 excess_size then add_free_region self alloc_end excess_size else ok self
  ok (alloc_start, left)

unfoldable pub alloc : LinkedListAllocator → Layout → Outcome (ℕ × LinkedListAllocator)
alloc self layout = do
  (size, align) ← size_align layout
  (found, rest) ← find_region self size align
  elim found [
    | none ↦ ok (null, rest)
    | some (region, alloc_start) ↦ allocate_in rest region alloc_start size
  ]

unfoldable pub dealloc : LinkedListAllocator → ℕ → Layout → Outcome LinkedListAllocator
dealloc self ptr layout = do (size, align) ← size_align layout; add_free_region self ptr size
