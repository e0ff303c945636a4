-- ===== src/Alloc/FixedSize.antt =====
-- src/allocator/fixed_size_block.rs: lists of free blocks of nine sizes, over a fallback heap.
-- A chain of nodes, each written at the start of the free block that it stands for, is the list of
-- the blocks' addresses.
pub mod Classes
pub mod Contract
pub mod Lists
pub mod Invariant
pub mod Serve
pub mod Answer
pub mod Release
pub mod Global
pub mod Safety
pub mod Fallback
mod Tests
use Prim.Native.Nat.{max}
use taijios.Common.{
  ℕ, zero, suc, ◌^◌, Bool, Option, none, some, List, [], ◌∷◌, leb, ltb, if◌then◌else◌, Outcome, ok,
  ◌>>=◌, ◌>>◌, assert, expect, get_elem?, set, replicate, length,
}
use taijios.Alloc.{Layout, null, from_size_align}

-- What the code uses of `linked_list_allocator::Heap`. `allocate_first_fit` yields a pointer that is
-- not null, or an error.
pub record Heap : Type 1 where
  pub State : Type 0
  pub empty : State
  pub init : State → ℕ → ℕ → Outcome State
  pub allocate_first_fit : State → Layout → Outcome (Option ℕ × State)
  pub deallocate : State → ℕ → Layout → Outcome State

abbrev pub block_sizes : List ℕ
block_sizes = 8 ∷ 16 ∷ 32 ∷ 64 ∷ 128 ∷ 256 ∷ 512 ∷ 1024 ∷ 2048 ∷ []

-- `Iterator::position`
unfoldable pub position : (ℕ → Bool) → List ℕ → Option ℕ
position p [] = none
position p (x ∷ xs) =
    let rest = position p xs in
    if p x then some 0 else elim rest [ none ↦ none | some i ↦ some (suc i) ]

unfoldable pub list_index : Layout → Option ℕ
list_index layout =
    let required_block_size = max layout.size layout.align in
    position (λ s. leb required_block_size s) block_sizes

-- `mem::size_of::<ListNode>()` and `mem::align_of::<ListNode>()`: one pointer
abbrev pub node_size : ℕ
node_size = 8

abbrev pub node_align : ℕ
node_align = 8

module _ (H : Heap) where
  pub record FixedSizeBlockAllocator : Type 0 where
    pub list_heads : List (List ℕ)
    pub fallback_allocator : H.State

  unfoldable pub new : FixedSizeBlockAllocator
  new = record { list_heads = replicate (length block_sizes) []; fallback_allocator = H.empty }

  unfoldable pub init : FixedSizeBlockAllocator → ℕ → ℕ → Outcome FixedSizeBlockAllocator
  init self heap_start heap_size = do
    heap ← H.init self.fallback_allocator heap_start heap_size
    ok (record self { fallback_allocator = heap })

  -- an error is a null pointer
  abbrev pub or_null : Option ℕ → ℕ
  or_null none = null
  or_null (some ptr) = ptr

  unfoldable pub fallback_alloc :
      FixedSizeBlockAllocator → Layout → Outcome (ℕ × FixedSizeBlockAllocator)
  fallback_alloc self layout = do
    (result, heap) ← H.allocate_first_fit self.fallback_allocator layout
    ok (or_null result, record self { fallback_allocator = heap })

  -- The arm of `alloc` for a block size: the first block of its list, or a new block.
  unfoldable pub alloc_block :
      FixedSizeBlockAllocator → ℕ → List ℕ → Outcome (ℕ × FixedSizeBlockAllocator)
  alloc_block self index (node ∷ next) =
      ok (node, record self { list_heads = set self.list_heads index next })
  alloc_block self index [] = do
    block_size ← expect (get_elem? block_sizes index)
    let block_align = block_size
    layout ← expect (from_size_align block_size block_align)
    fallback_alloc self layout

  unfoldable pub alloc : FixedSizeBlockAllocator → Layout → Outcome (ℕ × FixedSizeBlockAllocator)
  alloc self layout = elim (list_index layout) [
    | some index ↦ do head ← expect (get_elem? self.list_heads index); alloc_block self index head
    | none ↦ fallback_alloc self layout
  ]

  unfoldable pub dealloc : FixedSizeBlockAllocator → ℕ → Layout → Outcome FixedSizeBlockAllocator
  dealloc self ptr layout = elim (list_index layout) [
    | some index ↦ do
      next ← expect (get_elem? self.list_heads index)
      block_size ← expect (get_elem? block_sizes index)
      assert (leb node_size block_size)
      assert (leb node_align block_size)
      ok (record self { list_heads = set self.list_heads index (ptr ∷ next) })
    | none ↦ do
      assert (ltb 0 ptr)
      heap ← H.deallocate self.fallback_allocator ptr layout
      ok (record self { fallback_allocator = heap })
  ]
