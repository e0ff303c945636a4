-- ===== src/Alloc/Bump.antt =====
-- src/allocator/bump.rs: allocation by moving one pointer up, and a counter of live blocks.
pub mod Invariant
pub mod Global
pub mod Safety
mod Tests
use taijios.Common.{
  ℕ, Option, none, some, ltb, ◌==◌, if◌then◌else◌, Outcome, ok, ◌>>=◌, add_usize, sub_usize,
  checked_add,
}
use taijios.Alloc.{Layout, null, align_up}

pub record BumpAllocator : Type 0 where
  pub heap_start : ℕ
  pub heap_end : ℕ
  pub next : ℕ
  pub allocations : ℕ

unfoldable pub new : BumpAllocator
new = record { heap_start = 0; heap_end = 0; next = 0; allocations = 0 }

unfoldable pub init : BumpAllocator → ℕ → ℕ → Outcome BumpAllocator
init self heap_start heap_size = do
  heap_end ← add_usize heap_start heap_size
  ok (record self { heap_start = heap_start; heap_end = heap_end; next = heap_start })

unfoldable pub alloc : BumpAllocator → Layout → Outcome (ℕ × BumpAllocator)
alloc self layout = do
  alloc_start ← align_up self.next layout.align
  elim (checked_add alloc_start layout.size) [
    | none ↦ ok (null, self)
    | some alloc_end ↦ if ltb self.heap_end alloc_end then ok (null, self) else do
      allocations ← add_usize self.allocations 1
      ok (alloc_start, record self { next = alloc_end; allocations = allocations })
  ]

unfoldable pub dealloc : BumpAllocator → ℕ → Layout → Outcome BumpAllocator
dealloc self ptr layout = do
  allocations ← sub_usize self.allocations 1
  ok (
      if allocations == 0
      then record self { allocations = allocations; next = self.heap_start }
      else record self { allocations = allocations })
