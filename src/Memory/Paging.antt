-- ===== src/Memory/Paging.antt =====
-- src/memory.rs: the mapper over the active page tables.
use taijios.Common.{ℕ, ◌+◌, ◌^◌, ◌<◌, ◌≡◌, refl, Outcome, ok, ◌>>=◌}

-- What the code uses of the crate x86_64: the physical address of the active level 4 table, which
-- `Cr3::read` gives, the sum of a `VirtAddr` and a number, which panics where it is no valid address,
-- and `OffsetPageTable::new` on the address of a table and an offset.
pub record Paging (Mapper : Type 0) : Type 0 where
  pub level_4_start : ℕ
  pub offset : ℕ → ℕ → Outcome ℕ
  pub new_mapper : ℕ → ℕ → Mapper
  pub offset_law : (addr n : ℕ) → addr + n < 2 ^ 47 → offset addr n ≡ ok (addr + n)

module _ {Mapper : Type 0} (P : Paging Mapper) where
  unfoldable pub active_level_4_table : ℕ → Outcome ℕ
  active_level_4_table physical_memory_offset = P.offset physical_memory_offset P.level_4_start

  unfoldable pub init : ℕ → Outcome Mapper
  init physical_memory_offset = do
    level_4_table ← active_level_4_table physical_memory_offset
    ok (P.new_mapper level_4_table physical_memory_offset)

  -- Where the table's address in the mapping of the physical memory lies in the lower half of the
  -- addresses, the mapper is made on it.
  pub init-mapper :
      (physical_memory_offset : ℕ)
      → physical_memory_offset + P.level_4_start < 2 ^ 47
      → init physical_memory_offset
        ≡ ok (P.new_mapper (physical_memory_offset + P.level_4_start) physical_memory_offset)
  unfolding init active_level_4_table
  init-mapper physical_memory_offset low =
      rw (P.offset_law physical_memory_offset P.level_4_start low) refl
