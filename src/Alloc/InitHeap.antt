-- ===== src/Alloc/InitHeap.antt =====
-- `init_heap` of src/allocator.rs: the pages of the heap are mapped, then the allocator gets it.
pub mod Mapped
pub mod Enough
pub mod Tests
use taijios.Common.{
  ℕ, zero, suc, ◌+◌, ◌-◌, ◌/◌, ◌≤◌, ◌<◌, ◌≡◌, ◌≢◌, ◌⊎◌, ◌∙◌, refl, sym, inl, inr, ap, arith, Option,
  none, some,
}
use mathlib.Core.Path.{subst}
use native.Mathlib.Decide.{dec_lt}
use taijios.Alloc.{heap_start, heap_size}

pub data Result (E : Type 0) : Type 0 where
  done : Result E
  failed : E → Result E

-- What `init_heap` uses of the crate x86_64, of its frame allocator and of the allocator: a page is
-- its number. `map_to` changes the mapper and may take frames; where it succeeds the page is mapped
-- with the flags, and what was mapped stays so.
pub record Platform : Type 1 where
  pub Mapper : Type 0
  pub Frames : Type 0
  pub PhysFrame : Type 0
  pub Flags : Type 0
  pub MapToError : Type 0
  pub Allocator : Type 0
  pub frame_allocation_failed : MapToError
  pub present_writable : Flags
  pub allocate_frame : Frames → Option PhysFrame × Frames
  pub map_to : Mapper → ℕ → PhysFrame → Flags → Frames → Result MapToError × Mapper × Frames
  pub allocator_init : Allocator → ℕ → ℕ → Allocator
  pub IsMapped : Mapper → ℕ → Flags → Type 0
  pub maps :
      (mapper : Mapper) (page : ℕ) (frame : PhysFrame) (flags : Flags) (frames : Frames)
      → (map_to mapper page frame flags frames).0 ≡ done
      → IsMapped (map_to mapper page frame flags frames).1 page flags
  pub keeps :
      (mapper : Mapper) (page : ℕ) (frame : PhysFrame) (flags : Flags) (frames : Frames) (other : ℕ)
      → (map_to mapper page frame flags frames).0 ≡ done
      → IsMapped mapper other flags
      → IsMapped (map_to mapper page frame flags frames).1 other flags

-- the pages of `Page::range_inclusive`
abbrev pub first_page : ℕ
first_page = heap_start / 4096

abbrev pub last_page : ℕ
last_page = (heap_start + heap_size - 1) / 4096

module _ (P : Platform) where
  open P use {Mapper, Frames, MapToError, Allocator, IsMapped, present_writable}

  abbrev pub Mapping : Type 0
  Mapping = Result MapToError × Mapper × Frames

  -- the body of the loop, on the frame that was allocated
  unfoldable pub map_page : Mapper → ℕ → Option P.PhysFrame → Frames → Mapping
  map_page mapper page none frames = (failed P.frame_allocation_failed, mapper, frames)
  map_page mapper page (some frame) frames = P.map_to mapper page frame present_writable frames

  -- The operator `?`: what follows runs only behind a success.
  unfoldable pub and_then : Mapping → (Mapper → Frames → Mapping) → Mapping
  and_then (done, mapper, frames) k = k mapper frames
  and_then (failed error, mapper, frames) k = (failed error, mapper, frames)

  -- the loop over `n` pages from `page` on
  unfoldable pub map_pages : ℕ → ℕ → Mapper → Frames → Mapping
  map_pages zero page mapper frames = (done, mapper, frames)
  map_pages (suc n) page mapper frames =
      let (frame, frames') = P.allocate_frame frames in
      and_then (map_page mapper page frame frames') (λ m f. map_pages n (page + 1) m f)

  -- The allocator is told about the heap once the pages are mapped.
  unfoldable pub finish : Mapping → Allocator → Result MapToError × Mapper × Frames × Allocator
  finish (done, mapper, frames) allocator =
      (done, mapper, frames, P.allocator_init allocator heap_start heap_size)
  finish (failed error, mapper, frames) allocator = (failed error, mapper, frames, allocator)

  unfoldable pub init_heap :
      Mapper → Frames → Allocator → Result MapToError × Mapper × Frames × Allocator
  init_heap mapper frames allocator =
      finish (map_pages (last_page + 1 - first_page) first_page mapper frames) allocator
