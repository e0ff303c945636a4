-- ===== src/Alloc/InitHeap/Enough.antt =====
-- `init_heap` succeeds where there are frames enough and no page of the heap is mapped before.
use taijios.Common.{ℕ, zero, suc, ◌+◌, ◌-◌, ◌*◌, ◌≤◌, ◌<◌, ◌≡◌, ◌∙◌, refl, ap, arith, some}
use taijios.Alloc.InitHeap.{
  done, failed, Platform, Mapping, first_page, last_page, map_page, and_then, map_pages, finish,
  init_heap,
}

-- What the crate's `map_to` and a frame allocator with `available` frames promise: a page that is
-- free is mapped with at most three frames for page tables, and other pages stay free.
pub record Supply (P : Platform) : Type 1 where
  pub available : P.Frames → ℕ
  pub IsFree : P.Mapper → ℕ → Type 0
  pub gives :
      (frames : P.Frames)
      → 0 < available frames
      → (frame : P.PhysFrame) × ((P.allocate_frame frames).0 ≡ some frame)
        × (available frames ≤ available (P.allocate_frame frames).1 + 1)
  pub maps_free :
      (mapper : P.Mapper) (page : ℕ) (frame : P.PhysFrame) (frames : P.Frames)
      → 3 ≤ available frames
      → IsFree mapper page
      → ((P.map_to mapper page frame P.present_writable frames).0 ≡ done)
        × (available frames
            ≤ available (P.map_to mapper page frame P.present_writable frames).2 + 3)
  pub keeps_free :
      (mapper : P.Mapper) (page : ℕ) (frame : P.PhysFrame) (frames : P.Frames) (other : ℕ)
      → page < other
      → IsFree mapper other
      → IsFree (P.map_to mapper page frame P.present_writable frames).1 other

module _ (P : Platform) (S : Supply P) where
  open P use {Mapper, Frames, Allocator, present_writable}
  open S use {available, IsFree}

  and_then-next :
      (r : Mapping P) (k : Mapper → Frames → Mapping P) → r.0 ≡ done → and_then P r k ≡ k r.1 r.2
  unfolding and_then
  and_then-next (done, mapper, frames) k h = refl
  and_then-next (failed error, mapper, frames) k h = absurd cc

  map_pages-done :
      (n page : ℕ) (mapper : Mapper) (frames : Frames)
      → n * 4 ≤ available frames
      → ((other : ℕ) → page ≤ other → IsFree mapper other)
      → (map_pages P n page mapper frames).0 ≡ done
  unfolding map_pages map_page
  map_pages-done zero page mapper frames h free = refl
  map_pages-done (suc n) page mapper frames h free =
      let (frame, given, left) = S.gives frames (omega arith) in
      let frames' = (P.allocate_frame frames).1 in
      let one = P.map_to mapper page frame present_writable frames' in
      let (fine, left') =
        S.maps_free mapper page frame frames' (omega (arith, left)) (free page (omega arith)) in
      let k = λ (m : Mapper) (f : Frames). map_pages P n (page + 1) m f in
      ap (λ o. (and_then P (map_page P mapper page o frames') k).0) given
      ∙ ap (λ (r : Mapping P). r.0) (and_then-next one k fine)
      ∙ map_pages-done n (page + 1) one.1 one.2 (omega (arith, left, left')) (λ other above.
        S.keeps_free mapper page frame frames' other (omega arith) (free other (omega arith)))

  finish-done :
      (r : Mapping P) (allocator : Allocator) → r.0 ≡ done → (finish P r allocator).0 ≡ done
  unfolding finish
  finish-done (done, mapper, frames) allocator h = refl
  finish-done (failed error, mapper, frames) allocator h = absurd cc

  -- With a hundred frames, and no page of the heap or above it mapped before, `init_heap` succeeds.
  pub init_heap-done :
      (mapper : Mapper) (frames : Frames) (allocator : Allocator)
      → 100 ≤ available frames
      → ((other : ℕ) → first_page ≤ other → IsFree mapper other)
      → (init_heap P mapper frames allocator).0 ≡ done
  unfolding init_heap
  init_heap-done mapper frames allocator enough free =
      finish-done (map_pages P (last_page + 1 - first_page) first_page mapper frames) allocator
        (map_pages-done (last_page + 1 - first_page) first_page mapper frames (omega arith) free)
