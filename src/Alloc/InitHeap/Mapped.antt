-- ===== src/Alloc/InitHeap/Mapped.antt =====
-- Behind a success of `init_heap` every page of the heap is mapped.
use mathlib.Core.Path.{subst}
use taijios.Common.{
  ℕ, zero, suc, ◌+◌, ◌-◌, ◌/◌, ◌≤◌, ◌<◌, ◌≡◌, ◌≢◌, ◌⊎◌, ◌∙◌, refl, sym, inl, inr, ap, arith, Option,
  none, some,
}
use native.Mathlib.Decide.{dec_lt}
use taijios.Alloc.{heap_start, heap_size}
use taijios.Alloc.InitHeap.{
  done, failed, Platform, Mapping, first_page, last_page, map_page, and_then, map_pages, finish,
  init_heap,
}

module _ (P : Platform) where
  open P use {Mapper, Frames, Allocator, IsMapped, present_writable}

  and_then-done :
      (r : Mapping P) (k : Mapper → Frames → Mapping P)
      → (and_then P r k).0 ≡ done
      → (r.0 ≡ done) × (and_then P r k ≡ k r.1 r.2)
  unfolding and_then
  and_then-done (done, mapper, frames) k h = (refl, refl)
  and_then-done (failed error, mapper, frames) k h = absurd cc

  map_page-maps :
      (mapper : Mapper) (page : ℕ) (frame : Option P.PhysFrame) (frames : Frames)
      → (map_page P mapper page frame frames).0 ≡ done
      → IsMapped (map_page P mapper page frame frames).1 page present_writable
  unfolding map_page
  map_page-maps mapper page none frames h = absurd cc
  map_page-maps mapper page (some frame) frames h =
      P.maps mapper page frame present_writable frames h

  map_page-keeps :
      (mapper : Mapper) (page : ℕ) (frame : Option P.PhysFrame) (frames : Frames) (other : ℕ)
      → (map_page P mapper page frame frames).0 ≡ done
      → IsMapped mapper other present_writable
      → IsMapped (map_page P mapper page frame frames).1 other present_writable
  unfolding map_page
  map_page-keeps mapper page none frames other h m = absurd cc
  map_page-keeps mapper page (some frame) frames other h m =
      P.keeps mapper page frame present_writable frames other h m

  map_pages-keeps :
      (n page : ℕ) (mapper : Mapper) (frames : Frames) (other : ℕ)
      → (map_pages P n page mapper frames).0 ≡ done
      → IsMapped mapper other present_writable
      → IsMapped (map_pages P n page mapper frames).1 other present_writable
  unfolding map_pages
  map_pages-keeps zero page mapper frames other h m = m
  map_pages-keeps (suc n) page mapper frames other h m =
      let given = P.allocate_frame frames in
      let one = map_page P mapper page given.0 given.1 in
      let (first, rest) = and_then-done one (λ m f. map_pages P n (page + 1) m f) h in
      subst (λ (r : Mapping P). IsMapped r.1 other present_writable) (sym rest)
        (map_pages-keeps n (page + 1) one.1 one.2 other (sym (ap (λ (r : Mapping P). r.0) rest) ∙ h)
          (map_page-keeps mapper page given.0 given.1 other first m))

  map_pages-maps :
      (n page : ℕ) (mapper : Mapper) (frames : Frames) (other : ℕ)
      → (map_pages P n page mapper frames).0 ≡ done
      → page ≤ other
      → other < page + n
      → IsMapped (map_pages P n page mapper frames).1 other present_writable
  unfolding map_pages
  map_pages-maps zero page mapper frames other h above below = absurd (omega arith)
  map_pages-maps (suc n) page mapper frames other h above below =
      let given = P.allocate_frame frames in
      let one = map_page P mapper page given.0 given.1 in
      let (first, rest) = and_then-done one (λ m f. map_pages P n (page + 1) m f) h in
      let h' : (map_pages P n (page + 1) one.1 one.2).0 ≡ done =
        sym (ap (λ (r : Mapping P). r.0) rest) ∙ h in
      subst (λ (r : Mapping P). IsMapped r.1 other present_writable) (sym rest)
        (elim (dec_lt page other) [
          | yes later ↦ map_pages-maps n (page + 1) one.1 one.2 other h' (omega arith) (omega arith)
          | no now ↦
              let here : page ≡ other = omega arith in
              map_pages-keeps n (page + 1) one.1 one.2 other h' (
                subst (λ p. IsMapped one.1 p present_writable) here
                  (map_page-maps mapper page given.0 given.1 first))
        ])

  finish_cases :
      (r : Mapping P) (allocator : Allocator)
      → ((finish P r allocator).0 ≡ r.0)
        × ((finish P r allocator).1 ≡ r.1)
        × (((r.0 ≡ done)
              × ((finish P r allocator).3 ≡ P.allocator_init allocator heap_start heap_size))
            ⊎ ((r.0 ≢ done) × ((finish P r allocator).3 ≡ allocator)))
  unfolding finish
  finish_cases (done, mapper, frames) allocator = (refl, refl, inl (refl, refl))
  finish_cases (failed error, mapper, frames) allocator = (refl, refl, inr (λ e. absurd cc, refl))

  -- `init_heap` succeeds with every page of the heap mapped, or fails; the allocator is told about
  -- the heap exactly when it succeeds, and is left alone otherwise.
  pub init_heap-mapped :
      (mapper : Mapper) (frames : Frames) (allocator : Allocator) (addr : ℕ)
      → heap_start ≤ addr
      → addr < heap_start + heap_size
      → (((init_heap P mapper frames allocator).0 ≡ done)
          × IsMapped (init_heap P mapper frames allocator).1 (addr / 4096) present_writable
          × ((init_heap P mapper frames allocator).3
              ≡ P.allocator_init allocator heap_start heap_size))
        ⊎ (((init_heap P mapper frames allocator).0 ≢ done)
            × ((init_heap P mapper frames allocator).3 ≡ allocator))
  unfolding init_heap
  init_heap-mapped mapper frames allocator addr above below =
      let r = map_pages P (last_page + 1 - first_page) first_page mapper frames in
      let (result, same, outcome) = finish_cases r allocator in
      elim outcome [
        | inl (fine, told) ↦ inl (
          result ∙ fine,
          subst (λ m. IsMapped m (addr / 4096) present_writable) (sym same)
              (map_pages-maps (last_page + 1 - first_page) first_page mapper frames (addr / 4096)
                fine (omega arith) (omega arith)),
          told,
        )
        | inr (bad, left) ↦ inr (λ e. bad (sym result ∙ e), left)
      ]
