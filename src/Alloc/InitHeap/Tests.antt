-- ===== src/Alloc/InitHeap/Tests.antt =====
-- A machine that records the mapped pages and counts its frames.
use taijios.Common.{
  ℕ, zero, suc, ◌+◌, ◌/◌, ◌≤◌, ◌<◌, ◌≡◌, ◌≢◌, ◌⊎◌, refl, arith, Option, none, some, Bool, true,
  false, ◌==◌, if◌then◌else◌,
}
use taijios.Alloc.{heap_start, heap_size}
use taijios.Alloc.InitHeap.{
  Result, done, failed, Platform, map_page, and_then, map_pages, finish, init_heap,
}
use taijios.Alloc.InitHeap.Mapped.{init_heap-mapped}
use taijios.Alloc.InitHeap.Enough.{Supply, init_heap-done}

abbrev take : ℕ → Option ℕ × ℕ
take zero = (none, 0)
take (suc n) = (some n, n)

abbrev marked : (ℕ → Bool) → ℕ → ℕ → Bool
marked mapper page q = if q == page then true else mapper q

pub marked-here : (mapper : ℕ → Bool) (page : ℕ) → marked mapper page page ≡ true
marked-here mapper page = ground arith

pub marked-other :
    (mapper : ℕ → Bool) (page other : ℕ) → mapper other ≡ true → marked mapper page other ≡ true
marked-other mapper page other h = ground arith

pub marked-free :
    (mapper : ℕ → Bool) (page other : ℕ)
    → page < other
    → mapper other ≡ false
    → marked mapper page other ≡ false
marked-free mapper page other lt h = ground arith

pub take-gives : (n : ℕ) → 0 < n → (frame : ℕ) × ((take n).0 ≡ some frame) × (n ≤ (take n).1 + 1)
take-gives zero h = absurd (omega arith)
take-gives (suc n) h = (n, refl, omega arith)

abbrev pub plain : Platform
plain = record {
  Mapper = ℕ → Bool;
  Frames = ℕ;
  PhysFrame = ℕ;
  Flags = ℕ;
  MapToError = Bool;
  Allocator = ℕ × ℕ;
  frame_allocation_failed = true;
  present_writable = 3;
  allocate_frame = take;
  map_to = λ mapper page _ _ frames.
      (if mapper page then failed false else done, marked mapper page, frames);
  allocator_init = λ _ start size. (start, size);
  IsMapped = λ mapper page _. mapper page ≡ true;
  maps = λ mapper page _ _ _ h. marked-here mapper page;
  keeps = λ mapper page _ _ _ other _ m. marked-other mapper page other m;
}

abbrev pub unmapped : ℕ → Bool
unmapped page = false

pub one_more : (n : ℕ) → n ≤ n + 3
one_more n = omega arith

pub tells_free :
    (mapper : ℕ → Bool) (page : ℕ)
    → mapper page ≡ false
    → ◌≡◌ {A = Result Bool} (if mapper page then failed false else done) done
tells_free mapper page h = rw h refl

abbrev pub supply : Supply plain
supply = record {
  available = λ n. n;
  IsFree = λ mapper page. mapper page ≡ false;
  gives = take-gives;
  maps_free = λ mapper page _ frames _ free. (tells_free mapper page free, one_more frames);
  keeps_free = λ mapper page _ _ other lt free. marked-free mapper page other lt free;
}

-- With no frame left the heap is not there, and the allocator is not told.
runs_out : init_heap plain unmapped 0 (0, 0) ≡ (failed true, unmapped, 0, (0, 0))
unfolding init_heap map_pages map_page and_then finish
runs_out = refl

init_heap-mapped_example :
    (((init_heap plain unmapped 200 (0, 0)).0 ≡ done)
      × ((init_heap plain unmapped 200 (0, 0)).1 ((heap_start + 5000) / 4096) ≡ true)
      × ((init_heap plain unmapped 200 (0, 0)).3 ≡ (heap_start, heap_size)))
    ⊎ (((init_heap plain unmapped 200 (0, 0)).0 ≢ done)
        × ((init_heap plain unmapped 200 (0, 0)).3 ≡ (0, 0)))
init_heap-mapped_example =
    init_heap-mapped plain unmapped 200 (0, 0) (heap_start + 5000) (omega arith) (omega arith)

init_heap-done_example : (init_heap plain unmapped 200 (0, 0)).0 ≡ done
init_heap-done_example =
    init_heap-done plain supply unmapped 200 (0, 0) (omega arith) (λ other above. refl)
