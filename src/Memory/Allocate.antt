-- ===== src/Memory/Allocate.antt =====
-- `allocate_frame` hands out the usable frames one after the other.
use mathlib.Core.Path.{subst}
use taijios.Common.{
  ℕ, zero, suc, ◌+◌, ◌*◌, ◌/◌, ◌%◌, ◌^◌, ◌≤◌, ◌<◌, ◌≡◌, ◌≢◌, ◌↔◌, ◌∙◌, refl, sym, ap, arith, Option,
  none, some, List, [], ◌∷◌, get_elem?, ok, add_usize, add_usize-ok, usize_mod, ltb, Bool-cases,
  inl, inr,
}
use taijios.Memory.{
  Machine, BootInfoFrameAllocator, frame_addresses, nth_frame, usable_frame, allocate_frame,
}
use taijios.Memory.Pages.{total_pages, nth_page, nth_page-none, frame_addresses-nth}
use taijios.Memory.Frames.{IsMap, IsUsable, frame_addresses-IsUsable, frame_addresses-once}

module _ (M : Machine) where
  open M use {MemoryRegion, PhysFrame, start_address, containing_address}

  abbrev pub starts : Option PhysFrame → Option ℕ
  starts none = none
  starts (some frame) = some (start_address frame)

  -- what a call takes from the allocator
  abbrev pub advanced : BootInfoFrameAllocator M → BootInfoFrameAllocator M
  advanced self = record self { next = self.next + 1 }

  starts-none : (frame : Option PhysFrame) → starts frame ≡ none → frame ≡ none
  starts-none none e = refl
  starts-none (some frame) e = absurd cc

  nth_frame-starts :
      (addrs : List ℕ) (n : ℕ)
      → ((i addr : ℕ) → get_elem? addrs i ≡ some addr → (addr < 2 ^ 52) × (addr % 4096 ≡ 0))
      → (frame : Option PhysFrame) × (nth_frame M addrs n ≡ ok frame)
        × (get_elem? addrs n ≡ starts frame)
  unfolding nth_frame
  nth_frame-starts [] n h = (none, refl, refl)
  nth_frame-starts (addr ∷ addrs) zero h =
      let (small, aligned) = h 0 addr refl in
      let (frame, e, start) = M.contained addr small in
      let whole : addr ≡ addr / 4096 * 4096 = omega (arith, aligned) in
      (some frame, rw e refl, ap some (whole ∙ sym start))
  nth_frame-starts (addr ∷ addrs) (suc n) h =
      let (skipped, e, start) = M.contained addr (h 0 addr refl).0 in
      let (frame, f, at) = nth_frame-starts addrs n (λ i a e. h (suc i) a e) in (frame, rw e f, at)

  usable_frame-starts :
      (self : BootInfoFrameAllocator M)
      → IsMap M self.memory_map
      → (frame : Option PhysFrame) × (usable_frame M self self.next ≡ ok frame)
        × (get_elem? (frame_addresses M self.memory_map) self.next ≡ starts frame)
  unfolding usable_frame
  usable_frame-starts self m =
      nth_frame-starts (frame_addresses M self.memory_map) self.next (λ i addr e.
        let u = frame_addresses-IsUsable M self.memory_map i addr m.each e in
        (u.small, u.frame_start))

  -- On a valid map a call does not panic before the counter overflows, and counts the call. With
  -- `self.next` at `n`, it returns the frame at the `n`-th whole page of the usable regions, page by
  -- page and region by region in the map's order, or none when they have no more than `n` pages.
  pub allocate_frame-next :
      (self : BootInfoFrameAllocator M)
      → IsMap M self.memory_map
      → self.next + 1 < usize_mod
      → (frame : Option PhysFrame) × (allocate_frame M self ≡ ok (frame, advanced self))
        × (starts frame ≡ nth_page M self.memory_map self.next)
        × ((frame ≡ none) ↔ (total_pages M self.memory_map ≤ self.next))
  unfolding allocate_frame
  allocate_frame-next self m small =
      let (frame, e, at) = usable_frame-starts self m in
      let there = sym at ∙ frame_addresses-nth M self.memory_map self.next m.each in
      let out = nth_page-none M self.memory_map self.next in
      (
        frame,
        rw (e, add_usize-ok self.next 1 small) refl,
        there,
        (λ f. out.0 (sym there ∙ ap starts f), λ f. starts-none frame (there ∙ out.1 f)),
      )

  returned :
      {frame : Option PhysFrame} {after : BootInfoFrameAllocator M}
      (self : BootInfoFrameAllocator M)
      → IsMap M self.memory_map
      → allocate_frame M self ≡ ok (frame, after)
      → (after ≡ advanced self)
        × (get_elem? (frame_addresses M self.memory_map) self.next ≡ starts frame)
  unfolding allocate_frame add_usize
  returned {frame} {after} self m h =
      let (given, e, at) = usable_frame-starts self m in
      let h' = rw e at h in
      elim (Bool-cases (ltb (self.next + 1) usize_mod)) [
        | inl fits ↦ let h'' = rw fits at h' in (cc, cc)
        | inr full ↦ let h'' = rw full at h' in absurd cc
      ]

  -- The frame that a call returns lies whole in a usable region of a valid map.
  pub allocate_frame-IsUsable :
      (self : BootInfoFrameAllocator M) (frame : PhysFrame) (after : BootInfoFrameAllocator M)
      → IsMap M self.memory_map
      → allocate_frame M self ≡ ok (some frame, after)
      → IsUsable M self.memory_map (start_address frame)
  allocate_frame-IsUsable self frame after m h =
      frame_addresses-IsUsable M self.memory_map self.next (start_address frame) m.each
        (returned self m h).1

  -- any number of calls
  pub data Calls : BootInfoFrameAllocator M → BootInfoFrameAllocator M → Type 0 where
    done : {self : BootInfoFrameAllocator M} → Calls self self
    call :
        {self after later : BootInfoFrameAllocator M} (frame : Option PhysFrame)
        → allocate_frame M self ≡ ok (frame, after)
        → Calls after later
        → Calls self later

  calls :
      {self later : BootInfoFrameAllocator M}
      → IsMap M self.memory_map
      → Calls self later
      → (later.memory_map ≡ self.memory_map) × (self.next ≤ later.next)
  calls m Calls.done = (refl, omega arith)
  calls {self} m (Calls.call frame e rest) =
      let (counted, at) = returned self m e in
      let (same, more) =
        calls (subst (λ (t : BootInfoFrameAllocator M). IsMap M t.memory_map) (sym counted) m)
          rest in
      (
        same ∙ ap (λ (t : BootInfoFrameAllocator M). t.memory_map) counted,
        omega (arith, more, ap (λ (t : BootInfoFrameAllocator M). t.next) counted),
      )

  -- No frame of a valid map is handed out twice, however many calls lie between.
  pub allocate_frame-fresh :
      (self after later last : BootInfoFrameAllocator M) (frame other : PhysFrame)
      → IsMap M self.memory_map
      → allocate_frame M self ≡ ok (some frame, after)
      → Calls after later
      → allocate_frame M later ≡ ok (some other, last)
      → start_address frame ≢ start_address other
  allocate_frame-fresh self after later last frame other m h between h' same =
      let (counted, at) = returned self m h in
      let m' = subst (λ (t : BootInfoFrameAllocator M). IsMap M t.memory_map) (sym counted) m in
      let (kept, more) = calls m' between in
      let kept' : later.memory_map ≡ self.memory_map =
        kept ∙ ap (λ (t : BootInfoFrameAllocator M). t.memory_map) counted in
      let (counted', at') = returned later (subst (IsMap M) (sym kept') m) h' in
      frame_addresses-once M self.memory_map self.next later.next (start_address frame) m
        (omega (arith, more, ap (λ (t : BootInfoFrameAllocator M). t.next) counted)) at
        (ap (λ r. get_elem? (frame_addresses M r) later.next) (sym kept')
          ∙ at'
          ∙ ap some (sym same))
