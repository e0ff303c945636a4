-- ===== src/Memory.antt =====
-- src/memory.rs: physical frames, handed out from the bootloader's memory map.
pub mod Frames
pub mod Pages
pub mod Allocate
pub mod Paging
pub mod Tests
use mathlib.Core.List.{filter, flatten}
use taijios.Common.{
  ℕ, zero, suc, ◌+◌, ◌-◌, ◌*◌, ◌/◌, ◌%◌, ◌^◌, ◌≤◌, ◌<◌, ◌≡◌, Bool, true, false, Option, none, some,
  List, [], ◌∷◌, ◌++◌, map, Outcome, ok, ◌>>=◌, add_usize,
}

abbrev pub frame_size : ℕ
frame_size = 4096

-- What the code uses of the crates bootloader and x86_64: the regions of a memory map, and frames.
-- `containing_address` is `PhysFrame::containing_address(PhysAddr::new(addr))`: an address of more
-- than 52 bits panics, any other one lies in the frame, which starts at a multiple of its size.
pub record Machine : Type 1 where
  pub MemoryRegion : Type 0
  pub is_usable : MemoryRegion → Bool
  pub start_addr : MemoryRegion → ℕ
  pub end_addr : MemoryRegion → ℕ
  pub PhysFrame : Type 0
  pub start_address : PhysFrame → ℕ
  pub containing_address : ℕ → Outcome PhysFrame
  pub contained :
      (addr : ℕ)
      → addr < 2 ^ 52
      → (frame : PhysFrame) × (containing_address addr ≡ ok frame)
        × (start_address frame ≡ addr / 4096 * 4096)

-- `(start..end).step_by(4096)`: `n` items from `addr` on
unfoldable pub steps : ℕ → ℕ → List ℕ
steps zero addr = []
steps (suc n) addr = addr ∷ steps n (addr + frame_size)

unfoldable pub step_by : ℕ → ℕ → List ℕ
step_by start end = steps ((end - start + (frame_size - 1)) / frame_size) start

module _ (M : Machine) where
  open M use {MemoryRegion, is_usable, start_addr, end_addr, PhysFrame, containing_address}

  -- `EmptyFrameAllocator::allocate_frame`
  unfoldable pub empty_allocate_frame : Option PhysFrame
  empty_allocate_frame = none

  pub record BootInfoFrameAllocator : Type 0 where
    pub memory_map : List MemoryRegion
    pub next : ℕ

  unfoldable pub init : List MemoryRegion → BootInfoFrameAllocator
  init memory_map = record { memory_map = memory_map; next = 0 }

  -- `regions`, `usable_regions`, `addr_ranges` and `frame_addresses` of `usable_frames`
  unfoldable pub frame_addresses : List MemoryRegion → List ℕ
  frame_addresses [] = []
  frame_addresses (r ∷ regions) = elim (is_usable r) [
    | true ↦ step_by (start_addr r) (end_addr r) ++ frame_addresses regions
    | false ↦ frame_addresses regions
  ]

  -- `nth` of the iterator that makes a frame of each address: it makes those that it skips, too.
  unfoldable pub nth_frame : List ℕ → ℕ → Outcome (Option PhysFrame)
  nth_frame [] n = ok none
  nth_frame (addr ∷ addrs) zero = do frame ← containing_address addr; ok (some frame)
  nth_frame (addr ∷ addrs) (suc n) = do skipped ← containing_address addr; nth_frame addrs n

  -- `usable_frames().nth(n)`
  unfoldable pub usable_frame : BootInfoFrameAllocator → ℕ → Outcome (Option PhysFrame)
  usable_frame self n = nth_frame (frame_addresses self.memory_map) n

  unfoldable pub allocate_frame :
      BootInfoFrameAllocator → Outcome (Option PhysFrame × BootInfoFrameAllocator)
  allocate_frame self = do
    frame ← usable_frame self self.next
    next ← add_usize self.next 1
    ok (frame, record self { next = next })
