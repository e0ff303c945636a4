-- ===== src/Alloc.antt =====
-- src/allocator.rs: heap constants, `align_up`, and the `Layout` of the language's library.
pub mod InitHeap
pub mod Align
pub mod Block
pub mod Client
pub mod Bump
pub mod LinkedList
pub mod FixedSize
mod Tests
use Prim.Native.Nat.{bit_and, max}
use taijios.Common.{
  ℕ, zero, suc, ◌+◌, ◌*◌, ◌-◌, ◌/◌, ◌^◌, ◌≤◌, ◌<◌, ◌≡◌, Bool, false, ◌&&◌, ◌||◌, Option, none, some,
  leb, ◌==◌, if◌then◌else◌, Outcome, panic, ◌>>=◌, add_usize, sub_usize, ok, usize_mod,
}

abbrev pub heap_start : ℕ
heap_start = 0x444444440000

abbrev pub heap_size : ℕ
heap_size = 100 * 1024

-- A pointer is an address; `null_mut()` is 0.
abbrev pub null : ℕ
null = 0

-- `!x` on a `usize`
abbrev pub not_usize : ℕ → ℕ
not_usize x = usize_mod - 1 - x

unfoldable pub align_up : ℕ → ℕ → Outcome ℕ
align_up addr align = do
  sum ← add_usize addr align
  top ← sub_usize sum 1
  low ← sub_usize align 1
  ok (bit_and top (not_usize low))

-- `core::alloc::Layout`
pub record Layout : Type 0 where
  pub size : ℕ
  pub align : ℕ

abbrev pub is_pow_below : ℕ → ℕ → Bool
is_pow_below zero n = false
is_pow_below (suc k) n = (n == 2 ^ k) || is_pow_below k n

-- `usize::is_power_of_two`
abbrev pub is_power_of_two : ℕ → Bool
is_power_of_two n = is_pow_below 64 n

-- The size, rounded up to the alignment, may not exceed `isize::MAX`.
unfoldable pub from_size_align : ℕ → ℕ → Option Layout
from_size_align size align =
    if is_power_of_two align && leb size (2 ^ 63 - align)
    then some (record { size = size; align = align })
    else none

unfoldable pub align_to : Layout → ℕ → Option Layout
align_to l align = from_size_align l.size (max l.align align)

-- The least multiple of `a` from `n` on.
unfoldable pub round_up : ℕ → ℕ → ℕ
round_up n a = (n + a - 1) / a * a

unfoldable pub pad_to_align : Layout → Layout
pad_to_align l = record l { size = round_up l.size l.align }

-- A layout that `from_size_align` accepts; the language admits no other.
pub record IsLayout (l : Layout) : Type 0 where
  pub log : ℕ
  pub log_lt : log < 64
  pub pow : l.align ≡ 2 ^ log
  pub fits : l.size + l.align ≤ 2 ^ 63

-- `Dummy`: it never hands out memory, so a deallocation is a fault of the caller.
unfoldable pub dummy_alloc : Layout → ℕ
dummy_alloc layout = null

unfoldable pub dummy_dealloc : ℕ → Layout → Outcome (Unit {0})
dummy_dealloc ptr layout = panic
