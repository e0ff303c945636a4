-- ===== src/Vga/Screen.antt =====
-- What the writer of src/vga_buffer.rs promises: typing on a screen that scrolls and forgets nothing.
use taijios.Common.{
  ℕ, zero, suc, ◌+◌, ◌-◌, ◌≤◌, ◌<◌, ◌≡◌, List, [], ◌∷◌, ◌&&◌, leb, ◌==◌, if◌then◌else◌,
}
use taijios.Vga.{Volatile, ScreenChar, ColorCode, Writer, screen_byte}
use taijios.Vga.Loops.{shown}

-- Rows count from the bottom row upwards without end; the next byte goes to `column` of row 0.
pub record Screen : Type 0 where
  pub rows : ℕ → ℕ → ScreenChar
  pub column : ℕ

abbrev pub blank : ColorCode → ScreenChar
blank color = record { ascii_character = b' '; color_code = color }

abbrev pub scrolled : ColorCode → (ℕ → ℕ → ScreenChar) → ℕ → ℕ → ScreenChar
scrolled color rows zero k = blank color
scrolled color rows (suc i) k = rows i k

unfoldable pub feed : ColorCode → Screen → Screen
feed color s = record { rows = scrolled color s.rows; column = 0 }

unfoldable pub place : ColorCode → ℕ → Screen → Screen
place color byte s = record {
  rows = λ i k.
      (if i == 0 && k == s.column
        then record { ascii_character = byte; color_code = color }
        else s.rows i k);
  column = s.column + 1;
}

-- A byte that finds the row full goes to a new one.
unfoldable pub type_char : ColorCode → ℕ → Screen → Screen
type_char color byte s = place color byte (if leb 80 s.column then feed color s else s)

unfoldable pub type_byte : ColorCode → ℕ → Screen → Screen
type_byte color byte s = if byte == b'\n' then feed color s else type_char color byte s

unfoldable pub type_string : ColorCode → List ℕ → Screen → Screen
type_string color [] s = s
type_string color (byte ∷ bytes) s = type_string color bytes (type_byte color (screen_byte byte) s)

-- The writer's buffer is the lowest 25 rows of the screen.
pub record Shows (V : Volatile) (w : Writer V) (s : Screen) : Type 0 where
  pub column : w.column_position ≡ s.column
  pub limit : s.column ≤ 80
  pub rows : (i k : ℕ) → i < 25 → k < 80 → shown V w.buffer (24 - i) k ≡ s.rows i k
