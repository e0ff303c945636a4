-- ===== src/Vga/Tests.antt =====
-- The writer on a screen of plain cells, and the theorems at its states.
use taijios.Common.{ℕ, ◌+◌, ◌≡◌, refl, arith, ok, List, [], ◌∷◌}
use taijios.Vga.{
  Color, color_u8, Volatile, ScreenChar, Writer, color_code_new, screen_byte, printable,
  write_string,
}
use taijios.Vga.Loops.{shown}
use taijios.Vga.Screen.{type_string}
use taijios.Vga.Shows.{Typed, write_string-Shows}
use taijios.Vga.Layout.{glyph}
use taijios.Vga.Println.{write_string-at, screen_of-Typed, screen_of}

abbrev plain : Volatile
plain = record {
  Cell = ScreenChar;
  read = λ cell. cell;
  write = λ _ c. c;
  read-write = λ _ _. refl;
}

-- A row that is nearly full, with text above it.
abbrev late : Writer plain
late = record {
  column_position = 78;
  color_code = 14;
  buffer = λ r k. record { ascii_character = 65 + r; color_code = 14 };
}

abbrev word : List ℕ
word = b'w' ∷ b'r' ∷ b'a' ∷ b'p' ∷ []

-- Unprintable bytes are boxes.
boxes : (screen_byte 0x1f ≡ 0xfe) × (screen_byte b'\n' ≡ b'\n') × (screen_byte 0x7e ≡ 0x7e)
unfolding screen_byte printable
boxes = (refl, refl, refl)

codes : color_code_new Color.yellow Color.black ≡ 14
unfolding color_code_new color_u8
codes = refl

-- The third letter wraps to the next row.
write_string-at_example :
    (after : Writer plain) × (write_string plain late word ≡ ok after)
    × (shown plain after.buffer 24 0 ≡ glyph 14 b'a')
write_string-at_example =
    write_string-at plain late word 2 (omega arith)
      (λ e. omega arith, (λ e. omega arith, (λ e. omega arith, (λ e. omega arith, tt))))
      (omega arith) (omega arith)

write_string-Shows_example :
    (after : Writer plain) × (write_string plain late word ≡ ok after)
    × Typed plain 14 (type_string 14 word (screen_of plain late)) after
write_string-Shows_example =
    write_string-Shows plain late (screen_of plain late) 14 word
      (screen_of-Typed plain late (omega arith))
