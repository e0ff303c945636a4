-- ===== src/Vga.antt =====
-- src/vga_buffer.rs: colour codes, the text buffer, and the writer that scrolls it.
pub mod Loops
pub mod Screen
pub mod Shows
pub mod Layout
pub mod Println
pub mod Colors
mod Tests
use Prim.Native.Nat.{bit_or}
use taijios.Common.{
  ℕ, zero, suc, ◌+◌, ◌-◌, ◌*◌, ◌%◌, ◌^◌, ◌≡◌, Bool, ◌&&◌, ◌||◌, List, [], ◌∷◌, ltb, leb, ◌==◌,
  if◌then◌else◌, Outcome, ok, panic, ◌>>=◌,
}

pub data Color : Type 0 where
  black blue green cyan red magenta brown light_gray : Color
  dark_gray light_blue light_green light_cyan light_red pink yellow white : Color

-- `color as u8`
unfoldable pub color_u8 : Color → ℕ
color_u8 black = 0
color_u8 blue = 1
color_u8 green = 2
color_u8 cyan = 3
color_u8 red = 4
color_u8 magenta = 5
color_u8 brown = 6
color_u8 light_gray = 7
color_u8 dark_gray = 8
color_u8 light_blue = 9
color_u8 light_green = 10
color_u8 light_cyan = 11
color_u8 light_red = 12
color_u8 pink = 13
color_u8 yellow = 14
color_u8 white = 15

-- `ColorCode`, a byte
abbrev pub ColorCode : Type 0
ColorCode = ℕ

-- `<< 4` on a `u8` drops what leaves the byte.
unfoldable pub color_code_new : Color → Color → ColorCode
color_code_new foreground background =
    bit_or (color_u8 background * 2 ^ 4 % 2 ^ 8) (color_u8 foreground)

pub record ScreenChar : Type 0 where
  pub ascii_character : ℕ
  pub color_code : ColorCode

abbrev pub buffer_height : ℕ
buffer_height = 25

abbrev pub buffer_width : ℕ
buffer_width = 80

-- `Volatile<ScreenChar>` of the `volatile` crate: a cell that reads as what was last written.
pub record Volatile : Type 1 where
  pub Cell : Type 0
  pub read : Cell → ScreenChar
  pub write : Cell → ScreenChar → Cell
  pub read-write : (cell : Cell) (c : ScreenChar) → read (write cell c) ≡ c

-- What `write_string` prints for a byte: itself, or a box where it is not printable.
unfoldable pub printable : ℕ → Bool
printable byte = (leb 0x20 byte && leb byte 0x7e) || byte == b'\n'

unfoldable pub screen_byte : ℕ → ℕ
screen_byte byte = if printable byte then byte else 0xfe

module _ (V : Volatile) where
  open V use {Cell, read, write}

  -- `chars`, by row and column; only indices in range are used.
  abbrev pub Buffer : Type 0
  Buffer = ℕ → ℕ → Cell

  abbrev pub in_range : ℕ → ℕ → Bool
  in_range row col = ltb row buffer_height && ltb col buffer_width

  -- `chars[row][col].read()`; an index out of range panics.
  unfoldable pub read_at : Buffer → ℕ → ℕ → Outcome ScreenChar
  read_at chars row col = if in_range row col then ok (read (chars row col)) else panic

  abbrev pub stored : Buffer → ℕ → ℕ → ScreenChar → Buffer
  stored chars row col c r k = if r == row && k == col then write (chars row col) c else chars r k

  -- `chars[row][col].write(c)`
  unfoldable pub write_at : Buffer → ℕ → ℕ → ScreenChar → Outcome Buffer
  write_at chars row col c = if in_range row col then ok (stored chars row col c) else panic

  pub record Writer : Type 0 where
    pub column_position : ℕ
    pub color_code : ColorCode
    pub buffer : Buffer

  -- the first `n` rounds of `for col in 0..BUFFER_WIDTH` in `new_line`
  unfoldable pub move_cols : ℕ → Buffer → ℕ → Outcome Buffer
  move_cols zero chars row = ok chars
  move_cols (suc col) chars row = do
    chars' ← move_cols col chars row
    character ← read_at chars' row col
    write_at chars' (row - 1) col character

  -- the first `n` rounds of `for row in 1..BUFFER_HEIGHT`
  unfoldable pub move_rows : ℕ → Buffer → Outcome Buffer
  move_rows zero chars = ok chars
  move_rows (suc n) chars = do chars' ← move_rows n chars; move_cols buffer_width chars' (n + 1)

  -- the first `n` rounds of the loop in `clear_row`
  unfoldable pub clear_cols : ℕ → Buffer → ℕ → ScreenChar → Outcome Buffer
  clear_cols zero chars row blank = ok chars
  clear_cols (suc col) chars row blank = do
    chars' ← clear_cols col chars row blank
    write_at chars' row col blank

  unfoldable pub clear_row : Writer → ℕ → Outcome Writer
  clear_row self row = do
    let blank : ScreenChar = record { ascii_character = b' '; color_code = self.color_code }
    chars ← clear_cols buffer_width self.buffer row blank
    ok (record self { buffer = chars })

  unfoldable pub new_line : Writer → Outcome Writer
  new_line self = do
    chars ← move_rows (buffer_height - 1) self.buffer
    cleared ← clear_row (record self { buffer = chars }) (buffer_height - 1)
    ok (record cleared { column_position = 0 })

  -- the arm for a byte that is no newline, behind the wrap
  unfoldable pub put_byte : Writer → ℕ → Outcome Writer
  put_byte self byte = do
    let row : ℕ = buffer_height - 1
    let col = self.column_position
    chars ←
        write_at self.buffer row col
          (record { ascii_character = byte; color_code = self.color_code })
    ok (record self { buffer = chars; column_position = self.column_position + 1 })

  unfoldable pub write_byte : Writer → ℕ → Outcome Writer
  write_byte self byte = if byte == b'\n' then new_line self else do
    wrapped ← if leb buffer_width self.column_position then new_line self else ok self
    put_byte wrapped byte

  -- `s.bytes()` is the list.
  unfoldable pub write_string : Writer → List ℕ → Outcome Writer
  write_string self [] = ok self
  write_string self (byte ∷ bytes) = do
    self' ← write_byte self (screen_byte byte)
    write_string self' bytes

  -- `write_str`; its `Ok(())` is the successful outcome.
  unfoldable pub write_str : Writer → List ℕ → Outcome Writer
  write_str self s = write_string self s

  -- `_print`: `write_fmt` hands the pieces of its arguments to `write_str` one by one.
  unfoldable pub print : Writer → List (List ℕ) → Outcome Writer
  print self [] = ok self
  print self (piece ∷ pieces) = do self' ← write_str self piece; print self' pieces
