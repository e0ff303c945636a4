-- ===== src/Vga/Loops.antt =====
-- The loops of the writer: what a buffer shows behind each of them.
use taijios.Common.{
  ℕ, zero, suc, ◌+◌, ◌-◌, ◌≤◌, ◌<◌, ◌≡◌, refl, arith, ◌&&◌, ltb, ◌==◌, if◌then◌else◌, ok, Bool,
}
use taijios.Vga.{
  Volatile, ScreenChar, Buffer, Writer, stored, read_at, write_at, move_cols, move_rows, clear_cols,
  clear_row, new_line,
}

module _ (V : Volatile) where
  -- the character in a cell
  abbrev pub shown : Buffer V → ℕ → ℕ → ScreenChar
  shown chars r k = V.read (chars r k)

  read_at-ok :
      (chars : Buffer V) (row col : ℕ)
      → row < 25
      → col < 80
      → read_at V chars row col ≡ ok (shown chars row col)
  unfolding read_at
  read_at-ok chars row col h k = ground arith

  pub write_at-ok :
      (chars : Buffer V) (row col : ℕ) (c : ScreenChar)
      → row < 25
      → col < 80
      → write_at V chars row col c ≡ ok (stored V chars row col c)
  unfolding write_at
  write_at-ok chars row col c h k = ground arith

  pub shown-stored :
      (chars : Buffer V) (row col : ℕ) (c : ScreenChar) (r k : ℕ)
      → shown (stored V chars row col c) r k ≡ (if r == row && k == col then c else shown chars r k)
  shown-stored chars row col c r k =
      elim (r == row && k == col)
        as (λ here.
          V.read (if here then V.write (chars row col) c else chars r k)
          ≡ (if here then c else shown chars r k)) [
            | Bool.true ↦ V.read-write (chars row col) c
            | Bool.false ↦ refl
          ]

  move_cols-ok :
      (n : ℕ) (chars : Buffer V) (row : ℕ)
      → n ≤ 80
      → 0 < row
      → row < 25
      → (after : Buffer V) × (move_cols V n chars row ≡ ok after)
        × ((r k : ℕ)
            → shown after r k
              ≡ (if r == (row - 1) && ltb k n then shown chars row k else shown chars r k))
  unfolding move_cols
  move_cols-ok zero chars row fits pos low = (chars, refl, λ r k. ground arith)
  move_cols-ok (suc n) chars row fits pos low =
      let (before, e, at) = move_cols-ok n chars row (omega arith) pos low in
      (
        stored V before (row - 1) n (shown before row n),
        rw
            (
              e,
              read_at-ok before row n low (omega arith),
              write_at-ok before (row - 1) n (shown before row n) (omega arith) (omega arith),
            )
            refl,
        λ r k.
            ground
              (arith, shown-stored before (row - 1) n (shown before row n) r k, at r k, at row n),
      )

  move_rows-ok :
      (n : ℕ) (chars : Buffer V)
      → n ≤ 24
      → (after : Buffer V) × (move_rows V n chars ≡ ok after)
        × ((r k : ℕ)
            → k < 80
            → shown after r k ≡ (if ltb r n then shown chars (r + 1) k else shown chars r k))
  unfolding move_rows
  move_rows-ok zero chars fits = (chars, refl, λ r k _. ground arith)
  move_rows-ok (suc n) chars fits =
      let (before, e, at) = move_rows-ok n chars (omega arith) in
      let (after, moved, copied) =
        move_cols-ok 80 before (n + 1) (omega arith) (omega arith) (omega arith) in
      (after, rw (e, moved) refl, λ r k h. ground (arith, copied r k, at r k h, at (n + 1) k h))

  clear_cols-ok :
      (n : ℕ) (chars : Buffer V) (row : ℕ) (blank : ScreenChar)
      → n ≤ 80
      → row < 25
      → (after : Buffer V) × (clear_cols V n chars row blank ≡ ok after)
        × ((r k : ℕ) → shown after r k ≡ (if r == row && ltb k n then blank else shown chars r k))
  unfolding clear_cols
  clear_cols-ok zero chars row blank fits low = (chars, refl, λ r k. ground arith)
  clear_cols-ok (suc n) chars row blank fits low =
      let (before, e, at) = clear_cols-ok n chars row blank (omega arith) low in
      (
        stored V before row n blank,
        rw (e, write_at-ok before row n blank low (omega arith)) refl,
        λ r k. ground (arith, shown-stored before row n blank r k, at r k),
      )

  -- the blank of a writer's colour
  abbrev pub blank_of : Writer V → ScreenChar
  blank_of w = record { ascii_character = b' '; color_code = w.color_code }

  -- A new line never panics: each row shows what the row below it did, the last row is blank, and
  -- the next byte goes to its start.
  pub new_line-ok :
      (self : Writer V)
      → (after : Writer V) × (new_line V self ≡ ok after)
        × (after.column_position ≡ 0)
        × (after.color_code ≡ self.color_code)
        × ((r k : ℕ)
            → r < 25
            → k < 80
            → shown after.buffer r k
              ≡ (if ltb r 24 then shown self.buffer (r + 1) k else blank_of self))
  unfolding new_line clear_row
  new_line-ok self =
      let (moved, e, up) = move_rows-ok 24 self.buffer (omega arith) in
      let (cleared, f, last) =
        clear_cols-ok 80 moved 24 (blank_of self) (omega arith) (omega arith) in
      (
        record { column_position = 0; color_code = self.color_code; buffer = cleared },
        rw (e, f) refl,
        refl,
        refl,
        λ r k low left. ground (arith, last r k, up r k left),
      )
