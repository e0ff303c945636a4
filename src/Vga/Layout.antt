-- ===== src/Vga/Layout.antt =====
-- Where the bytes of a string stand on the screen: rows of 80, wrapped.
use taijios.Common.{
  ℕ, zero, suc, ◌+◌, ◌-◌, ◌*◌, ◌/◌, ◌%◌, ◌≤◌, ◌<◌, ◌≡◌, ◌≢◌, ◌⊎◌, ◌∙◌, refl, sym, ap, arith, List,
  [], ◌∷◌, ◌++◌, leb, if◌then◌else◌, inl, inr, length, get_or, All,
}
use mathlib.Core.Path.{subst}
use native.Mathlib.Decide.{dec_lt}
use taijios.Vga.{ScreenChar, ColorCode, printable, screen_byte}
use taijios.Vga.Screen.{Screen, feed, place, type_char, type_byte, type_string}

-- What the screen shows for a byte.
abbrev pub glyph : ColorCode → ℕ → ScreenChar
glyph color byte = record { ascii_character = screen_byte byte; color_code = color }

abbrev pub NoNewline : ℕ → Type 0
NoNewline byte = byte ≢ b'\n'

module _ (color : ColorCode) where
  type_byte-place :
      (byte : ℕ) (s : Screen)
      → NoNewline byte
      → type_byte color (screen_byte byte) s
        ≡ place color (screen_byte byte) (if leb 80 s.column then feed color s else s)
  unfolding type_byte type_char screen_byte printable
  type_byte-place byte s no_newline = ground arith

  room :
      (byte : ℕ) (s : Screen)
      → NoNewline byte
      → s.column < 80
      → type_byte color (screen_byte byte) s ≡ place color (screen_byte byte) s
  room byte s h fits = ground (arith, type_byte-place byte s h)

  full :
      (byte : ℕ) (s : Screen)
      → NoNewline byte
      → 80 ≤ s.column
      → type_byte color (screen_byte byte) s ≡ place color (screen_byte byte) (feed color s)
  full byte s h fits = ground (arith, type_byte-place byte s h)

  place-before :
      (byte : ℕ) (s : Screen) (i k : ℕ)
      → k < s.column ⊎ (0 < i)
      → (place color byte s).rows i k ≡ s.rows i k
  unfolding place
  place-before byte s i k before = ground arith

  -- The screen behind one byte that is no newline.
  record Placed (s : Screen) (byte : ℕ) (after : Screen) : Type 0 where
    begun : ℕ
    columns : after.column + 80 * begun ≡ s.column + 1
    pos : 0 < after.column
    limit : after.column ≤ 80
    above : (i k : ℕ) → k < s.column ⊎ (0 < i) → after.rows (begun + i) k ≡ s.rows i k
    last : after.rows 0 (after.column - 1) ≡ glyph color byte

  type_byte-Placed :
      (byte : ℕ) (s : Screen)
      → NoNewline byte
      → s.column ≤ 80
      → Placed s byte (type_byte color (screen_byte byte) s)
  unfolding place feed
  type_byte-Placed byte s h limit = elim (dec_lt s.column 80) [
    | yes fits ↦ subst (Placed s byte) (sym (room byte s h fits)) (record {
      begun = 0;
      columns = omega arith;
      pos = omega arith;
      limit = omega arith;
      above = λ i k before.
          let none : 0 + i ≡ i = omega arith in
          rw none (place-before (screen_byte byte) s i k before);
      last = ground arith;
    })
    | no fits ↦ subst (Placed s byte) (sym (full byte s h (omega arith))) (record {
      begun = 1;
      columns = omega arith;
      pos = omega arith;
      limit = omega arith;
      above = λ i k before.
          let one : 1 + i ≡ suc i = omega arith in
          rw one (place-before (screen_byte byte) (feed color s) (suc i) k (inr (omega arith)));
      last = ground arith;
    })
  ]

  -- What stands above or left of the column moves up by one row for each row that is begun.
  pub type_string-before :
      (bytes : List ℕ) (s : Screen)
      → s.column ≤ 80
      → All NoNewline bytes
      → (i k : ℕ) → k < s.column ⊎ (0 < i)
      → (type_string color bytes s).rows (i + (s.column + length bytes - 1) / 80) k ≡ s.rows i k
  unfolding type_string
  type_string-before [] s limit h i k before =
      let same : i + (s.column + 0 - 1) / 80 ≡ i = omega arith in ap (λ r. s.rows r k) same
  type_string-before (byte ∷ bytes) s limit h i k before =
      let after = type_byte color (screen_byte byte) s in
      let p = type_byte-Placed byte s h.0 limit in
      let same : i + (s.column + length (byte ∷ bytes) - 1) / 80
          ≡ p.begun + i + (after.column + length bytes - 1) / 80 =
        omega (arith, p.columns, p.pos) in
      let left : k < after.column ⊎ (0 < p.begun + i) = ground (arith, p.columns) in
      ap (λ r. (type_string color bytes after).rows r k) same
      ∙ type_string-before bytes after p.limit h.1 (p.begun + i) k left
      ∙ p.above i k before

  -- Byte `j` of a string without newlines, typed from column `p`, stands at column `(p + j) % 80`,
  -- as many rows above the last as rows of 80 are begun behind it.
  pub type_string-at :
      (bytes : List ℕ) (s : Screen)
      → s.column ≤ 80
      → All NoNewline bytes
      → (j : ℕ) → j < length bytes
      → (type_string color bytes s).rows
          ((s.column + length bytes - 1) / 80 - (s.column + j) / 80)
          ((s.column + j) % 80)
        ≡ glyph color (get_or bytes j 0)
  unfolding type_string
  type_string-at [] s limit h j lt = absurd (omega arith)
  type_string-at (byte ∷ bytes) s limit h zero lt =
      let after = type_byte color (screen_byte byte) s in
      let p = type_byte-Placed byte s h.0 limit in
      let row : (s.column + length (byte ∷ bytes) - 1) / 80 - (s.column + 0) / 80
          ≡ 0 + (after.column + length bytes - 1) / 80 =
        omega (arith, p.columns, p.pos, p.limit) in
      let column : (s.column + 0) % 80 ≡ after.column - 1 =
        omega (arith, p.columns, p.pos, p.limit) in
      rw (row, column)
        (type_string-before bytes after p.limit h.1 0 (after.column - 1)
            (inl (omega (arith, p.pos)))
          ∙ p.last)
  type_string-at (byte ∷ bytes) s limit h (suc j) lt =
      let after = type_byte color (screen_byte byte) s in
      let p = type_byte-Placed byte s h.0 limit in
      let row : (s.column + length (byte ∷ bytes) - 1) / 80 - (s.column + suc j) / 80
          ≡ (after.column + length bytes - 1) / 80 - (after.column + j) / 80 =
        omega (arith, p.columns, p.pos) in
      let column : (s.column + suc j) % 80 ≡ (after.column + j) % 80 = omega (arith, p.columns) in
      rw (row, column) (type_string-at bytes after p.limit h.1 j (omega arith))

  -- the column behind a string without newlines
  pub type_string-column :
      (bytes : List ℕ) (s : Screen)
      → s.column ≤ 80
      → All NoNewline bytes
      → (type_string color bytes s).column + 80 * ((s.column + length bytes - 1) / 80)
        ≡ s.column + length bytes
  unfolding type_string
  type_string-column [] s limit h = omega arith
  type_string-column (byte ∷ bytes) s limit h =
      let p = type_byte-Placed byte s h.0 limit in
      omega (
        arith,
        p.columns,
        p.pos,
        type_string-column bytes (type_byte color (screen_byte byte) s) p.limit h.1,
      )

  -- Nothing changes right of a string that fits in its row.
  pub type_string-beyond :
      (bytes : List ℕ) (s : Screen)
      → All NoNewline bytes
      → (k : ℕ) → s.column + length bytes ≤ k
      → k < 80
      → (type_string color bytes s).rows 0 k ≡ s.rows 0 k
  unfolding type_string
  type_string-beyond [] s h k right inside = refl
  type_string-beyond (byte ∷ bytes) s h k right inside =
      let after = place color (screen_byte byte) s in
      ap (λ (t : Screen). (type_string color bytes t).rows 0 k) (room byte s h.0 (omega arith))
      ∙ type_string-beyond bytes after h.1 k (unfold place in omega arith) inside
      ∙ (unfold place in ground arith)

  pub type_string-append :
      (xs ys : List ℕ) (s : Screen)
      → type_string color (xs ++ ys) s ≡ type_string color ys (type_string color xs s)
  unfolding type_string
  type_string-append [] ys s = refl
  type_string-append (x ∷ xs) ys s = type_string-append xs ys (type_byte color (screen_byte x) s)
