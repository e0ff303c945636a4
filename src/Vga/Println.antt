-- ===== src/Vga/Println.antt =====
-- What printing does to the screen: where bytes stand, and the line that `println!` leaves.
use mathlib.Core.List.{flatten}
use taijios.Common.{
  ℕ, ◌+◌, ◌-◌, ◌/◌, ◌%◌, ◌≤◌, ◌<◌, ◌≡◌, ◌∙◌, refl, ap, arith, List, [], ◌∷◌, ◌++◌, ltb, ltb→lt,
  if◌then◌else◌, inl, inr, length, get_or, All, ok, Bool-cases,
}
use taijios.Vga.{Volatile, Writer, write_string, print, printable, screen_byte}
use taijios.Vga.Loops.{shown}
use taijios.Vga.Screen.{Screen, blank, feed, type_byte, type_string}
use taijios.Vga.Shows.{Typed, write_string-Shows, print-write_string}
use taijios.Vga.Layout.{glyph, NoNewline, type_string-at, type_string-beyond, type_string-append}

module _ (V : Volatile) where
  -- The screen that a buffer shows, whatever was written into it before.
  abbrev pub screen_of : Writer V → Screen
  screen_of w = record { rows = λ i k. shown V w.buffer (24 - i) k; column = w.column_position }

  pub screen_of-Typed :
      (w : Writer V) → w.column_position ≤ 80 → Typed V w.color_code (screen_of w) w
  screen_of-Typed w limit = record {
    shows = record { column = refl; limit = limit; rows = λ i k _ _. refl };
    same = refl;
  }

  -- Byte `j` of a string without newlines, written from column `p`, is on the screen if at most 24
  -- rows of 80 were begun behind it: that many rows above the last, at column `(p + j) % 80`.
  pub write_string-at :
      (w : Writer V) (bytes : List ℕ) (j : ℕ)
      → w.column_position ≤ 80
      → All NoNewline bytes
      → j < length bytes
      → (w.column_position + length bytes - 1) / 80 - (w.column_position + j) / 80 ≤ 24
      → (after : Writer V) × (write_string V w bytes ≡ ok after)
        × (shown V after.buffer
              (24 - ((w.column_position + length bytes - 1) / 80 - (w.column_position + j) / 80))
              ((w.column_position + j) % 80)
            ≡ glyph w.color_code (get_or bytes j 0))
  write_string-at w bytes j limit h inside visible =
      let (after, e, t) =
        write_string-Shows V w (screen_of w) w.color_code bytes (screen_of-Typed w limit) in
      (
        after,
        e,
        t.shows.rows ((w.column_position + length bytes - 1) / 80 - (w.column_position + j) / 80)
              ((w.column_position + j) % 80) (omega arith) (omega arith)
            ∙ type_string-at w.color_code bytes (screen_of w) limit h j inside,
      )

  -- the bytes of `writeln!("\n{}", line)`
  abbrev pub own_line : List ℕ → List ℕ
  own_line line = b'\n' ∷ (line ++ (b'\n' ∷ []))

  typed_own_line :
      (line : List ℕ) (s : Screen) (color : ℕ)
      → type_string color (own_line line) s ≡ feed color (type_string color line (feed color s))
  unfolding type_string type_byte screen_byte printable
  typed_own_line line s color = type_string-append color line (b'\n' ∷ []) (feed color s)

  typed_row :
      (line : List ℕ) (s : Screen) (color k : ℕ)
      → All NoNewline line
      → length line ≤ 80
      → k < 80
      → (type_string color line (feed color s)).rows 0 k
        ≡ (if ltb k (length line) then glyph color (get_or line k 0) else blank color)
  typed_row line s color k h fits inside =
      let fed = feed color s in
      let start : fed.column ≡ 0 = unfold feed in refl in
      elim (Bool-cases (ltb k (length line))) [
        | inl e ↦
            let row : 0 ≡ (fed.column + length line - 1) / 80 - (fed.column + k) / 80 =
              omega (arith, ltb→lt k (length line) e, start) in
            let column : k ≡ (fed.column + k) % 80 = omega (arith, start) in
            rw e (
              ap (λ r. (type_string color line fed).rows r k) row
              ∙ ap
                  (λ c.
                    (type_string color line fed).rows
                      ((fed.column + length line - 1) / 80 - (fed.column + k) / 80) c)
                  column
              ∙ type_string-at color line fed (omega (arith, start)) h k (ltb→lt k (length line) e))
        | inr e ↦ rw e (
            type_string-beyond color line fed h k (ground (arith, start)) inside
            ∙ (unfold feed in refl))
      ]

  -- A line of at most 80 bytes, printed on a line of its own, does not panic and stands on the row
  -- above the last, with blanks behind it; the last row is blank and the next byte goes to its start.
  pub print-line :
      (w : Writer V) (line : List ℕ) (k : ℕ)
      → w.column_position ≤ 80
      → All NoNewline line
      → length line ≤ 80
      → k < 80
      → (after : Writer V) × (print V w ((b'\n' ∷ []) ∷ line ∷ (b'\n' ∷ []) ∷ []) ≡ ok after)
        × (shown V after.buffer 23 k ≡ (
            if ltb k (length line)
            then glyph w.color_code (get_or line k 0)
            else blank w.color_code))
        × (shown V after.buffer 24 k ≡ blank w.color_code)
        × (after.column_position ≡ 0)
  unfolding flatten
  print-line w line k limit h fits inside =
      let s = screen_of w in
      let (after, e, t) =
        write_string-Shows V w s w.color_code (own_line line) (screen_of-Typed w limit) in
      let typed = typed_own_line line s w.color_code in
      let behind = type_string w.color_code line (feed w.color_code s) in
      let home : (feed w.color_code behind).column ≡ 0 = unfold feed in refl in
      let clear : (feed w.color_code behind).rows 0 k ≡ blank w.color_code = unfold feed in refl in
      let up : (feed w.color_code behind).rows 1 k ≡ behind.rows 0 k = unfold feed in refl in
      (
        after,
        print-write_string V w ((b'\n' ∷ []) ∷ line ∷ (b'\n' ∷ []) ∷ []) ∙ e,
        t.shows.rows 1 k (omega arith) inside
            ∙ ap (λ (u : Screen). u.rows 1 k) typed
            ∙ up
            ∙ typed_row line s w.color_code k h fits inside,
        t.shows.rows 0 k (omega arith) inside ∙ ap (λ (u : Screen). u.rows 0 k) typed ∙ clear,
        t.shows.column ∙ ap (λ (u : Screen). u.column) typed ∙ home,
      )
