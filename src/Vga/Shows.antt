-- ===== src/Vga/Shows.antt =====
-- The writer implements typing on a scrolling screen, and never panics.
use mathlib.Core.List.{flatten}
use taijios.Common.{
  ℕ, zero, suc, ◌+◌, ◌-◌, ◌<◌, ◌≡◌, ◌∙◌, refl, sym, ap, arith, List, [], ◌∷◌, ◌++◌, leb, ltb, ◌==◌,
  if◌then◌else◌, ok, ◌>>=◌, panic, Bool-cases, inl, inr,
}
use taijios.Vga.{
  Volatile, ScreenChar, ColorCode, Buffer, Writer, stored, screen_byte, new_line, put_byte,
  write_byte, write_string, write_str, print,
}
use taijios.Vga.Loops.{shown, shown-stored, write_at-ok, blank_of, new_line-ok}
use taijios.Vga.Screen.{
  Screen, Shows, blank, scrolled, feed, place, type_char, type_byte, type_string,
}

-- The writer behind a call that succeeds: it shows `s`, and keeps its colour.
pub record Typed (V : Volatile) (color : ColorCode) (s : Screen) (w : Writer V) : Type 0 where
  pub shows : Shows V w s
  pub same : w.color_code ≡ color

module _ (V : Volatile) where
  shown-scrolled :
      (w : Writer V) (s : Screen) (color : ColorCode)
      → Typed V color s w
      → (after : Buffer V)
      → ((r k : ℕ)
          → r < 25
          → k < 80
          → shown V after r k ≡ (if ltb r 24 then shown V w.buffer (r + 1) k else blank_of V w))
      → (i k : ℕ) → i < 25
      → k < 80
      → shown V after (24 - i) k ≡ scrolled color s.rows i k
  shown-scrolled w s color t after at zero k low left = at 24 k (omega arith) left ∙ ap blank t.same
  shown-scrolled w s color t after at (suc i) k low left =
      let above : 24 - suc i + 1 ≡ 24 - i = omega arith in
      ground (
        arith,
        at (24 - suc i) k (omega arith) left,
        ap (λ r. shown V w.buffer r k) above,
        t.shows.rows i k (omega arith) left,
      )

  -- A new line scrolls.
  new_line-Shows :
      (w : Writer V) (s : Screen) (color : ColorCode)
      → Typed V color s w
      → (after : Writer V) × (new_line V w ≡ ok after) × Typed V color (feed color s) after
  unfolding feed
  new_line-Shows w s color t =
      let (after, e, start, kept, at) = new_line-ok V w in
      (
        after,
        e,
        record {
          shows = record {
            column = start;
            limit = omega arith;
            rows = shown-scrolled w s color t after.buffer at;
          };
          same = kept ∙ t.same;
        },
      )

  put_byte-Shows :
      (w : Writer V) (s : Screen) (color : ColorCode) (byte : ℕ)
      → Typed V color s w
      → s.column < 80
      → (after : Writer V) × (put_byte V w byte ≡ ok after)
        × Typed V color (place color byte s) after
  unfolding place put_byte
  put_byte-Shows w s color byte t room =
      let c : ScreenChar = record { ascii_character = byte; color_code = w.color_code } in
      (
        record w {
          buffer = stored V w.buffer 24 w.column_position c;
          column_position = w.column_position + 1;
        },
        rw
            (write_at-ok V w.buffer 24 w.column_position c (omega arith)
              (omega (arith, t.shows.column)))
            refl,
        record {
          shows = record {
            column = omega (arith, t.shows.column);
            limit = omega arith;
            rows = λ i k h l. ground (
              arith,
              shown-stored V w.buffer 24 w.column_position c (24 - i) k,
              t.shows.column,
              t.shows.rows i k h l,
              t.same,
            );
          };
          same = t.same;
        },
      )

  write_byte-Shows :
      (w : Writer V) (s : Screen) (color : ColorCode) (byte : ℕ)
      → Typed V color s w
      → (after : Writer V) × (write_byte V w byte ≡ ok after)
        × Typed V color (type_byte color byte s) after
  unfolding write_byte type_byte type_char
  write_byte-Shows w s color byte t = elim (Bool-cases (byte == b'\n')) [
    | inl e ↦ rw e (new_line-Shows w s color t)
    | inr e ↦ elim (Bool-cases (leb 80 s.column)) [
      | inl f ↦
          let (fed, g, u) = new_line-Shows w s color t in
          let (after, h, v) =
            put_byte-Shows fed (feed color s) color byte u (unfold feed in omega arith) in
          (after, rw (e, ap (leb 80) t.shows.column ∙ f, g) h, rw (e, f) v)
      | inr f ↦
          let (after, h, v) = put_byte-Shows w s color byte t (ground arith) in
          (after, rw (e, ap (leb 80) t.shows.column ∙ f) h, rw (e, f) v)
    ]
  ]

  -- Writing a string never panics: on a screen with the writer's rows at its bottom it types the
  -- string, each byte that is neither printable nor a newline as a box, and the colour is kept.
  pub write_string-Shows :
      (w : Writer V) (s : Screen) (color : ColorCode) (bytes : List ℕ)
      → Typed V color s w
      → (after : Writer V) × (write_string V w bytes ≡ ok after)
        × Typed V color (type_string color bytes s) after
  unfolding write_string type_string
  write_string-Shows w s color [] t = (w, refl, t)
  write_string-Shows w s color (byte ∷ bytes) t =
      let (mid, e, u) = write_byte-Shows w s color (screen_byte byte) t in
      let (after, f, v) =
        write_string-Shows mid (type_byte color (screen_byte byte) s) color bytes u in
      (after, rw e f, v)

  write_string-append :
      (w : Writer V) (xs ys : List ℕ)
      → write_string V w (xs ++ ys) ≡ (write_string V w xs >>= λ after. write_string V after ys)
  unfolding write_string
  write_string-append w [] ys = refl
  write_string-append w (x ∷ xs) ys =
      elim (write_byte V w (screen_byte x))
        as (λ r.
          (r >>= λ mid. write_string V mid (xs ++ ys))
          ≡ ((r >>= λ mid. write_string V mid xs) >>= λ after. write_string V after ys)) [
            | ok mid ↦ write_string-append mid xs ys
            | panic ↦ refl
          ]

  -- How the pieces of a format are cut does not matter: printing them writes their concatenation.
  pub print-write_string :
      (w : Writer V) (pieces : List (List ℕ)) → print V w pieces ≡ write_string V w (flatten pieces)
  unfolding print write_str write_string flatten
  print-write_string w [] = refl
  print-write_string w (piece ∷ pieces) =
      (λ i. write_string V w piece >>= λ mid. print-write_string mid pieces i)
      ∙ sym (write_string-append w piece (flatten pieces))

  -- Printing pieces types them one after the other.
  pub print-Typed :
      (w : Writer V) (s : Screen) (color : ℕ) (pieces : List (List ℕ))
      → Typed V color s w
      → (after : Writer V) × (print V w pieces ≡ ok after)
        × Typed V color (type_string color (flatten pieces) s) after
  print-Typed w s color pieces t =
      let (after, e, u) = write_string-Shows w s color (flatten pieces) t in
      (after, print-write_string w pieces ∙ e, u)
