-- ===== src/Task/Keyboard/Keypresses/Scancodes.antt =====
-- `print_keypresses` on one scancode, and the text of scancodes one after the other.
use mathlib.Core.List.{append_assoc, append-nil}
use mathlib.Core.Path.{subst}
use taijios.Common.{ℕ, ◌≡◌, ◌∙◌, refl, sym, ap, List, [], ◌∷◌, ◌++◌, ok}
use taijios.Vga.{Volatile, Writer}
use taijios.Vga.Screen.{Screen, type_string}
use taijios.Vga.Shows.{Typed}
use taijios.Task.Keyboard.{Crates}
use taijios.Task.Keyboard.Keypresses.{Decoder, handle_scancode}
use taijios.Task.Keyboard.Keypresses.Typing.{event_text, text_of, handle_event-Typed}

module _ (C : Crates) (V : Volatile) (D : Decoder) where
  open D use {Keyboard}

  -- The body of the loop does not panic, and types the text of its scancode.
  pub handle_scancode-Typed :
      (a : ℕ) (keyboard : Keyboard) (w : Writer V) (s : Screen) (color : ℕ)
      → Typed V color s w
      → (after : Writer V) × (handle_scancode C V D a keyboard w
          ≡ ok ((text_of C V D keyboard (a ∷ [])).1, after))
        × Typed V color (type_string color (text_of C V D keyboard (a ∷ [])).0 s) after
  unfolding handle_scancode text_of
  handle_scancode-Typed a keyboard w s color t =
      let (result, keyboard1) = D.add_byte keyboard a in
      let (after, e, u) = handle_event-Typed C V D result keyboard1 w s color t in
      (
        after,
        e,
        subst (λ l. Typed V color (type_string color l s) after)
            (sym (append-nil (event_text C V D result keyboard1).0)) u,
      )

  -- The text of one scancode more.
  pub text_of-append :
      (keyboard : Keyboard) (scancodes : List ℕ) (a : ℕ)
      → text_of C V D keyboard (scancodes ++ (a ∷ [])) ≡ (
        (text_of C V D keyboard scancodes).0
            ++ (text_of C V D (text_of C V D keyboard scancodes).1 (a ∷ [])).0,
        (text_of C V D (text_of C V D keyboard scancodes).1 (a ∷ [])).1,
      )
  unfolding text_of
  text_of-append keyboard [] a = refl
  text_of-append keyboard (b ∷ scancodes) a =
      let (result, keyboard1) = D.add_byte keyboard b in
      let (text, keyboard2) = event_text C V D result keyboard1 in
      let rest = text_of-append keyboard2 scancodes a in
      ap (λ (p : List ℕ × Keyboard). (text ++ p.0, p.1)) rest
      ∙ ap (λ l. (l, (text_of C V D (text_of C V D keyboard2 scancodes).1 (a ∷ [])).1))
          (sym (
            append_assoc text (text_of C V D keyboard2 scancodes).0
              (text_of C V D (text_of C V D keyboard2 scancodes).1 (a ∷ [])).0))
