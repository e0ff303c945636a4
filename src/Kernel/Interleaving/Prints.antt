-- ===== src/Kernel/Interleaving/Prints.antt =====
-- What a step prints is typed on the screen.
use mathlib.Core.List.{append_assoc, append-nil}
use taijios.Common.{ℕ, ◌≡◌, ◌∙◌, refl, sym, ap, List, [], ◌∷◌, ◌++◌, ok}
use taijios.Vga.{Writer}
use taijios.Vga.Screen.{Screen, type_string}
use taijios.Vga.Shows.{Typed, print-Typed}
use taijios.Interrupts.{warning, println, warn}
use taijios.Task.Keyboard as Keyboard
use taijios.Task.Keyboard.Keypresses.Typing.{text_of}
use taijios.Task.Keyboard.Keypresses.Scancodes.{handle_scancode-Typed}
use taijios.Task.Executor.{Runtime}
use taijios.Kernel.{Platform, crates}
use taijios.Kernel.Interleaving.{
  Machine, Step, polls, serves, drains, goes, loops, waits, sleeps, key, timer,
}
use taijios.Kernel.Interleaving.Display.{
  Printed, text, texts, task_text, task_texts, output, warned, entry,
}

pub texts-append :
    (log : List Printed) (p : Printed) → texts (log ++ (p ∷ [])) ≡ texts log ++ text p
unfolding texts
texts-append [] p = append-nil (text p)
texts-append (q ∷ log) p =
    ap (λ l. text q ++ l) (texts-append log p) ∙ sym (append_assoc (text q) (texts log) (text p))

pub task_texts-append :
    (log : List Printed) (p : Printed)
    → task_texts (log ++ (p ∷ [])) ≡ task_texts log ++ task_text p
unfolding task_texts
task_texts-append [] p = append-nil (task_text p)
task_texts-append (q ∷ log) p =
    ap (λ l. task_text q ++ l) (task_texts-append log p)
    ∙ sym (append_assoc (task_text q) (task_texts log) (task_text p))

module _ (P : Platform) (R : Runtime) (task_id : ℕ) where
  open P use {volatile, pics, decoder}

  nothing-Typed :
      (w : Writer volatile) (s : Screen) (color : ℕ)
      → Typed volatile color s w
      → Typed volatile color (type_string color [] s) w
  unfolding type_string
  nothing-Typed w s color t = t

  warn-Typed :
      (effect : Keyboard.Effect (crates P)) (w : Writer volatile) (s : Screen) (color : ℕ)
      → Typed volatile color s w
      → (after : Writer volatile) × (warn (crates P) volatile pics effect w ≡ ok after)
        × Typed volatile color (type_string color (warned P R task_id effect) s) after
  unfolding warn println
  warn-Typed (Keyboard.warns why) w s color t =
      print-Typed volatile w s color (warning why ∷ (b'\n' ∷ []) ∷ []) t
  warn-Typed (Keyboard.wakes woken) w s color t = (w, refl, nothing-Typed w s color t)

  -- the decoder behind a step
  abbrev pub decoded :
      (s t : Machine P R) → Step P R task_id s t → decoder.Keyboard → decoder.Keyboard
  decoded s t (polls task q a b c d) k = k
  decoded s t (serves id q after world a b c d e) k = k
  decoded s t (drains a b c) k = k
  decoded s t (goes to statics a b c d) k = k
  decoded s t (loops scancode a b c) k = (text_of (crates P) volatile decoder k (scancode ∷ [])).1
  decoded s t (waits task a b c) k = k
  decoded s t (sleeps stage a b c d) k = k
  decoded s t (key scancode statics effect q a b c d) k = k
  decoded s t (timer a b) k = k

  module _ (prints : ℕ → Machine P R → List (List ℕ)) where
    -- A step does not panic over its prints, and types its text.
    pub output-Typed :
        (s t : Machine P R) (step : Step P R task_id s t) (k : decoder.Keyboard)
        (w : Writer volatile) (x : Screen) (color : ℕ)
        → Typed volatile color x w
        → (after : Writer volatile) × (output P R task_id prints s t step k w
            ≡ ok (decoded s t step k, after))
          × Typed volatile color
              (type_string color (text (entry P R task_id prints s t step k)) x)
              after
    unfolding output entry text
    output-Typed s t (polls task q a b c d) k w x color h = (w, refl, nothing-Typed w x color h)
    output-Typed s t (serves id q after world a b c d e) k w x color h =
        let (after, e, u) = print-Typed volatile w x color (prints id s) h in (after, rw e refl, u)
    output-Typed s t (drains a b c) k w x color h = (w, refl, nothing-Typed w x color h)
    output-Typed s t (goes to statics a b c d) k w x color h = (w, refl, nothing-Typed w x color h)
    output-Typed s t (loops scancode a b c) k w x color h =
        handle_scancode-Typed (crates P) volatile decoder scancode k w x color h
    output-Typed s t (waits task a b c) k w x color h = (w, refl, nothing-Typed w x color h)
    output-Typed s t (sleeps stage a b c d) k w x color h = (w, refl, nothing-Typed w x color h)
    output-Typed s t (key scancode statics effect q a b c d) k w x color h =
        let (after, e, u) = warn-Typed effect w x color h in (after, rw e refl, u)
    output-Typed s t (timer a b) k w x color h =
        let (after, e, u) = print-Typed volatile w x color ((b'.' ∷ []) ∷ []) h in
        (after, rw e refl, u)
