-- ===== src/Kernel/Keys.antt =====
-- Any number of key presses on the idle system.
use mathlib.Core.Path.{subst}
use taijios.Common.{ℕ, ◌≡◌, refl, sym, Option, none, some, List, [], ◌∷◌, Outcome, ok, panic}
use taijios.Vga.Screen.{Screen, type_string}
use taijios.Task.Executor.{TaskWaker, Executor}
use taijios.Task.Keyboard.Keypresses.Typing.{text_of, type_string-text_of}
use taijios.Interrupts.{Machine}
use taijios.Kernel.{Platform, crates, runtime}
use taijios.Kernel.Keypress.{Idle, System, press, press-Idle}

module _ (P : Platform) where
  open P use {volatile, pics, decoder}

  unfoldable pub press_all : List ℕ → System P → Option (Outcome (System P))
  press_all [] system = some (ok system)
  press_all (scancode ∷ scancodes) system = elim (press P scancode system) [
    | none ↦ none
    | some panic ↦ some panic
    | some (ok system') ↦ press_all scancodes system'
  ]

  -- However many keys are pressed, one after the other, on an idle system: nothing panics or runs on,
  -- the system is idle again, and the text of the scancodes was typed on the screen, in order.
  pub keys_reach_screen :
      (scancodes : List ℕ) (self : Machine (crates P) volatile pics) (e : Executor (runtime P))
      (w : TaskWaker) (k : decoder.Keyboard) (s : Screen) (color : ℕ)
      → Idle P self.statics self.writer e w k s color
      → (self' : Machine (crates P) volatile pics) × (e' : Executor (runtime P)) × (press_all
            scancodes
            (self, e)
          ≡ some (ok (self', e')))
        × Idle P self'.statics self'.writer e' w
            (text_of (crates P) volatile decoder k scancodes).1
            (type_string color (text_of (crates P) volatile decoder k scancodes).0 s)
            color
  unfolding press_all text_of type_string
  keys_reach_screen [] self e w k s color h = (self, e, refl, h)
  keys_reach_screen (scancode ∷ scancodes) self e w k s color h =
      let C = crates P in
      let one = text_of C volatile decoder k (scancode ∷ []) in
      let (self1, e1, pressed, h1) = press-Idle P scancode self e w k s color h in
      let (self2, e2, others, h2) =
        keys_reach_screen scancodes self1 e1 w one.1 (type_string color one.0 s) color h1 in
      (
        self2,
        e2,
        rw (press_all, pressed) others,
        subst
            (λ s'.
              Idle P self2.statics self2.writer e2 w
                (text_of C volatile decoder k (scancode ∷ scancodes)).1 s' color)
            (sym (type_string-text_of C volatile decoder k scancode scancodes s color)) h2,
      )
