-- ===== src/Kernel/Interleaving/Display.antt =====
-- What the steps print: the keyboard task for the scancodes that it takes, the handlers, and the
-- turns of other tasks.
use mathlib.Core.List.{flatten}
use taijios.Common.{ℕ, ◌≡◌, List, [], ◌∷◌, ◌++◌, Outcome, ok, ◌>>=◌}
use taijios.Vga.{Writer, print}
use taijios.Interrupts.{warning, warn}
use taijios.Task.Keyboard as Keyboard
use taijios.Task.Keyboard.Keypresses.{handle_scancode}
use taijios.Task.Keyboard.Keypresses.Typing.{text_of}
use taijios.Task.Executor.{Runtime}
use taijios.Kernel.{Platform, crates}
use taijios.Kernel.Interleaving.{
  Machine, Step, polls, serves, drains, goes, loops, waits, sleeps, key, timer,
}

-- A text that was printed: by the keyboard task, by a handler, or by another task.
pub data Printed : Type 0 where
  by_task by_handler by_other : List ℕ → Printed

unfoldable pub text : Printed → List ℕ
text (by_task t) = t
text (by_handler t) = t
text (by_other t) = t

unfoldable pub texts : List Printed → List ℕ
texts [] = []
texts (p ∷ log) = text p ++ texts log

unfoldable pub task_text : Printed → List ℕ
task_text (by_task t) = t
task_text (by_handler t) = []
task_text (by_other t) = []

unfoldable pub task_texts : List Printed → List ℕ
task_texts [] = []
task_texts (p ∷ log) = task_text p ++ task_texts log

module _ (P : Platform) (R : Runtime) (task_id : ℕ) where
  open P use {volatile, pics, decoder}

  abbrev pub Shown : Type 0
  Shown = decoder.Keyboard × Writer volatile

  -- the warning of `add_scancode`, on a line
  abbrev pub warned : Keyboard.Effect (crates P) → List ℕ
  warned (Keyboard.warns w) = flatten (warning w ∷ (b'\n' ∷ []) ∷ [])
  warned (Keyboard.wakes woken) = []

  -- `prints` is what the turn of another task prints, by its id and the machine before the turn.
  module _ (prints : ℕ → Machine P R → List (List ℕ)) where
    -- What a step does with the decoder and the screen: the loop over the stream handles the scancode,
    -- `add_scancode` prints its warnings, the timer's handler a dot, and another task what its turn
    -- prints.
    unfoldable pub output :
        (s t : Machine P R)
        → Step P R task_id s t
        → decoder.Keyboard
        → Writer volatile
        → Outcome Shown
    output s t (polls task q a b c d) k w = ok (k, w)
    output s t (serves id q after world a b c d e) k w = do
      w' ← print volatile w (prints id s)
      ok (k, w')
    output s t (drains a b c) k w = ok (k, w)
    output s t (goes to statics a b c d) k w = ok (k, w)
    output s t (loops scancode a b c) k w = handle_scancode (crates P) volatile decoder scancode k w
    output s t (waits task a b c) k w = ok (k, w)
    output s t (sleeps stage a b c d) k w = ok (k, w)
    output s t (key scancode statics effect q a b c d) k w = do
      w' ← warn (crates P) volatile pics effect w
      ok (k, w')
    output s t (timer a b) k w = do w' ← print volatile w ((b'.' ∷ []) ∷ []); ok (k, w')

    -- the text of it
    unfoldable pub entry : (s t : Machine P R) → Step P R task_id s t → decoder.Keyboard → Printed
    entry s t (polls task q a b c d) k = by_handler []
    entry s t (serves id q after world a b c d e) k = by_other (flatten (prints id s))
    entry s t (drains a b c) k = by_handler []
    entry s t (goes to statics a b c d) k = by_handler []
    entry s t (loops scancode a b c) k =
        by_task (text_of (crates P) volatile decoder k (scancode ∷ [])).0
    entry s t (waits task a b c) k = by_handler []
    entry s t (sleeps stage a b c d) k = by_handler []
    entry s t (key scancode statics effect q a b c d) k = by_handler (warned effect)
    entry s t (timer a b) k = by_handler (flatten ((b'.' ∷ []) ∷ []))

    -- The machine with the decoder, the writer, and the history of what was printed.
    pub record View : Type 0 where
      pub machine : Machine P R
      pub keyboard : decoder.Keyboard
      pub writer : Writer volatile
      pub log : List Printed

    pub data Shows (initial : View) : View → Type 0 where
      start : {v : View} → v ≡ initial → Shows initial v
      later :
          {v u : View}
          → Shows initial v
          → (step : Step P R task_id v.machine u.machine)
          → output v.machine u.machine step v.keyboard v.writer ≡ ok (u.keyboard, u.writer)
          → u.log ≡ v.log ++ (entry v.machine u.machine step v.keyboard ∷ [])
          → Shows initial u
