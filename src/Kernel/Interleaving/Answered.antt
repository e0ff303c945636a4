-- ===== src/Kernel/Interleaving/Answered.antt =====
-- Before the processor sleeps, the keyboard task has typed the text of every scancode.
use taijios.Common.{ℕ, List}
use taijios.Vga.{Writer}
use taijios.Vga.Screen.{Screen}
use taijios.Task.Keyboard.Race as Race
use taijios.Task.Executor.Sleep as Sleep
use taijios.Task.Executor.{Runtime}
use taijios.Kernel.{Platform}
use taijios.Kernel.Interleaving.{Machine}
use taijios.Kernel.Interleaving as Steps
use taijios.Kernel.Interleaving.Display.{Printed, View, Shows}

module _ (P : Platform) (R : Runtime) (task_id : ℕ) (prints : ℕ → Machine P R → List (List ℕ)) where
  open P use {volatile, decoder}

  abbrev pub view :
      Machine P R → decoder.Keyboard → Writer volatile → List Printed → View P R task_id prints
  view s k w log = record { machine = s; keyboard = k; writer = w; log = log }
