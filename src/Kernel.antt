-- ===== src/Kernel.antt =====
-- src/main.rs: the two tasks that `kernel_main` spawns, and the executor that runs them.
pub mod Handler
pub mod Keypress
pub mod Keys
pub mod Boot
pub mod Interleaving
mod Tests
use taijios.Common.{
  ℕ, suc, Option, none, some, List, [], ◌∷◌, ◌++◌, length, Outcome, ok, panic, ◌>>=◌,
}
use taijios.Sync.{ArrayQueue, AtomicWaker, OnceCell}
use taijios.Vga.{Volatile, Writer, print}
use taijios.Interrupts.{ChainedPics}
use taijios.Task.{ready, pending}
use taijios.Task.Keyboard.{Crates, Statics}
use taijios.Task.Keyboard.Keypresses.{Decoder, poll_loop, print_keypresses}
use taijios.Task.Executor.{TaskWaker, Progress, Runtime, Executor, new}
use taijios.Task.Executor.Spawn.{spawn_all}

-- The crates that the kernel uses, and the pieces in which a `u32` is formatted.
pub record Platform : Type 1 where
  pub scancodes : ArrayQueue ℕ
  pub cell : OnceCell scancodes.Queue
  pub atomic : AtomicWaker TaskWaker
  pub volatile : Volatile
  pub pics : ChainedPics
  pub decoder : Decoder
  pub ready_queue : ArrayQueue ℕ
  pub display_u32 : ℕ → List (List ℕ)

-- The crates' types where the wakers are the executor's.
abbrev pub crates : Platform → Crates
crates P = record { queue = P.scancodes; cell = P.cell; Waker = TaskWaker; atomic = P.atomic }

-- `async_number`, which is ready at once
abbrev pub async_number : ℕ
async_number = 89

module _ (P : Platform) where
  open P use {scancodes, cell, atomic, volatile, decoder, ready_queue, display_u32}

  -- The futures of `example_task` and of `print_keypresses`, before and after its first poll.
  pub data Future : Type 0 where
    example_task keypresses : Future
    typing : decoder.Keyboard → Future

  -- What the futures change.
  abbrev pub World : Type 0
  World = Statics (crates P) × Writer volatile

  -- The pieces of `println!("async number: {}", number)`.
  unfoldable pub number_pieces : ℕ → List (List ℕ)
  number_pieces number =
      (b'a' ∷ b's' ∷ b'y' ∷ b'n' ∷ b'c' ∷ b' ' ∷ b'n' ∷ b'u' ∷ b'm' ∷ b'b' ∷ b'e' ∷ b'r' ∷ b':'
        ∷ b' ' ∷ [])
      ∷ (display_u32 number ++ ((b'\n' ∷ []) ∷ []))

  -- Enough polls of the stream for the scancodes that wait.
  unfoldable pub waiting : Statics (crates P) → ℕ
  waiting statics = elim (cell.try_get statics.scancode_queue) [
    | none ↦ 1
    | some q ↦ suc (length (scancodes.items q))
  ]

  -- The keyboard task is pending behind its loop, and never ready.
  unfoldable pub looped :
      Option (Outcome (decoder.Keyboard × Statics (crates P) × Writer volatile))
      → Outcome (Progress Future World)
  looped none = panic
  looped (some panic) = panic
  looped (some (ok (keyboard, statics, writer))) =
      ok (record {
        state = pending;
        future = typing keyboard;
        world = (statics, writer);
        woken = [];
      })

  unfoldable pub kernel_poll : TaskWaker → Future → World → Outcome (Progress Future World)
  kernel_poll w example_task world = do
    writer ← print volatile world.1 (number_pieces async_number)
    ok (record { state = ready; future = example_task; world = (world.0, writer); woken = [] })
  kernel_poll w keypresses world =
      looped (print_keypresses (crates P) volatile decoder (waiting world.0) w world.0 world.1)
  kernel_poll w (typing keyboard) world =
      looped (poll_loop (crates P) volatile decoder (waiting world.0) w keyboard world.0 world.1)

  abbrev pub runtime : Runtime
  runtime = record { queue = ready_queue; Future = Future; World = World; poll = kernel_poll }

  -- The executor that `kernel_main` runs.
  unfoldable pub kernel_executor : ℕ → Outcome (Executor runtime × ℕ)
  kernel_executor next_id = spawn_all runtime (example_task ∷ keypresses ∷ []) (new runtime) next_id
