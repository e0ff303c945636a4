-- ===== src/Task/Keyboard/Keypresses.antt =====
-- src/task/keyboard.rs: `print_keypresses`, which prints what the keys stand for.
pub mod Typing
pub mod Scancodes
use mathlib.Core.List.{append_assoc, append-nil, flatten}
use mathlib.Core.Path.{subst}
use taijios.Common.{
  ℕ, zero, suc, ◌+◌, ◌≤◌, ◌<◌, ◌≡◌, ◌⊎◌, ◌∙◌, inl, inr, refl, sym, ap, arith, Option, none, some,
  List, [], ◌∷◌, ◌++◌, length, Outcome, ok, panic, ◌>>=◌, expect,
}
use taijios.Sync.{ArrayQueue, AtomicWaker, OnceCell}
use taijios.Vga.{Volatile, Writer, print, write_string}
use taijios.Vga.Screen.{Screen, type_string}
use taijios.Vga.Shows.{Typed, write_string-Shows, print-write_string}
use taijios.Vga.Layout.{type_string-append}
use taijios.Task.Keyboard.{
  Crates, Polled, pending, ready, Statics, stream_new, poll_next, pop_scancode, register,
}
use taijios.Task.Keyboard.Cases.{pop_scancode-cases}
use taijios.Task.Keyboard.Wakeups.{poll_next_cases}

pub data DecodedKey (KeyCode : Type 0) : Type 0 where
  unicode : ℕ → DecodedKey KeyCode
  raw_key : KeyCode → DecodedKey KeyCode

-- `Keyboard` of the crate pc-keyboard. `add_byte` yields none for an error. `display` and `debug`
-- are the pieces that formatting hands to the writer.
pub record Decoder : Type 1 where
  pub Keyboard : Type 0
  pub KeyEvent : Type 0
  pub KeyCode : Type 0
  pub new : Keyboard
  pub add_byte : Keyboard → ℕ → Option (Option KeyEvent) × Keyboard
  pub process_keyevent : Keyboard → KeyEvent → Option (DecodedKey KeyCode) × Keyboard
  pub display : ℕ → List (List ℕ)
  pub debug : KeyCode → List (List ℕ)

module _ (C : Crates) (V : Volatile) (D : Decoder) where
  open C use {queue, cell, atomic, Waker}
  open D use {Keyboard, KeyEvent, KeyCode}

  -- `print!` of a key
  unfoldable pub print_key : DecodedKey KeyCode → Writer V → Outcome (Writer V)
  print_key (unicode character) writer = print V writer (D.display character)
  print_key (raw_key key) writer = print V writer (D.debug key)

  unfoldable pub handle_key :
      Option (DecodedKey KeyCode) → Keyboard → Writer V → Outcome (Keyboard × Writer V)
  handle_key none keyboard writer = ok (keyboard, writer)
  handle_key (some key) keyboard writer = do writer' ← print_key key writer; ok (keyboard, writer')

  unfoldable pub handle_event :
      Option (Option KeyEvent) → Keyboard → Writer V → Outcome (Keyboard × Writer V)
  handle_event none keyboard writer = ok (keyboard, writer)
  handle_event (some none) keyboard writer = ok (keyboard, writer)
  handle_event (some (some key_event)) keyboard writer =
      let (decoded, keyboard') = D.process_keyevent keyboard key_event in
      handle_key decoded keyboard' writer

  -- The body of the loop, on a scancode.
  unfoldable pub handle_scancode : ℕ → Keyboard → Writer V → Outcome (Keyboard × Writer V)
  handle_scancode scancode keyboard writer =
      let (result, keyboard') = D.add_byte keyboard scancode in handle_event result keyboard' writer

  -- One poll of the loop, on at most `fuel` polls of the stream: until the stream is pending.
  unfoldable pub poll_loop :
      ℕ
      → Waker
      → Keyboard
      → Statics C
      → Writer V
      → Option (Outcome (Keyboard × Statics C × Writer V))
  poll_loop zero w keyboard self writer = none
  poll_loop (suc fuel) w keyboard self writer = elim (poll_next C w self) [
    | panic ↦ some panic
    | ok (pending, self1) ↦ some (ok (keyboard, self1, writer))
    | ok (ready scancode, self1) ↦ elim (handle_scancode scancode keyboard writer) [
      | panic ↦ some panic
      | ok (keyboard1, writer1) ↦ poll_loop fuel w keyboard1 self1 writer1
    ]
  ]

  -- The first poll: it makes the stream and the keyboard.
  unfoldable pub print_keypresses :
      ℕ → Waker → Statics C → Writer V → Option (Outcome (Keyboard × Statics C × Writer V))
  print_keypresses fuel w self writer = elim (stream_new C self) [
    | panic ↦ some panic
    | ok self1 ↦ poll_loop fuel w D.new self1 writer
  ]
