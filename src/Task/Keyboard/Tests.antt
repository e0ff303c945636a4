-- ===== src/Task/Keyboard/Tests.antt =====
-- The scancode queue on concrete scancodes, with the crates' types as plain data.
use mathlib.Core.List.{flatten}
use taijios.Common.{ℕ, zero, suc, ◌≡◌, refl, arith, true, Option, none, some, List, [], ◌∷◌, ok}
use taijios.Sync.Plain.{plain_queue, plain_waker, plain_cell, Bounded}
use taijios.Task.Keyboard.{
  Crates, pending, Statics, wakes, add_scancode, pop_scancode, register, stream_new, missed,
  registered, returned, poll_step,
}
use taijios.Task.Keyboard.Race.{Machine, Reach, start, later, poll, interrupt}
use taijios.Task.Keyboard.Wakeups.{begin, no_lost_wakeup}
use taijios.Vga.{Volatile, ScreenChar, Writer}
use taijios.Task.Keyboard.Keypresses.{Decoder, unicode}
use taijios.Task.Keyboard.Keypresses.Typing.{text_of}

abbrev plain : Crates
plain = record {
  queue = plain_queue ℕ;
  cell = plain_cell (Bounded ℕ);
  Waker = ℕ;
  atomic = plain_waker ℕ;
}

abbrev holding : List ℕ → Bounded ℕ
holding items = record { items = items; capacity = 100 }

abbrev closed : Statics plain
closed = record { scancode_queue = none; waker = none }

abbrev opened : Statics plain
opened = record { scancode_queue = some (holding []); waker = none }

-- The task polls, finds nothing, and registers its waker 7; a scancode comes before its second pop.
abbrev pressed : Machine plain
pressed = record {
  statics = record { scancode_queue = some (holding (30 ∷ [])); waker = none };
  stage = registered;
  accepted = 30 ∷ [];
  delivered = [];
  notified = true;
}

-- It returned `Pending`, and then a scancode comes.
abbrev waiting : Machine plain
waiting = record pressed { stage = returned pending }

made : stream_new plain closed ≡ ok opened
unfolding stream_new
made = refl

waits : Reach plain 7 (begin plain opened) waiting
unfolding poll_step pop_scancode register add_scancode
waits =
    later
      (later
        (later (later (start refl) (poll missed opened (λ r e. absurd cc) refl refl))
          (poll registered (record opened { waker = some 7 }) (λ r e. absurd cc) refl refl))
        (poll (returned pending) (record opened { waker = some 7 }) (λ r e. absurd cc) refl refl))
      (interrupt 30 pressed.statics (wakes (some 7)) refl refl)

no_lost_wakeup_example : waiting.notified ≡ true
no_lost_wakeup_example =
    no_lost_wakeup plain 7 closed refl made (holding (30 ∷ [])) waits refl refl (omega arith)

abbrev both : List ℕ
both = 30 ∷ 31 ∷ []

abbrev typed : Statics plain
typed = record { scancode_queue = some (holding both); waker = none }

-- A keyboard whose scancodes are the characters, but for 0, which is an error, and 1, which is no key.
abbrev add_byte : ℕ → ℕ → Option (Option ℕ) × ℕ
add_byte n zero = (none, n)
add_byte n (suc zero) = (some none, n)
add_byte n (suc (suc c)) = (some (some (suc (suc c))), suc n)

abbrev characters : Decoder
characters = record {
  Keyboard = ℕ;
  KeyEvent = ℕ;
  KeyCode = ℕ;
  new = 0;
  add_byte = add_byte;
  process_keyevent = λ n c. (some (unicode c), n);
  display = λ c. (c ∷ []) ∷ [];
  debug = λ c. (c ∷ []) ∷ [];
}

abbrev cells : Volatile
cells = record {
  Cell = ScreenChar;
  read = λ cell. cell;
  write = λ _ c. c;
  read-write = λ _ _. refl;
}

abbrev writer : Writer cells
writer = record {
  column_position = 0;
  color_code = 14;
  buffer = λ i k. record { ascii_character = b' '; color_code = 14 };
}

typed_text : text_of plain cells characters 0 (1 ∷ both) ≡ (both, 2)
unfolding text_of flatten
typed_text = refl
