-- ===== src/Kernel/Tests.antt =====
-- The kernel with plain data for the crates' types: from its start to a key press.
use mathlib.Core.List.{flatten}
use taijios.Common.{ℕ, zero, suc, ◌≡◌, refl, arith, none, some, List, [], ◌∷◌, ◌++◌, ok, panic}
use taijios.Sync.Plain.{plain_queue, plain_waker, plain_cell, Bounded}
use taijios.Vga.{Volatile, ScreenChar, Writer}
use taijios.Vga.Screen.{type_string}
use taijios.Vga.Println.{screen_of, screen_of-Typed}
use taijios.Task.Keyboard.{Statics, add_scancode}
use taijios.Task.Keyboard.Keypresses.{Decoder, unicode}
use taijios.Task.Keyboard.Keypresses.Typing.{text_of}
use taijios.Task.Executor.{TaskWaker, Executor, wake_task, run_ready_tasks}
use taijios.Interrupts.{ChainedPics, Machine, warn, wake_stored, keyboard_interrupt_handler, as_u8}
use taijios.Kernel.{Platform, crates, typing, runtime, kernel_executor, number_pieces}
use taijios.Kernel.Handler.{on_key}
use taijios.Kernel.Boot.{boot_to_idle}
use taijios.Kernel.Keypress.{Idle}
use taijios.Kernel.Keys.{press_all, keys_reach_screen}

-- The PICs as the list of what was acknowledged.
abbrev log_pics : ChainedPics
log_pics = record { Pics = List ℕ; notify_end_of_interrupt = λ log vector. log ++ (vector ∷ []) }

-- A keyboard whose scancodes are the characters.
abbrev pub characters : Decoder
characters = record {
  Keyboard = ℕ;
  KeyEvent = ℕ;
  KeyCode = ℕ;
  new = 0;
  add_byte = λ n c. (some (some c), suc n);
  process_keyevent = λ n c. (some (unicode c), n);
  display = λ c. (c ∷ []) ∷ [];
  debug = λ c. (c ∷ []) ∷ [];
}

abbrev pub cells : Volatile
cells = record {
  Cell = ScreenChar;
  read = λ cell. cell;
  write = λ _ c. c;
  read-write = λ _ _. refl;
}

abbrev pub platform : Platform
platform = record {
  scancodes = plain_queue ℕ;
  cell = plain_cell (Bounded ℕ);
  atomic = plain_waker TaskWaker;
  volatile = cells;
  pics = log_pics;
  decoder = characters;
  ready_queue = plain_queue ℕ;
  display_u32 = λ n. (n ∷ []) ∷ [];
}

abbrev pub writer : Writer cells
writer = record {
  column_position = 0;
  color_code = 14;
  buffer = λ i k. record { ascii_character = b' '; color_code = 14 };
}

abbrev pub holding : List ℕ → Bounded ℕ
holding items = record { items = items; capacity = 100 }

abbrev pub waker : TaskWaker
waker = record { task_id = 1 }

abbrev waiting : Machine (crates platform) cells log_pics
waiting = record {
  writer = writer;
  statics = record { scancode_queue = some (holding []); waker = some waker };
  pics = [];
}

abbrev pub idle : Executor (runtime platform)
idle = record {
  tasks = λ id. elim id [ zero ↦ none | suc n ↦ some (record { id = 1; future = typing 0 }) ];
  task_queue = holding [];
  waker_cache = λ id. some waker;
}

idle-Idle : Idle platform waiting.statics writer idle waker 0 (screen_of cells writer) 14
idle-Idle = record {
  q = holding [];
  opened = refl;
  none_waits = refl;
  room = omega arith;
  stored = refl;
  typed = screen_of-Typed cells writer (omega arith);
  none_ready = refl;
  space = omega arith;
  known = refl;
  kept = refl;
}

abbrev keys : List ℕ
keys = 30 ∷ (31 ∷ [])

keys_reach_screen_example :
    (self' : Machine (crates platform) cells log_pics) × (e' : Executor (runtime platform))
    × (press_all platform keys (waiting, idle) ≡ some (ok (self', e')))
    × Idle platform self'.statics self'.writer e' waker
        (text_of (crates platform) cells characters 0 keys).1
        (type_string 14
          (text_of (crates platform) cells characters 0 keys).0
          (screen_of cells writer))
        14
keys_reach_screen_example =
    keys_reach_screen platform keys waiting idle waker 0 (screen_of cells writer) 14 idle-Idle

abbrev pub closed : Statics (crates platform)
closed = record { scancode_queue = none; waker = none }

-- With one place left in the ready queue the handler takes it, and with none it panics.
handler_runs :
    (on_key platform 30 waiting (record { items = 5 ∷ []; capacity = 1 }) ≡ panic)
    × (on_key platform 30 waiting (record { items = 5 ∷ []; capacity = 2 })
        ≡ ok (
          record {
            writer = writer;
            statics = record { scancode_queue = some (holding (30 ∷ [])); waker = none };
            pics = 33 ∷ [];
          },
          record { items = 5 ∷ (1 ∷ []); capacity = 2 },
        ))
unfolding keyboard_interrupt_handler warn wake_stored wake_task add_scancode as_u8
handler_runs = (refl, refl)

boot_to_idle_example :
    (e e' : Executor (runtime platform)) × (st' : Statics (crates platform)) × (wr' : Writer cells)
    × (kernel_executor platform 0 ≡ ok (e, 2))
    × (run_ready_tasks (runtime platform) 2 e (closed, writer) ≡ some (ok (e', (st', wr'))))
    × (e'.tasks 0 ≡ none)
    × Idle platform st' wr' e' waker 0
        (type_string 14 (flatten (number_pieces platform 89)) (screen_of cells writer))
        14
boot_to_idle_example =
    boot_to_idle platform closed writer (screen_of cells writer) 14 refl
      (screen_of-Typed cells writer (omega arith))
