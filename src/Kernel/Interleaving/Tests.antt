-- ===== src/Kernel/Interleaving/Tests.antt =====
-- The machine with plain data: a key press that wakes the keyboard task, until the processor sleeps.
use mathlib.Core.List.{Mem}
use taijios.Common.{
  ℕ, zero, suc, ◌+◌, ◌-◌, ◌≡◌, refl, arith, true, false, none, some, List, [], ◌∷◌, ◌++◌, replicate,
  panic,
}
use taijios.Sync.Plain.{Bounded}
use taijios.Task.{pending}
use taijios.Task.Keyboard as Keyboard
use taijios.Task.Executor.Sleep as Sleep
use taijios.Task.Executor.{Runtime, Executor, cached, insert, settle, run_one, wake_all, wake_task}
use taijios.Kernel.{crates, typing, runtime}
use taijios.Kernel.Tests.{platform, holding, waker, closed, writer}
use taijios.Kernel.Interleaving.{
  in_loop, polling, Machine, woken_by, resumed, polls, serves, drains, goes, loops, waits, sleeps,
  key, Reach, start, later,
}
use taijios.Kernel.Interleaving.Drained.{Begins, asleep-drained, waiting-queued}
use taijios.Kernel.Interleaving.Display.{Shows}
use taijios.Kernel.Interleaving.Overflow.{keyboard_task-overflows}

abbrev R : Runtime
R = runtime platform

-- The ready queue has room for three ids.
abbrev small : List ℕ → Bounded ℕ
small items = record { items = items; capacity = 3 }

abbrev begun : Machine platform R
begun = record {
  stage = polling;
  interrupts = true;
  keyboard = record {
    statics = record { scancode_queue = some (holding []); waker = none };
    stage = Keyboard.called;
    accepted = [];
    delivered = [];
    notified = false;
  };
  executor = record {
    tasks = λ id. elim id [ zero ↦ none | suc n ↦ some (record { id = 1; future = typing 0 }) ];
    task_queue = small (0 ∷ []);
    waker_cache = λ id. some waker;
  };
  world = (closed, writer);
}

begun-Begins : Begins platform R 1 begun
unfolding cached
begun-Begins = record {
  stage = refl;
  enabled = refl;
  poll = refl;
  q = holding [];
  opened = refl;
  none_waits = refl;
  none_pressed = refl;
  none_read = refl;
  known = (record { id = 1; future = typing 0 }, refl);
  waker = refl;
}

-- The executor after the keyboard task waited.
abbrev waited : Executor R → Executor R
waited e = record e {
  tasks = settle pending e.tasks 1 (record { id = 1; future = typing 0 });
  waker_cache = settle pending e.waker_cache 1 (cached e.waker_cache 1);
}

-- A key was pressed after the poll.
abbrev pressed : Machine platform R
pressed = record {
  stage = in_loop Sleep.running;
  interrupts = true;
  keyboard = record {
    statics = record { scancode_queue = some (holding (30 ∷ [])); waker = none };
    stage = Keyboard.returned Keyboard.pending;
    accepted = 30 ∷ [];
    delivered = [];
    notified = true;
  };
  executor = record (waited begun.executor) { task_queue = small (0 ∷ (1 ∷ [])) };
  world = (closed, writer);
}

-- After a key press the task has taken the scancode and waits again.
abbrev slept : Machine platform R
slept = record {
  stage = in_loop Sleep.asleep;
  interrupts = true;
  keyboard = record {
    statics = record { scancode_queue = some (holding []); waker = some waker };
    stage = Keyboard.returned Keyboard.pending;
    accepted = 30 ∷ [];
    delivered = 30 ∷ [];
    notified = false;
  };
  executor = record (waited (waited begun.executor)) { task_queue = small [] };
  world = (closed, writer);
}

-- The poll waits and a key is pressed.
begun-pressed : Reach platform R 1 begun pressed
unfolding Keyboard.poll_step Keyboard.pop_scancode Keyboard.register Keyboard.add_scancode woken_by
    wake_all wake_task resumed Sleep.sleep_step cached settle insert
begun-pressed =
    let s0 : Reach platform R 1 begun begun = start refl in
    let s1 = later s0 (goes Keyboard.missed _ refl (λ r e. absurd cc) refl refl) in
    let s2 = later s1 (goes Keyboard.registered _ refl (λ r e. absurd cc) refl refl) in
    let s3 =
      later s2 (goes (Keyboard.returned Keyboard.pending) _ refl (λ r e. absurd cc) refl refl) in
    let s4 = later s3 (waits (record { id = 1; future = typing 0 }) refl refl refl) in
    let s5 = later s4 (key 30 _ _ (small (0 ∷ (1 ∷ []))) refl refl refl refl) in s5

-- The turn of id 0, and the loop until it halts.
begun-slept : Reach platform R 1 begun slept
unfolding Keyboard.poll_step Keyboard.pop_scancode Keyboard.register Sleep.sleep_step cached settle
    insert run_one
begun-slept =
    let served =
      later begun-pressed
        (serves 0 (small (1 ∷ [])) _ _ refl refl (λ e. absurd (omega (arith, e))) refl refl) in
    let s6 =
      later served (polls (record { id = 1; future = typing 0 }) (small []) refl refl refl refl) in
    let s7 =
      later s6 (goes (Keyboard.returned (Keyboard.ready 30)) _ refl (λ r e. absurd cc) refl refl) in
    let s8 = later s7 (loops 30 refl refl refl) in
    let s9 = later s8 (goes Keyboard.missed _ refl (λ r e. absurd cc) refl refl) in
    let s10 = later s9 (goes Keyboard.registered _ refl (λ r e. absurd cc) refl refl) in
    let s11 =
      later s10 (goes (Keyboard.returned Keyboard.pending) _ refl (λ r e. absurd cc) refl refl) in
    let s12 = later s11 (waits (record { id = 1; future = typing 0 }) refl refl refl) in
    let s13 = later s12 (drains refl refl refl) in
    let s14 = later s13 (sleeps Sleep.disabling refl (λ e. absurd cc) (λ e. absurd cc) refl) in
    let s15 = later s14 (sleeps Sleep.checking refl (λ e. absurd cc) (λ e. absurd cc) refl) in
    let s16 = later s15 (sleeps Sleep.halting refl (λ e. absurd cc) (λ e. absurd cc) refl) in s16

asleep-drained_example :
    (slept.interrupts ≡ true)
    × (slept.executor.task_queue.items ≡ [])
    × (slept.keyboard.statics.waker ≡ some waker)
    × (q : Bounded ℕ) × (slept.keyboard.statics.scancode_queue ≡ some q)
    × (q.items ≡ [])
    × (slept.keyboard.delivered ≡ slept.keyboard.accepted)
asleep-drained_example = asleep-drained platform R 1 begun slept begun-Begins begun-slept refl

waiting-queued_example : Mem 1 pressed.executor.task_queue.items
waiting-queued_example =
    waiting-queued platform R 1 begun pressed Sleep.running (holding (30 ∷ [])) begun-Begins
      begun-pressed refl refl (omega arith)

keyboard_task-overflows_example :
    (s : Machine platform R) × (opened : Bounded ℕ) × Reach platform R 1 begun s
    × (s.interrupts ≡ true)
    × (s.keyboard.statics.scancode_queue ≡ some opened)
    × (opened.items ≡ [])
    × (s.executor.task_queue.items ≡ (0 ∷ []) ++ replicate (3 - 1) 1)
    × (wake_all R
          (woken_by platform R (Keyboard.add_scancode (crates platform) s.keyboard.statics 30).1)
          s.executor.task_queue
        ≡ panic)
keyboard_task-overflows_example =
    keyboard_task-overflows platform R 1 begun 30 (holding []) begun-Begins refl (omega arith)
      (omega arith)

-- Each turn of another task prints its id as a digit.
abbrev greets : ℕ → Machine platform R → List (List ℕ)
greets id s = ((b'0' + id) ∷ []) ∷ []
