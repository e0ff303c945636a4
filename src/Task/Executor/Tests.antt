-- ===== src/Task/Executor/Tests.antt =====
-- The executor with futures that wake themselves while a timer runs.
use taijios.Common.{
  ℕ, zero, suc, ◌+◌, ◌≤◌, ◌≡◌, refl, arith, true, false, none, some, List, [], ◌∷◌, length, Outcome,
  ok,
}
use taijios.Sync.Plain.{plain_queue, Bounded}
use taijios.Task.{ready, pending, Task}
use taijios.Task.Executor.{
  TaskWaker, Progress, Runtime, Executor, empty, remove, cached, settle, wake_task, wake_all,
  run_one, run_ready_tasks,
}
use taijios.Task.Executor.Serve.{serve, run_ready_tasks-serve}
use taijios.Task.Executor.Invariant.{IsExecutor, run_ready_tasks-IsExecutor}
use taijios.Task.Executor.Sleep.{
  running, disabling, checking, halting, asleep, Machine, Reach, start, later, ran, sleeps,
  interrupt, asleep-empty, steps, ready-runs, sleep_step,
}

-- A future is its number; the world counts the ticks that are left.
abbrev tick : TaskWaker → ℕ → ℕ → Outcome (Progress ℕ ℕ)
tick waker future zero = ok (record { state = ready; future = future; world = zero; woken = [] })
tick waker future (suc n) =
    ok (record { state = pending; future = suc future; world = n; woken = waker ∷ [] })

abbrev timers : Runtime
timers = record { queue = plain_queue ℕ; Future = ℕ; World = ℕ; poll = tick }

tick-bounded :
    (w : TaskWaker) (f world : ℕ)
    → (p : Progress ℕ ℕ) × (tick w f world ≡ ok p) × (length p.woken + p.world ≤ world)
tick-bounded w f zero = (_, refl, omega arith)
tick-bounded w f (suc n) = (_, refl, omega arith)

abbrev holding : List ℕ → Bounded ℕ
holding items = record { items = items; capacity = 100 }

abbrev one : Executor timers
one = record {
  tasks = λ id. elim id [ zero ↦ some (record { id = 0; future = 5 }) | suc n ↦ none ];
  task_queue = holding (0 ∷ []);
  waker_cache = empty;
}

run_ready_tasks-serve_example :
    (after : Executor timers) × (last : ℕ) × (run_ready_tasks timers 4 one 3
      ≡ some (ok (after, last)))
    × (serve timers 4 (0 ∷ []) one.tasks 3 ≡ some (after.tasks, last))
    × (after.task_queue.items ≡ [])
run_ready_tasks-serve_example =
    run_ready_tasks-serve timers (λ n. n) tick-bounded 4 one 3
      (λ id w e. absurd (unfold empty in let f : none ≡ some w = e in cc)) (omega arith)
      (omega arith)

abbrev idle : Executor timers
idle = record { tasks = one.tasks; task_queue = holding []; waker_cache = empty }

idle-IsExecutor : IsExecutor timers idle
unfolding empty
idle-IsExecutor = record {
  keyed = λ id task e. keyed id task e;
  own = λ id w e. absurd cc;
  live = λ id e. refl;
}
  where
    keyed : (id : ℕ) (task : Task ℕ) → one.tasks id ≡ some task → task.id ≡ id
    keyed zero task e = cc
    keyed (suc id) task e = absurd cc

-- With no tick left, the task is done at once.
finished :
    run_ready_tasks timers 1 one 0
    ≡ some (
        ok (
          record {
            tasks = remove one.tasks 0;
            task_queue = holding [];
            waker_cache = remove one.waker_cache 0;
          },
          0,
        ))
unfolding run_ready_tasks run_one settle wake_all cached
finished = refl

one-IsExecutor : IsExecutor timers one
one-IsExecutor = record {
  keyed = idle-IsExecutor.keyed;
  own = idle-IsExecutor.own;
  live = idle-IsExecutor.live;
}

run_ready_tasks-IsExecutor_example : IsExecutor timers (record {
  tasks = remove one.tasks 0;
  task_queue = holding [];
  waker_cache = remove one.waker_cache 0;
})
run_ready_tasks-IsExecutor_example =
    run_ready_tasks-IsExecutor timers 1 one
      (record {
        tasks = remove one.tasks 0;
        task_queue = holding [];
        waker_cache = remove one.waker_cache 0;
      })
      0 0 one-IsExecutor finished

abbrev booted : Machine timers
booted = record { stage = running; interrupts = true; executor = idle; world = 3 }

abbrev slept : Machine timers
slept = record booted { stage = asleep }

to_checking : Reach timers booted (record booted { stage = checking; interrupts = false })
unfolding run_ready_tasks sleep_step
to_checking =
    later (later (start refl) (ran 0 idle 3 refl refl refl))
      (sleeps (λ e. absurd cc) (λ e. absurd cc) refl)

to_halting : Reach timers booted (record booted { stage = halting; interrupts = false })
unfolding sleep_step
to_halting = later to_checking (sleeps (λ e. absurd cc) (λ e. absurd cc) refl)

to_sleep : Reach timers booted slept
unfolding sleep_step
to_sleep = later to_halting (sleeps (λ e. absurd cc) (λ e. absurd cc) refl)

asleep-empty_example : (slept.executor.task_queue.items ≡ []) × (slept.interrupts ≡ true)
asleep-empty_example = asleep-empty timers booted slept refl refl to_sleep refl

-- A task is woken behind `run_ready_tasks`, before interrupts are disabled.
abbrev woken : Machine timers
woken = record { stage = disabling; interrupts = true; executor = one; world = 3 }

to_woken : Reach timers booted woken
unfolding run_ready_tasks wake_all wake_task
to_woken =
    later (later (start refl) (ran 0 idle 3 refl refl refl))
      (interrupt (record { task_id = 0 } ∷ []) (holding (0 ∷ [])) refl refl refl)

ready-runs_example : steps timers 3 woken ≡ record woken { stage = running; interrupts = true }
ready-runs_example = ready-runs timers booted woken refl refl to_woken (omega arith)
