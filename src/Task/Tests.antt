-- ===== src/Task/Tests.antt =====
-- Futures that count down and write what they had left, and the theorems at a queue of them.
use taijios.Common.{ℕ, zero, suc, ◌+◌, ◌<◌, ◌≡◌, refl, arith, some, List, [], ◌∷◌}
use taijios.Task.{
  Poll, ready, pending, Futures, Task, SimpleExecutor, new, spawn, task_new, task_id_new, task_poll,
  requeue, run_queue, run,
}
use taijios.Task.Rounds.{round, run-round, work, run-ends}

abbrev count_down : ℕ → List ℕ → Poll × ℕ × List ℕ
count_down zero log = (ready, zero, 0 ∷ log)
count_down (suc n) log = (pending, n, suc n ∷ log)

abbrev counters : Futures
counters = record { Future = ℕ; World = List ℕ; poll = count_down }

abbrev counter : ℕ → ℕ → Task ℕ
counter id n = record { id = id; future = n }

abbrev two : SimpleExecutor counters
two = record { task_queue = counter 0 2 ∷ (counter 1 1 ∷ []) }

spawned :
    spawn counters
      (spawn counters (new counters) (task_new {Future = ℕ} 2 0).0)
      (task_new {Future = ℕ} 1 (task_new {Future = ℕ} 2 0).1).0
    ≡ two
unfolding spawn new task_new task_id_new
spawned = refl

-- The two take turns; the second ends first.
takes_turns : run counters 5 two [] ≡ some (0 ∷ (0 ∷ (1 ∷ (1 ∷ (2 ∷ [])))))
unfolding run run_queue requeue task_poll
takes_turns = refl

count_down-advances :
    (n : ℕ) (log : List ℕ) → (count_down n log).0 ≡ pending → (count_down n log).1 < n
count_down-advances zero log e = absurd cc
count_down-advances (suc n) log e = omega arith

run-round_example :
    run counters (2 + 3) two []
    ≡ run counters 3
        (record { task_queue = (round counters two.task_queue []).0 })
        (round counters two.task_queue []).1
run-round_example = run-round counters two 3 []

run-ends_example :
    (last : List ℕ) × (run counters (work counters (λ n. n) two.task_queue) two [] ≡ some last)
run-ends_example = run-ends counters (λ n. n) count_down-advances two []
