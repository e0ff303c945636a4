-- ===== src/Task.antt =====
-- src/task/mod.rs and src/task/simple_executor.rs: task ids, and the executor that polls in turn.
pub mod Rounds
pub mod DummyWaker
pub mod Keyboard
pub mod Executor
mod Tests
use taijios.Common.{ℕ, zero, suc, ◌+◌, ◌%◌, ◌^◌, ◌≡◌, Option, none, some, List, [], ◌∷◌, ◌++◌}

-- `TaskId::new`: `NEXT_ID.fetch_add(1)` returns the counter and advances it, with wrap-around. It is
-- atomic, so calls in parallel are a sequence of calls.
unfoldable pub task_id_new : ℕ → ℕ × ℕ
task_id_new next_id = (next_id, (next_id + 1) % 2 ^ 64)

pub record Task (Future : Type 0) : Type 0 where
  pub id : ℕ
  pub future : Future

-- `Task::new`, on the counter of ids
unfoldable pub task_new : {Future : Type 0} → Future → ℕ → Task Future × ℕ
task_new future next_id =
    let (id, later) = task_id_new next_id in (record { id = id; future = future }, later)

pub data Poll : Type 0 where
  ready pending : Poll

-- `dyn Future<Output = ()>`: polling may change the future and the rest of the machine.
pub record Futures : Type 1 where
  pub Future : Type 0
  pub World : Type 0
  pub poll : Future → World → Poll × Future × World

module _ (F : Futures) where
  open F use {Future, World}

  unfoldable pub task_poll : Task Future → World → Poll × Task Future × World
  task_poll self world =
      let (state, future, later) = F.poll self.future world in
      (state, record self { future = future }, later)

  pub record SimpleExecutor : Type 0 where
    pub task_queue : List (Task Future)

  unfoldable pub new : SimpleExecutor
  new = record { task_queue = [] }

  unfoldable pub spawn : SimpleExecutor → Task Future → SimpleExecutor
  spawn self task = record { task_queue = self.task_queue ++ (task ∷ []) }

  -- The queue and the machine behind one poll of the task at its front.
  unfoldable pub requeue : List (Task Future) → Poll → Task Future → List (Task Future)
  requeue queue ready task = queue
  requeue queue pending task = queue ++ (task ∷ [])

  -- The loop of `run`, on at most `fuel` polls; none when these are used up before it ends.
  unfoldable pub run_queue : ℕ → List (Task Future) → World → Option World
  run_queue fuel [] world = some world
  run_queue zero (task ∷ queue) world = none
  run_queue (suc fuel) (task ∷ queue) world =
      let (state, polled, later) = task_poll task world in
      run_queue fuel (requeue queue state polled) later

  unfoldable pub run : ℕ → SimpleExecutor → World → Option World
  run fuel self world = run_queue fuel self.task_queue world
