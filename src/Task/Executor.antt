-- ===== src/Task/Executor.antt =====
-- src/task/executor.rs: the executor that polls the tasks which were woken.
pub mod Serve
pub mod Turns
pub mod Invariant
pub mod Keeps
pub mod Spawn
pub mod Sleep
mod Tests
use taijios.Common.{
  ℕ, zero, suc, ◌+◌, Bool, Option, none, some, List, [], ◌∷◌, Outcome, ok, panic, ◌>>=◌, expect,
  if◌then◌else◌, ◌==◌,
}
use taijios.Sync.{ArrayQueue}
use taijios.Task.{Poll, ready, pending, Task, task_new}

-- `BTreeMap<TaskId, A>` as a function
abbrev pub TaskMap : Type 0 → Type 0
TaskMap A = ℕ → Option A

unfoldable pub empty : {A : Type 0} → TaskMap A
empty id = none

unfoldable pub insert : {A : Type 0} → TaskMap A → ℕ → A → TaskMap A
insert m key a id = if id == key then some a else m id

unfoldable pub remove : {A : Type 0} → TaskMap A → ℕ → TaskMap A
remove m key id = if id == key then none else m id

-- Every `TaskWaker` shares the executor's `task_queue`, which is an argument of its operations.
pub record TaskWaker : Type 0 where
  pub task_id : ℕ

-- `waker_cache.entry(task_id).or_insert_with(…)`
unfoldable pub cached : TaskMap TaskWaker → ℕ → TaskWaker
cached waker_cache task_id = elim (waker_cache task_id) [
  | some waker ↦ waker
  | none ↦ record { task_id = task_id }
]

-- the tasks and the cache behind a poll
unfoldable pub settle : {A : Type 0} → Poll → TaskMap A → ℕ → A → TaskMap A
settle ready m id a = remove m id
settle pending m id a = insert m id a

-- What a poll leaves, and the wakers that were woken meanwhile, in order: by the future itself and
-- by the interrupt handlers that ran.
pub record Progress (Future World : Type 0) : Type 0 where
  pub state : Poll
  pub future : Future
  pub world : World
  pub woken : List TaskWaker

-- The task ids' queue, and `dyn Future<Output = ()>`, whose poll is given a waker.
pub record Runtime : Type 1 where
  pub queue : ArrayQueue ℕ
  pub Future : Type 0
  pub World : Type 0
  pub poll : TaskWaker → Future → World → Outcome (Progress Future World)

module _ (R : Runtime) where
  open R use {queue, Future, World}

  pub record Executor : Type 0 where
    pub tasks : TaskMap (Task Future)
    pub task_queue : queue.Queue
    pub waker_cache : TaskMap TaskWaker

  unfoldable pub new : Executor
  new = record { tasks = empty; task_queue = queue.new 100; waker_cache = empty }

  unfoldable pub spawn : Executor → Task Future → Outcome Executor
  spawn self task = elim (self.tasks task.id) [
    | some other ↦ panic
    | none ↦ do
      q ← expect (queue.push self.task_queue task.id)
      ok (record self { tasks = insert self.tasks task.id task; task_queue = q })
  ]

  -- `TaskWaker::wake_task`, which `wake` and `wake_by_ref` call
  unfoldable pub wake_task : TaskWaker → queue.Queue → Outcome queue.Queue
  wake_task self q = expect (queue.push q self.task_id)

  unfoldable pub wake_all : List TaskWaker → queue.Queue → Outcome queue.Queue
  wake_all [] q = ok q
  wake_all (waker ∷ wakers) q = do q' ← wake_task waker q; wake_all wakers q'

  -- The body of the loop, on a task id that was popped.
  unfoldable pub run_one : ℕ → Executor → World → Outcome (Executor × World)
  run_one task_id self world = elim (self.tasks task_id) [
    | none ↦ ok (self, world)
    | some task ↦
        let waker = cached self.waker_cache task_id in
        do
          p ← R.poll waker task.future world
          q ← wake_all p.woken self.task_queue
          ok (
            record {
              tasks = settle p.state self.tasks task_id (record task { future = p.future });
              task_queue = q;
              waker_cache = settle p.state self.waker_cache task_id waker;
            },
            p.world,
          )
  ]

  -- The loop, on at most `fuel` task ids; none when these are used up before it ends.
  unfoldable pub run_ready_tasks : ℕ → Executor → World → Option (Outcome (Executor × World))
  run_ready_tasks zero self world = elim (queue.pop self.task_queue) [
    | none ↦ some (ok (self, world))
    | some _ ↦ none
  ]
  run_ready_tasks (suc fuel) self world = elim (queue.pop self.task_queue) [
    | none ↦ some (ok (self, world))
    | some (task_id, q) ↦ elim (run_one task_id (record self { task_queue = q }) world) [
      | ok (self', world') ↦ run_ready_tasks fuel self' world'
      | panic ↦ some panic
    ]
  ]
