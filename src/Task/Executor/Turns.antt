-- ===== src/Task/Executor/Turns.antt =====
-- Single turns of the executor's loop.
use taijios.Common.{ℕ, suc, ◌≡◌, inl, inr, refl, arith, ap, ◌∙◌, some, none, [], ok, ◌>>=◌}
use taijios.Task.{Task}
use taijios.Task.Executor.{
  TaskMap, TaskWaker, Progress, Runtime, Executor, cached, insert, settle, wake_all, run_one,
  run_ready_tasks,
}

pub cached-new :
    (m : TaskMap TaskWaker) (id : ℕ) → m id ≡ none → cached m id ≡ record { task_id = id }
unfolding cached
cached-new m id e = rw (cached, e) refl

pub insert_self : {A : Type 0} (m : TaskMap A) (id : ℕ) (a : A) → insert m id a id ≡ some a
unfolding insert
insert_self m id a = ground arith

module _ (R : Runtime) where
  pub run_one-polled :
      (id : ℕ) (e : Executor R) (task : Task R.Future) (world : R.World)
      (p : Progress R.Future R.World)
      → e.tasks id ≡ some task
      → R.poll (cached e.waker_cache id) task.future world ≡ ok p
      → run_one R id e world ≡ (do
        q ← wake_all R p.woken e.task_queue
        ok (
          record {
            tasks = settle p.state e.tasks id (record task { future = p.future });
            task_queue = q;
            waker_cache = settle p.state e.waker_cache id (cached e.waker_cache id);
          },
          p.world,
        ))
  unfolding run_one
  run_one-polled id e task world p known polled = rw (run_one, known, polled) refl

  -- A poll that wakes nothing leaves the queue alone.
  pub run_one-quiet :
      (id : ℕ) (e : Executor R) (task : Task R.Future) (world : R.World)
      (p : Progress R.Future R.World)
      → e.tasks id ≡ some task
      → R.poll (cached e.waker_cache id) task.future world ≡ ok p
      → p.woken ≡ []
      → run_one R id e world
        ≡ ok (
          record {
            tasks = settle p.state e.tasks id (record task { future = p.future });
            task_queue = e.task_queue;
            waker_cache = settle p.state e.waker_cache id (cached e.waker_cache id);
          },
          p.world,
        )
  unfolding wake_all
  run_one-quiet id e task world p known polled quiet =
      let silent : wake_all R p.woken e.task_queue ≡ ok e.task_queue =
        ap (λ l. wake_all R l e.task_queue) quiet in
      run_one-polled id e task world p known polled ∙ rw silent refl

  pub run_ready_tasks-turn :
      (fuel id : ℕ) (e mid : Executor R) (q : R.queue.Queue) (world later : R.World)
      → R.queue.pop e.task_queue ≡ some (id, q)
      → run_one R id (record e { task_queue = q }) world ≡ ok (mid, later)
      → run_ready_tasks R (suc fuel) e world ≡ run_ready_tasks R fuel mid later
  unfolding run_ready_tasks
  run_ready_tasks-turn fuel id e mid q world later popped one =
      rw (run_ready_tasks, popped, one) refl

  pub run_ready_tasks-one :
      (id : ℕ) (e mid : Executor R) (q : R.queue.Queue) (world later : R.World)
      → R.queue.pop e.task_queue ≡ some (id, q)
      → run_one R id (record e { task_queue = q }) world ≡ ok (mid, later)
      → R.queue.items mid.task_queue ≡ []
      → run_ready_tasks R 1 e world ≡ some (ok (mid, later))
  unfolding run_ready_tasks
  run_ready_tasks-one id e mid q world later popped one empty =
      elim (R.queue.pop_law mid.task_queue) [
        | inl (a, q', _, at, _) ↦ absurd cc
        | inr (last, _) ↦ rw (run_ready_tasks, popped, one, last) refl
      ]
