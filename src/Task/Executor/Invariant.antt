-- ===== src/Task/Executor/Invariant.antt =====
-- The executor's maps agree: tasks are under their ids, and only they have cached wakers.
use taijios.Common.{
  ℕ, zero, suc, ◌≡◌, ◌∙◌, refl, sym, ap, arith, none, some, List, ◌⊎◌, inl, inr, ok, panic,
  ok_unique, Outcome-cases, Option-cases,
}
use mathlib.Core.Path.{subst}
use taijios.Task.{Poll, ready, pending, Task}
use taijios.Task.Executor.{
  TaskMap, TaskWaker, Runtime, Executor, empty, insert, remove, new, spawn, wake_all, cached,
  settle, run_one, run_ready_tasks,
}
use taijios.Task.Executor.Serve.{Own, settle-Own, cached-key}
use taijios.Task.Executor.Spawn.{spawn_cases}

module _ (R : Runtime) where
  open R use {queue, Future, World}

  abbrev Keyed : TaskMap (Task Future) → Type 0
  Keyed tasks = (id : ℕ) (task : Task Future) → tasks id ≡ some task → task.id ≡ id

  -- No cached waker is left without its task.
  abbrev Live : TaskMap (Task Future) → TaskMap TaskWaker → Type 0
  Live tasks waker_cache = (id : ℕ) → tasks id ≡ none → waker_cache id ≡ none

  pub record IsExecutor (self : Executor R) : Type 0 where
    pub keyed : Keyed self.tasks
    pub own : Own self.waker_cache
    pub live : Live self.tasks self.waker_cache

  settle-Keyed :
      (tasks : TaskMap (Task Future)) (id : ℕ) (task : Task Future) (state : Poll)
      → Keyed tasks
      → task.id ≡ id
      → Keyed (settle state tasks id task)
  unfolding settle insert remove
  settle-Keyed tasks id task ready keyed at i other e =
      let old : tasks i ≡ some other → other.id ≡ i = keyed i other in grind arith
  settle-Keyed tasks id task pending keyed at i other e =
      let old : tasks i ≡ some other → other.id ≡ i = keyed i other in grind arith

  settle-Live :
      (tasks : TaskMap (Task Future)) (cache : TaskMap TaskWaker) (id : ℕ) (task : Task Future)
      (waker : TaskWaker) (state : Poll)
      → Live tasks cache
      → Live (settle state tasks id task) (settle state cache id waker)
  unfolding settle insert remove
  settle-Live tasks cache id task waker ready live i e =
      let old : tasks i ≡ none → cache i ≡ none = live i in grind arith
  settle-Live tasks cache id task waker pending live i e =
      let old : tasks i ≡ none → cache i ≡ none = live i in grind arith

  insert-Live :
      (tasks : TaskMap (Task Future)) (cache : TaskMap TaskWaker) (id : ℕ) (task : Task Future)
      → Live tasks cache
      → Live (insert tasks id task) cache
  unfolding insert
  insert-Live tasks cache id task live i e =
      let old : tasks i ≡ none → cache i ≡ none = live i in grind arith

  -- What a poll of a task leaves, where the wakers fit into the queue.
  pub run_one-cases :
      (id : ℕ) (self after : Executor R) (world later : World)
      → run_one R id self world ≡ ok (after, later)
      → (after ≡ self)
        ⊎ ((task : Task Future) × (state : Poll) × (future : Future) × (self.tasks id ≡ some task)
            × (after.tasks ≡ settle state self.tasks id (record task { future = future }))
            × (after.waker_cache ≡ settle state self.waker_cache id (cached self.waker_cache id))
            × (woken : List TaskWaker) × (wake_all R woken self.task_queue ≡ ok after.task_queue))
  unfolding run_one
  run_one-cases id self after world later e = elim (Option-cases (self.tasks id)) [
    | inl at ↦
        let same : run_one R id self world ≡ ok (self, world) = rw (run_one, at) refl in
        inl (ap (λ (p : Executor R × World). p.0) (ok_unique e same))
    | inr (task, at) ↦
        let waker = cached self.waker_cache id in
        elim (Outcome-cases (R.poll waker task.future world)) [
          | inl crashed ↦
              let failed : run_one R id self world ≡ panic = rw (run_one, at, crashed) refl in
              absurd cc
          | inr (p, polled) ↦ elim (Outcome-cases (wake_all R p.woken self.task_queue)) [
            | inl full ↦
                let failed : run_one R id self world ≡ panic =
                  rw (run_one, at, polled, full) refl in
                absurd cc
            | inr (q, woke) ↦
                let same : run_one R id self world
                    ≡ ok (
                      record {
                        tasks = settle p.state self.tasks id (record task { future = p.future });
                        task_queue = q;
                        waker_cache = settle p.state self.waker_cache id waker;
                      },
                      p.world,
                    ) =
                  rw (run_one, at, polled, woke) refl in
                let both = ok_unique e same in
                inr (
                  task,
                  p.state,
                  p.future,
                  at,
                  ap (λ (p : Executor R × World). p.0.tasks) both,
                  ap (λ (p : Executor R × World). p.0.waker_cache) both,
                  p.woken,
                  woke ∙ ap (λ (p : Executor R × World). ok p.0.task_queue) (sym both),
                )
          ]
        ]
  ]

  run_one-IsExecutor :
      (id : ℕ) (self after : Executor R) (world later : World)
      → IsExecutor self
      → run_one R id self world ≡ ok (after, later)
      → IsExecutor after
  run_one-IsExecutor id self after world later good e =
      elim (run_one-cases id self after world later e) [
        | inl same ↦ subst IsExecutor (sym same) good
        | inr (task, state, future, at, tasks, cache, _, _) ↦
            let named =
              ap (λ (w : TaskWaker). w.task_id) (cached-key self.waker_cache id good.own) in
            record {
              keyed = subst Keyed (sym tasks) (
                  settle-Keyed self.tasks id (record task { future = future }) state good.keyed
                    (good.keyed id task at));
              own = subst Own (sym cache) (
                  settle-Own self.waker_cache id (cached self.waker_cache id) state good.own named);
              live =
                  subst (λ m. Live m after.waker_cache) (sym tasks)
                    (subst
                      (λ m. Live (settle state self.tasks id (record task { future = future })) m)
                      (sym cache)
                      (settle-Live self.tasks self.waker_cache id (record task { future = future })
                        (cached self.waker_cache id) state good.live));
            }
      ]

  stops :
      (fuel : ℕ) (self : Executor R) (world : World)
      → queue.pop self.task_queue ≡ none
      → run_ready_tasks R fuel self world ≡ some (ok (self, world))
  unfolding run_ready_tasks
  stops zero self world e = rw (run_ready_tasks, e) refl
  stops (suc fuel) self world e = rw (run_ready_tasks, e) refl

  ended :
      (fuel : ℕ) (self after : Executor R) (world later : World)
      → IsExecutor self
      → queue.pop self.task_queue ≡ none
      → run_ready_tasks R fuel self world ≡ some (ok (after, later))
      → IsExecutor after
  ended fuel self after world later good at e =
      let stop = stops fuel self world at in
      let same : self ≡ after = cc in subst IsExecutor same good

  -- Whatever the futures do, as long as nothing panics: the loop keeps tasks under their ids, each
  -- cached waker its key's, and no cached waker without a task.
  pub run_ready_tasks-IsExecutor :
      (fuel : ℕ) (self after : Executor R) (world later : World)
      → IsExecutor self
      → run_ready_tasks R fuel self world ≡ some (ok (after, later))
      → IsExecutor after
  unfolding run_ready_tasks
  run_ready_tasks-IsExecutor zero self after world later good e =
      elim (Option-cases (queue.pop self.task_queue)) [
        | inl at ↦ ended zero self after world later good at e
        | inr (first, popped) ↦
            let out : run_ready_tasks R 0 self world ≡ none = rw (run_ready_tasks, popped) refl in
            absurd cc
      ]
  run_ready_tasks-IsExecutor (suc fuel) self after world later good e =
      elim (Option-cases (queue.pop self.task_queue)) [
        | inl at ↦ ended (suc fuel) self after world later good at e
        | inr ((id, q), popped) ↦
            let self1 : Executor R = record self { task_queue = q } in
            let good1 : IsExecutor self1 = record {
              keyed = good.keyed;
              own = good.own;
              live = good.live;
            } in
            elim (Outcome-cases (run_one R id self1 world)) [
              | inl failed ↦
                  let out : run_ready_tasks R (suc fuel) self world ≡ some panic =
                    rw (run_ready_tasks, popped, failed) refl in
                  absurd cc
              | inr ((mid, world1), one) ↦
                  let next : run_ready_tasks R (suc fuel) self world
                      ≡ run_ready_tasks R fuel mid world1 =
                    rw (run_ready_tasks, popped, one) refl in
                  run_ready_tasks-IsExecutor fuel mid after world1 later
                    (run_one-IsExecutor id self1 mid world world1 good1 one) (sym next ∙ e)
            ]
      ]

  -- `spawn` keeps it, and a new executor has it.
  pub spawn-IsExecutor :
      (self after : Executor R) (task : Task Future)
      → IsExecutor self
      → spawn R self task ≡ ok after
      → IsExecutor after
  unfolding insert
  spawn-IsExecutor self after task good e = elim (spawn_cases R self task) [
    | inl (_, _, failed) ↦ absurd cc
    | inr (inl (_, _, failed)) ↦ absurd cc
    | inr (inr (_, known, f, tasks, cache, _, _)) ↦ subst IsExecutor (ok_unique f e) (record {
      keyed = subst Keyed (sym tasks) (λ i other at.
          let old : self.tasks i ≡ some other → other.id ≡ i = good.keyed i other in grind arith);
      own = subst Own (sym cache) good.own;
      live =
          subst (λ m. Live m known.waker_cache) (sym tasks)
            (subst (λ m. Live (insert self.tasks task.id task) m) (sym cache)
              (insert-Live self.tasks self.waker_cache task.id task good.live));
    })
  ]

  pub new-IsExecutor : IsExecutor (new R)
  unfolding new empty
  new-IsExecutor = record {
    keyed = λ id task e. absurd cc;
    own = λ id w e. absurd cc;
    live = λ id e. refl;
  }
