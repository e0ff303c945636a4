-- ===== src/Task/Executor/Serve.antt =====
-- The ready queue as a list: the loop serves task ids in the order in which they were woken.
use mathlib.Core.List.{append_assoc, append-nil}
use taijios.Common.{
  ℕ, zero, suc, ◌+◌, ◌≤◌, ◌≡◌, ◌∙◌, inl, inr, refl, sym, ap, arith, Option, none, some, List, [],
  ◌∷◌, ◌++◌, map, length, length-append, ok, panic, Option-cases,
}
use taijios.Task.{Poll, ready, pending, Task}
use taijios.Task.Executor.{
  TaskMap, TaskWaker, Progress, Runtime, Executor, insert, remove, wake_task, wake_all, cached,
  settle, run_one, run_ready_tasks,
}

abbrev pub ids : List TaskWaker → List ℕ
ids wakers = map (λ (w : TaskWaker). w.task_id) wakers

-- A cached waker is its key's.
abbrev pub Own : TaskMap TaskWaker → Type 0
Own waker_cache = (id : ℕ) (w : TaskWaker) → waker_cache id ≡ some w → w.task_id ≡ id

pub settle-Own :
    (m : TaskMap TaskWaker) (key : ℕ) (w : TaskWaker) (state : Poll)
    → Own m
    → w.task_id ≡ key
    → Own (settle state m key w)
unfolding settle insert remove
settle-Own m key w ready own e id w' f = grind arith
settle-Own m key w pending own e id w' f = grind arith

pub cached-key : (m : TaskMap TaskWaker) (id : ℕ) → Own m → cached m id ≡ record { task_id = id }
unfolding cached
cached-key m id own = elim (Option-cases (m id)) [
  | inl e ↦ rw (cached, e) refl
  | inr (w, e) ↦ rw (cached, e) (ap (λ n. record { task_id = n }) (own id w e))
]

module _ (R : Runtime) where
  open R use {queue, Future, World}

  -- The reference: a list of task ids, without a bound and without cached wakers.
  unfoldable pub serve :
      ℕ → List ℕ → TaskMap (Task Future) → World → Option (TaskMap (Task Future) × World)
  serve fuel [] tasks world = some (tasks, world)
  serve zero (task_id ∷ rest) tasks world = none
  serve (suc fuel) (task_id ∷ rest) tasks world = elim (tasks task_id) [
    | none ↦ serve fuel rest tasks world
    | some task ↦ elim (R.poll (record { task_id = task_id }) task.future world) [
      | panic ↦ none
      | ok p ↦
          serve fuel (rest ++ ids p.woken)
            (settle p.state tasks task_id (record task { future = p.future })) p.world
    ]
  ]

  -- Waking a number of tasks for which the queue has room appends their ids.
  pub wake_all-append :
      (wakers : List TaskWaker) (q : queue.Queue)
      → length (queue.items q) + length wakers ≤ queue.capacity q
      → (q' : queue.Queue) × (wake_all R wakers q ≡ ok q')
        × (queue.items q' ≡ queue.items q ++ ids wakers)
        × (queue.capacity q' ≡ queue.capacity q)
  unfolding wake_all wake_task
  wake_all-append [] q room = (q, refl, sym (append-nil (queue.items q)), refl)
  wake_all-append (w ∷ wakers) q room = elim (queue.push_law q w.task_id) [
    | inl (q1, e, at, kept, _) ↦
        let (q2, e2, at2, cap2) = wake_all-append wakers q1 (
          omega
            (arith, room, kept, ap length at, length-append (queue.items q) (w.task_id ∷ []))) in
        (
          q2,
          rw e e2,
          at2
              ∙ ap (λ l. l ++ ids wakers) at
              ∙ append_assoc (queue.items q) (w.task_id ∷ []) (ids wakers),
          cap2 ∙ kept,
        )
    | inr (_, full) ↦ absurd (omega arith)
  ]

  -- Polls do not panic, and at most `left` wake-ups are to come, on whatever way they go.
  module _ (left : World → ℕ)
      (bounded : (w : TaskWaker) (f : Future) (world : World)
        → (p : Progress Future World) × (R.poll w f world ≡ ok p)
          × (length p.woken + left p.world ≤ left world)) where
    abbrev Served : ℕ → Executor R → World → Executor R → World → Type 0
    Served id self world after later =
        ((fuel : ℕ)
          → serve (suc fuel) (id ∷ queue.items self.task_queue) self.tasks world
            ≡ serve fuel (queue.items after.task_queue) after.tasks later)
        × Own after.waker_cache
        × (queue.capacity after.task_queue ≡ queue.capacity self.task_queue)
        × (length (queue.items after.task_queue) + left later
            ≤ length (queue.items self.task_queue) + left world)

    length-ids : (wakers : List TaskWaker) → length (ids wakers) ≡ length wakers
    length-ids [] = refl
    length-ids (w ∷ wakers) = omega (arith, length-ids wakers)

    served :
        (fuel id : ℕ) (self : Executor R) (task : Task Future) (p : Progress Future World)
        (q : queue.Queue) (world : World)
        → Own self.waker_cache
        → self.tasks id ≡ some task
        → R.poll (cached self.waker_cache id) task.future world ≡ ok p
        → queue.items q ≡ queue.items self.task_queue ++ ids p.woken
        → serve (suc fuel) (id ∷ queue.items self.task_queue) self.tasks world
          ≡ serve fuel
              (queue.items q)
              (settle p.state self.tasks id (record task { future = p.future }))
              p.world
    unfolding serve
    served fuel id self task p q world own e polled at =
        let same : R.poll (record { task_id = id }) task.future world ≡ ok p =
          ap (λ w. R.poll w task.future world) (sym (cached-key self.waker_cache id own))
          ∙ polled in
        rw (serve, e, same, at) refl

    run_one-Served :
        (id : ℕ) (self : Executor R) (world : World)
        → Own self.waker_cache
        → length (queue.items self.task_queue) + left world ≤ queue.capacity self.task_queue
        → (after : Executor R) × (later : World) × (run_one R id self world ≡ ok (after, later))
          × Served id self world after later
    unfolding run_one serve
    run_one-Served id self world own room = elim (Option-cases (self.tasks id)) [
      | inl e ↦
          (self, world, rw (run_one, e) refl, (λ fuel. rw (serve, e) refl, own, refl, omega arith))
      | inr (task, e) ↦
          let waker = cached self.waker_cache id in
          let (p, polled, fewer) = bounded waker task.future world in
          let (q, woke, at, kept) =
            wake_all-append p.woken self.task_queue (omega (arith, room, fewer)) in
          (
            record {
              tasks = settle p.state self.tasks id (record task { future = p.future });
              task_queue = q;
              waker_cache = settle p.state self.waker_cache id waker;
            },
            p.world,
            rw (run_one, e, polled, woke) refl,
            (
              λ fuel. served fuel id self task p q world own e polled at,
              settle-Own self.waker_cache id waker p.state own
                  (ap (λ (w : TaskWaker). w.task_id) (cached-key self.waker_cache id own)),
              kept,
              omega (
                arith,
                fewer,
                ap length at,
                length-append (queue.items self.task_queue) (ids p.woken),
                length-ids p.woken,
              ),
            ),
          )
    ]

    abbrev Ended : ℕ → Executor R → World → Type 0
    Ended fuel self world =
        (after : Executor R) × (later : World) × (run_ready_tasks R fuel self world
          ≡ some (ok (after, later)))
        × (serve fuel (queue.items self.task_queue) self.tasks world ≡ some (after.tasks, later))
        × (queue.items after.task_queue ≡ [])
        × Own after.waker_cache

    run_ready_tasks-Ended :
        (fuel : ℕ) (self : Executor R) (world : World)
        → Own self.waker_cache
        → length (queue.items self.task_queue) + left world ≤ queue.capacity self.task_queue
        → length (queue.items self.task_queue) + left world ≤ fuel
        → Ended fuel self world
    unfolding run_ready_tasks
    run_ready_tasks-Ended zero self world own room enough = elim (queue.pop_law self.task_queue) [
      | inl (a, q, e, at, _) ↦ absurd (omega (arith, enough, ap length at))
      | inr (e, at) ↦
          (self, world, rw (run_ready_tasks, e) refl, rw at (unfold serve in refl), at, own)
    ]
    run_ready_tasks-Ended (suc fuel) self world own room enough =
        elim (queue.pop_law self.task_queue) [
          | inl (id, q, e, at, kept) ↦
              let self1 : Executor R = record self { task_queue = q } in
              let fits : length (queue.items self.task_queue) ≡ suc (length (queue.items q)) =
                ap length at in
              let (mid, world1, one, (same, own1, kept1, fewer)) =
                run_one-Served id self1 world own (omega arith) in
              let (after, later, ran, done, none_left, own2) =
                run_ready_tasks-Ended fuel mid world1 own1 (omega arith) (omega arith) in
              (
                after,
                later,
                rw (run_ready_tasks, e, one) ran,
                ap (λ l. serve (suc fuel) l self.tasks world) at ∙ same fuel ∙ done,
                none_left,
                own2,
              )
          | inr (e, at) ↦
              (self, world, rw (run_ready_tasks, e) refl, rw at (unfold serve in refl), at, own)
        ]

    -- Where no poll panics, cached wakers are their keys', and the queue has room for all wake-ups to
    -- come, the loop ends without a panic, with an empty queue, and it serves the woken tasks as the
    -- reference does: in the order of the wake-ups, each with a waker of its own id, tasks that are
    -- done removed and ids without a task skipped.
    pub run_ready_tasks-serve :
        (fuel : ℕ) (self : Executor R) (world : World)
        → Own self.waker_cache
        → length (queue.items self.task_queue) + left world ≤ queue.capacity self.task_queue
        → length (queue.items self.task_queue) + left world ≤ fuel
        → (after : Executor R) × (later : World) × (run_ready_tasks R fuel self world
            ≡ some (ok (after, later)))
          × (serve fuel (queue.items self.task_queue) self.tasks world ≡ some (after.tasks, later))
          × (queue.items after.task_queue ≡ [])
    run_ready_tasks-serve fuel self world own room enough =
        let (after, later, ran, done, emptied, _) =
          run_ready_tasks-Ended fuel self world own room enough in
        (after, later, ran, done, emptied)
