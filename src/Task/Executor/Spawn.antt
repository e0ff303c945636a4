-- ===== src/Task/Executor/Spawn.antt =====
-- `Executor::spawn`: tasks are queued in the order in which they are spawned.
use mathlib.Core.List.{append_assoc, append-nil}
use taijios.Common.{
  ℕ, suc, ◌+◌, ◌%◌, ◌^◌, ◌≤◌, ◌<◌, ◌≡◌, ◌⊎◌, ◌∙◌, inl, inr, refl, sym, ap, arith, none, some, List,
  [], ◌∷◌, ◌++◌, length, length-append, Outcome, ok, panic, ◌>>=◌, Option-cases,
}
use taijios.Task.{Task, task_new, task_id_new}
use taijios.Task.Executor.{TaskMap, Runtime, Executor, empty, insert, new, spawn}
use taijios.Task.Rounds.{issued}

issued-suc :
    (n next_id : ℕ)
    → next_id + 1 < 2 ^ 64
    → issued (suc n) next_id ≡ next_id ∷ issued n (next_id + 1)
unfolding issued task_id_new
issued-suc n next_id h =
    let wrap : (next_id + 1) % 2 ^ 64 ≡ next_id + 1 = omega arith in
    ap (λ later. next_id ∷ issued n later) wrap

module _ (R : Runtime) where
  open R use {queue, Future, World}

  -- `spawn` panics on an id that is taken and on a full queue; else the task is in the map under its
  -- id, and its id is last in the queue.
  pub spawn_cases :
      (self : Executor R) (task : Task Future)
      → ((other : Task Future) × (self.tasks task.id ≡ some other) × (spawn R self task ≡ panic))
        ⊎ (((self.tasks task.id ≡ none)
              × (queue.capacity self.task_queue ≤ length (queue.items self.task_queue))
              × (spawn R self task ≡ panic))
            ⊎ ((self.tasks task.id ≡ none)
                × (after : Executor R) × (spawn R self task ≡ ok after)
                × (after.tasks ≡ insert self.tasks task.id task)
                × (after.waker_cache ≡ self.waker_cache)
                × (queue.items after.task_queue ≡ queue.items self.task_queue ++ (task.id ∷ []))
                × (queue.capacity after.task_queue ≡ queue.capacity self.task_queue)))
  unfolding spawn
  spawn_cases self task = elim (Option-cases (self.tasks task.id)) [
    | inr (other, e) ↦ inl (other, e, rw (spawn, e) refl)
    | inl e ↦ inr (elim (queue.push_law self.task_queue task.id) [
      | inr (f, full) ↦ inl (e, full, rw (spawn, e, f) refl)
      | inl (q, f, at, kept, _) ↦ inr (
        e,
        record self { tasks = insert self.tasks task.id task; task_queue = q },
        rw (spawn, e, f) refl,
        refl,
        refl,
        at,
        kept,
      )
    ])
  ]

  -- Make a task of each future, and spawn it; with the counter of ids.
  unfoldable pub spawn_all : List Future → Executor R → ℕ → Outcome (Executor R × ℕ)
  spawn_all [] self next_id = ok (self, next_id)
  spawn_all (future ∷ futures) self next_id =
      let (task, later) = task_new future next_id in
      do after ← spawn R self task; spawn_all futures after later

  -- No id from the counter on is taken.
  abbrev Fresh : Executor R → ℕ → Type 0
  Fresh self next_id = (id : ℕ) → next_id ≤ id → self.tasks id ≡ none

  insert-Fresh :
      (self : Executor R) (next_id : ℕ) (task : Task Future) (after : Executor R)
      → Fresh self next_id
      → task.id ≡ next_id
      → after.tasks ≡ insert self.tasks task.id task
      → Fresh after (next_id + 1)
  unfolding insert
  insert-Fresh self next_id task after fresh e at id h =
      let old : self.tasks id ≡ none = fresh id (omega arith) in
      ap (λ (m : TaskMap (Task Future)). m id) at ∙ grind arith

  spawn_all-cons :
      (future : Future) (futures : List Future) (self after : Executor R) (next_id : ℕ)
      → next_id + 1 < 2 ^ 64
      → spawn R self (record { id = next_id; future = future }) ≡ ok after
      → spawn_all (future ∷ futures) self next_id ≡ spawn_all futures after (next_id + 1)
  unfolding spawn_all task_new task_id_new
  spawn_all-cons future futures self after next_id h e =
      let wrap : (next_id + 1) % 2 ^ 64 ≡ next_id + 1 = omega arith in
      ap (λ m. m >>= λ a. spawn_all futures a ((next_id + 1) % 2 ^ 64)) e
      ∙ ap (λ later. spawn_all futures after later) wrap

  spawn_all-Fresh :
      (futures : List Future) (self : Executor R) (next_id : ℕ)
      → Fresh self next_id
      → next_id + length futures < 2 ^ 64
      → length (queue.items self.task_queue) + length futures ≤ queue.capacity self.task_queue
      → (after : Executor R) × (spawn_all futures self next_id
          ≡ ok (after, next_id + length futures))
        × (queue.items after.task_queue
            ≡ queue.items self.task_queue ++ issued (length futures) next_id)
  unfolding spawn_all issued
  spawn_all-Fresh [] self next_id fresh few room =
      (self, ap (λ n. ok (self, n)) (omega arith), sym (append-nil (queue.items self.task_queue)))
  spawn_all-Fresh (future ∷ futures) self next_id fresh few room =
      let task : Task Future = record { id = next_id; future = future } in
      elim (spawn_cases self task) [
        | inl (other, e, _) ↦ absurd (let free = fresh next_id (omega arith) in cc)
        | inr (inl (_, full, _)) ↦ absurd (omega arith)
        | inr (inr (_, after, e, tasks, _, at, kept)) ↦
            let (last, e2, at2) =
              spawn_all-Fresh futures after (next_id + 1)
                (insert-Fresh self next_id task after fresh refl tasks) (omega arith)
                (omega (
                  arith,
                  room,
                  kept,
                  ap length at,
                  length-append (queue.items self.task_queue) (next_id ∷ []),
                )) in
            let total : (next_id + 1) + length futures ≡ next_id + suc (length futures) =
              omega arith in
            (
              last,
              spawn_all-cons future futures self after next_id (omega arith) e
                  ∙ e2
                  ∙ ap (λ n. ok (last, n)) total,
              at2
                  ∙ ap (λ l. l ++ issued (length futures) (next_id + 1)) at
                  ∙ append_assoc (queue.items self.task_queue) (next_id ∷ [])
                      (issued (length futures) (next_id + 1))
                  ∙ ap (λ l. queue.items self.task_queue ++ l)
                      (sym (issued-suc (length futures) next_id (omega arith))),
            )
      ]

  -- Up to 100 new tasks can be spawned on a new executor: it does not panic, and the queue holds
  -- their ids in the order of the futures.
  pub spawn_all-issued :
      (futures : List Future) (next_id : ℕ)
      → next_id + length futures < 2 ^ 64
      → length futures ≤ 100
      → (after : Executor R) × (spawn_all futures (new R) next_id
          ≡ ok (after, next_id + length futures))
        × (queue.items after.task_queue ≡ issued (length futures) next_id)
  unfolding new empty
  spawn_all-issued futures next_id few room =
      let (after, e, at) =
        spawn_all-Fresh futures (new R) next_id (λ id h. refl) few
          (omega (arith, room, (queue.new_law 100).1, ap length (queue.new_law 100).0)) in
      (after, e, at ∙ ap (λ l. l ++ issued (length futures) next_id) (queue.new_law 100).0)
