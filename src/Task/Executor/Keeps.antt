-- ===== src/Task/Executor/Keeps.antt =====
-- src/task/executor.rs: what waking, and serving another task, leave alone.
use mathlib.Core.List.{append_assoc, append-nil}
use taijios.Common.{
  ℕ, ◌≡◌, ◌≢◌, ◌∙◌, inl, inr, refl, sym, ap, some, List, [], ◌∷◌, ◌++◌, ok, panic, Option-cases,
  ok_unique, arith,
}
use taijios.Task.{Poll, ready, pending}
use taijios.Task.Executor.{
  TaskMap, TaskWaker, Runtime, Executor, insert, remove, cached, settle, wake_task, wake_all,
  run_one,
}
use taijios.Task.Executor.Serve.{ids}
use taijios.Task.Executor.Turns.{insert_self}
use taijios.Task.Executor.Invariant.{run_one-cases}

-- What is settled for one task leaves the others.
pub settle_other :
    {A : Type 0} (m : TaskMap A) (id key : ℕ) (state : Poll) (a : A)
    → key ≢ id
    → settle state m key a id ≡ m id
unfolding settle insert remove
settle_other m id key ready a other = ground arith
settle_other m id key pending a other = ground arith

-- A task that stays is under its id.
pub settle_self : {A : Type 0} (m : TaskMap A) (id : ℕ) (a : A) → settle pending m id a id ≡ some a
unfolding settle
settle_self m id a = insert_self m id a

pub cached-known :
    (m : TaskMap TaskWaker) (id : ℕ) (w : TaskWaker) → m id ≡ some w → cached m id ≡ w
unfolding cached
cached-known m id w e = rw (cached, e) refl

pub cached-same : (m m' : TaskMap TaskWaker) (id : ℕ) → m' id ≡ m id → cached m' id ≡ cached m id
unfolding cached
cached-same m m' id e = elim (Option-cases (m id)) [
  | inl f ↦ rw (cached, e, f) refl
  | inr (w, f) ↦ rw (cached, e, f) refl
]

module _ (R : Runtime) where
  open R use {queue, Future, World}

  pub pop-items :
      (id : ℕ) (q q' : queue.Queue)
      → queue.pop q ≡ some (id, q')
      → queue.items q ≡ id ∷ queue.items q'
  pop-items id q q' e = elim (queue.pop_law q) [
    | inl (a, q1, f, at, _) ↦
        let same : (a, q1) ≡ (id, q') = cc in
        at ∙ ap (λ (p : ℕ × queue.Queue). p.0 ∷ queue.items p.1) same
    | inr (f, _) ↦ absurd cc
  ]

  -- Waking that does not panic puts the ids behind the queue.
  pub wake_all-ids :
      (wakers : List TaskWaker) (q q' : queue.Queue)
      → wake_all R wakers q ≡ ok q'
      → queue.items q' ≡ queue.items q ++ ids wakers
  unfolding wake_all wake_task
  wake_all-ids [] q q' e =
      let none_woken : wake_all R [] q ≡ ok q = refl in
      ap queue.items (ok_unique e none_woken) ∙ sym (append-nil (queue.items q))
  wake_all-ids (w ∷ wakers) q q' e = elim (queue.push_law q w.task_id) [
    | inl (q1, f, at, _, _) ↦
        let step : wake_all R (w ∷ wakers) q ≡ wake_all R wakers q1 = rw (wake_all, f) refl in
        wake_all-ids wakers q1 q' (sym step ∙ e)
        ∙ ap (λ l. l ++ ids wakers) at
        ∙ append_assoc (queue.items q) (w.task_id ∷ []) (ids wakers)
    | inr (f, _) ↦
        let failed : wake_all R (w ∷ wakers) q ≡ panic = rw (wake_all, f) refl in absurd cc
  ]

  -- A turn of another task leaves a task, its waker and what was queued alone.
  pub run_one-other :
      (id key : ℕ) (self after : Executor R) (world later : World)
      → id ≢ key
      → run_one R id self world ≡ ok (after, later)
      → (after.tasks key ≡ self.tasks key)
        × (cached after.waker_cache key ≡ cached self.waker_cache key)
        × (more : List ℕ) × (queue.items after.task_queue ≡ queue.items self.task_queue ++ more)
  run_one-other id key self after world later other e =
      elim (run_one-cases R id self after world later e) [
        | inl same ↦ (
          ap (λ (t : Executor R). t.tasks key) same,
          ap (λ (t : Executor R). cached t.waker_cache key) same,
          [],
          ap (λ (t : Executor R). queue.items t.task_queue) same
              ∙ sym (append-nil (queue.items self.task_queue)),
        )
        | inr (task, state, future, _, tasks, cache, woken, woke) ↦ (
          ap (λ m. m key) tasks
              ∙ settle_other self.tasks key id state (record task { future = future }) other,
          cached-same self.waker_cache after.waker_cache key (
              ap (λ m. m key) cache
              ∙ settle_other self.waker_cache key id state (cached self.waker_cache id) other),
          ids woken,
          wake_all-ids woken self.task_queue after.task_queue woke,
        )
      ]
