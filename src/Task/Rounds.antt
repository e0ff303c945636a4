-- ===== src/Task/Rounds.antt =====
-- The simple executor polls in rounds, each task once in the order of the queue, and it ends when
-- every future does.
use mathlib.Core.List.{append_assoc, append-nil}
use taijios.Common.{
  ℕ, zero, suc, ◌+◌, ◌%◌, ◌^◌, ◌≤◌, ◌<◌, ◌≡◌, ◌≢◌, ◌∙◌, refl, sym, ap, arith, some, List, [], ◌∷◌,
  ◌++◌, length, get_elem?,
}
use taijios.Task.{
  Poll, ready, pending, Futures, Task, SimpleExecutor, task_id_new, task_poll, requeue, run_queue,
  run,
}

-- the ids of `n` calls of `TaskId::new`
unfoldable pub issued : ℕ → ℕ → List ℕ
issued zero next_id = []
issued (suc n) next_id = let (id, later) = task_id_new next_id in id ∷ issued n later

issued-at :
    (n next_id i id : ℕ)
    → next_id + n ≤ 2 ^ 64
    → get_elem? (issued n next_id) i ≡ some id
    → id ≡ next_id + i
unfolding issued task_id_new
issued-at zero next_id i id h e = absurd (ground arith)
issued-at (suc n) next_id zero id h e = ground arith
issued-at (suc zero) next_id (suc i) id h e = absurd (ground arith)
issued-at (suc (suc n)) next_id (suc i) id h e =
    let wrap : (next_id + 1) % 2 ^ 64 ≡ next_id + 1 = omega arith in
    omega (arith, issued-at (suc n) ((next_id + 1) % 2 ^ 64) i id (omega arith) e)

-- The ids of up to 2^64 calls, from the counter's start at 0, are distinct.
pub issued-distinct :
    (n i j id other : ℕ)
    → n ≤ 2 ^ 64
    → get_elem? (issued n 0) i ≡ some id
    → get_elem? (issued n 0) j ≡ some other
    → i < j
    → id ≢ other
issued-distinct n i j id other h e f lt =
    omega (arith, issued-at n 0 i id (omega arith) e, issued-at n 0 j other (omega arith) f)

module _ (F : Futures) where
  open F use {Future, World}

  abbrev pub kept : Poll → Task Future → List (Task Future) → List (Task Future)
  kept ready task rest = rest
  kept pending task rest = task ∷ rest

  -- Poll every task of a list once, in order; those still pending remain, in order.
  unfoldable pub round : List (Task Future) → World → List (Task Future) × World
  round [] world = ([], world)
  round (task ∷ tasks) world =
      let (state, polled, later) = task_poll F task world in
      let (rest, last) = round tasks later in (kept state polled rest, last)

  abbrev Ahead : List (Task Future) → ℕ → World → List (Task Future) → Type 0
  Ahead tasks fuel world queue =
      run_queue F (length tasks + fuel) (tasks ++ queue) world
      ≡ run_queue F fuel (queue ++ (round tasks world).0) (round tasks world).1

  requeued :
      (tasks queue : List (Task Future)) (fuel : ℕ) (state : Poll) (polled : Task Future)
      (later : World)
      → ((behind : List (Task Future)) → Ahead tasks fuel later behind)
      → run_queue F (length tasks + fuel) (requeue F (tasks ++ queue) state polled) later
        ≡ run_queue F fuel (queue ++ kept state polled (round tasks later).0) (round tasks later).1
  unfolding requeue
  requeued tasks queue fuel ready polled later ih = ih queue
  requeued tasks queue fuel pending polled later ih =
      ap (λ q. run_queue F (length tasks + fuel) q later) (append_assoc tasks queue (polled ∷ []))
      ∙ ih (queue ++ (polled ∷ []))
      ∙ ap (λ q. run_queue F fuel q (round tasks later).1)
          (append_assoc queue (polled ∷ []) (round tasks later).0)

  run_queue-front :
      (tasks queue : List (Task Future)) (fuel : ℕ) (world : World) → Ahead tasks fuel world queue
  unfolding round run_queue
  run_queue-front [] queue fuel world =
      let none : 0 + fuel ≡ fuel = omega arith in
      ap (λ n. run_queue F n queue world) none
      ∙ ap (λ q. run_queue F fuel q world) (sym (append-nil queue))
  run_queue-front (task ∷ tasks) queue fuel world =
      let one : suc (length tasks) + fuel ≡ suc (length tasks + fuel) = omega arith in
      let polled = task_poll F task world in
      ap (λ n. run_queue F n (task ∷ (tasks ++ queue)) world) one
      ∙ requeued tasks queue fuel polled.0 polled.1 polled.2
          (λ behind. run_queue-front tasks behind fuel polled.2)

  -- As many polls as the queue is long are one round: every task is polled once, in the order of
  -- the queue, those that are ready leave it, and the others keep their order.
  pub run-round :
      (self : SimpleExecutor F) (fuel : ℕ) (world : World)
      → run F (length self.task_queue + fuel) self world
        ≡ run F fuel
            (record { task_queue = (round self.task_queue world).0 })
            (round self.task_queue world).1
  unfolding run
  run-round self fuel world =
      ap (λ q. run_queue F (length self.task_queue + fuel) q world)
        (sym (append-nil self.task_queue))
      ∙ run_queue-front self.task_queue [] fuel world

  module _ (left : Future → ℕ) where
    -- the polls that the tasks of a queue still need
    unfoldable pub work : List (Task Future) → ℕ
    work [] = 0
    work (task ∷ tasks) = suc (left task.future) + work tasks

    work-append : (xs ys : List (Task Future)) → work (xs ++ ys) ≡ work xs + work ys
    unfolding work
    work-append [] ys = omega arith
    work-append (x ∷ xs) ys = omega (arith, work-append xs ys)

    requeue-work :
        (queue : List (Task Future)) (state : Poll) (polled : Task Future) (bound : ℕ)
        → (state ≡ pending → left polled.future < bound)
        → work (requeue F queue state polled) ≤ work queue + bound
    unfolding requeue work
    requeue-work queue ready polled bound h = omega arith
    requeue-work queue pending polled bound h =
        omega (arith, work-append queue (polled ∷ []), h refl)

    module _
        (advances : (f : Future) (world : World)
          → (F.poll f world).0 ≡ pending
          → left (F.poll f world).1 < left f) where
      run_queue-ends :
          (fuel : ℕ) (queue : List (Task Future)) (world : World)
          → work queue ≤ fuel
          → (last : World) × (run_queue F fuel queue world ≡ some last)
      unfolding run_queue work
      run_queue-ends fuel [] world h = (world, refl)
      run_queue-ends zero (task ∷ queue) world h = absurd (omega arith)
      run_queue-ends (suc fuel) (task ∷ queue) world h =
          let polled = task_poll F task world in
          run_queue-ends fuel (requeue F queue polled.0 polled.1) polled.2 (
            omega (
              arith,
              requeue-work queue polled.0 polled.1 (left task.future)
                  (λ e. unfold task_poll in advances task.future world e),
            ))

      -- If each poll that leaves a future pending brings it nearer to its end, `run` ends.
      pub run-ends :
          (self : SimpleExecutor F) (world : World)
          → (last : World) × (run F (work self.task_queue) self world ≡ some last)
      unfolding run
      run-ends self world =
          run_queue-ends (work self.task_queue) self.task_queue world (omega arith)
