-- ===== src/Task/Executor/Sleep.antt =====
-- `Executor::run` and `sleep_if_idle` among interrupts: the processor does not sleep while a task is
-- ready.
use mathlib.Core.Path.{subst}
use taijios.Common.{
  ℕ, zero, suc, ◌<◌, ◌≡◌, ◌≢◌, inl, inr, refl, sym, ap, arith, Bool, true, false, some, List, [],
  length, ok,
}
use taijios.Task.Executor.{TaskWaker, Runtime, Executor, wake_all, run_ready_tasks}

-- Where the loop of `run` stands: before `run_ready_tasks`, before `interrupts::disable`, before
-- `is_empty`, before `enable_and_hlt`, halted, or before `interrupts::enable`.
pub data Stage : Type 0 where
  running disabling checking halting asleep enabling : Stage

module _ (R : Runtime) where
  open R use {queue, Future, World}

  pub record Machine : Type 0 where
    pub stage : Stage
    pub interrupts : Bool
    pub executor : Executor R
    pub world : World

  -- the branch on `is_empty`
  abbrev pub decide : Bool → Stage
  decide true = halting
  decide false = enabling

  -- One step of `sleep_if_idle`. `enable_and_hlt` enables interrupts and halts in one.
  unfoldable pub sleep_step : Stage → Executor R → Stage × Bool
  sleep_step running self = (running, true)
  sleep_step disabling self = (checking, false)
  sleep_step checking self = (decide (queue.is_empty self.task_queue), false)
  sleep_step halting self = (asleep, true)
  sleep_step asleep self = (asleep, true)
  sleep_step enabling self = (running, true)

  -- An interrupt ends the halt.
  abbrev pub resumed : Stage → Stage
  resumed running = running
  resumed disabling = disabling
  resumed checking = checking
  resumed halting = halting
  resumed asleep = running
  resumed enabling = enabling

  -- `run_ready_tasks` is done, `sleep_if_idle` goes a step, or an interrupt handler runs and wakes
  -- tasks, which it can where interrupts are enabled.
  pub data Step (s t : Machine) : Type 0 where
    ran :
        (fuel : ℕ) (after : Executor R) (later : World)
        → s.stage ≡ running
        → run_ready_tasks R fuel s.executor s.world ≡ some (ok (after, later))
        → t ≡ record s { stage = disabling; executor = after; world = later }
        → Step s t
    sleeps :
        s.stage ≢ running
        → s.stage ≢ asleep
        → t ≡ record s {
          stage = (sleep_step s.stage s.executor).0;
          interrupts = (sleep_step s.stage s.executor).1;
        }
        → Step s t
    interrupt :
        (woken : List TaskWaker) (q : queue.Queue)
        → s.interrupts ≡ true
        → wake_all R woken s.executor.task_queue ≡ ok q
        → t ≡ record s { stage = resumed s.stage; executor = record s.executor { task_queue = q } }
        → Step s t

  pub data Reach (initial : Machine) : Machine → Type 0 where
    start : {s : Machine} → s ≡ initial → Reach initial s
    later : {s t : Machine} → Reach initial s → Step s t → Reach initial t

  -- Interrupts are off from the check on, and what it found still holds when the processor halts.
  abbrev pub Safe : Stage → Bool → queue.Queue → Type 0
  Safe running b q = b ≡ true
  Safe disabling b q = b ≡ true
  Safe checking b q = b ≡ false
  Safe halting b q = (b ≡ false) × (queue.items q ≡ [])
  Safe asleep b q = (b ≡ true) × (queue.items q ≡ [])
  Safe enabling b q = (b ≡ false) × (0 < length (queue.items q))

  abbrev Good : Machine → Type 0
  Good s = Safe s.stage s.interrupts s.executor.task_queue

  decide-Safe : (q : queue.Queue) → Safe (decide (queue.is_empty q)) false q
  decide-Safe q = elim (queue.is_empty_law q) [
    | inl (e, empty) ↦ subst (λ b. Safe (decide b) false q) (sym e) (refl, empty)
    | inr (e, some_) ↦ subst (λ b. Safe (decide b) false q) (sym e) (refl, some_)
  ]

  pub sleep_step-Safe :
      (stage : Stage) (b : Bool) (self : Executor R)
      → stage ≢ running
      → stage ≢ asleep
      → Safe stage b self.task_queue
      → Safe (sleep_step stage self).0 (sleep_step stage self).1 self.task_queue
  unfolding sleep_step
  sleep_step-Safe running b self awake on safe = absurd (awake refl)
  sleep_step-Safe disabling b self awake on safe = refl
  sleep_step-Safe checking b self awake on safe = decide-Safe self.task_queue
  sleep_step-Safe halting b self awake on safe = (refl, safe.1)
  sleep_step-Safe asleep b self awake on safe = absurd (on refl)
  sleep_step-Safe enabling b self awake on safe = refl

  pub resumed-Safe :
      (stage : Stage) (b : Bool) (q q' : queue.Queue)
      → b ≡ true
      → Safe stage b q
      → Safe (resumed stage) b q'
  resumed-Safe running b q q' e safe = safe
  resumed-Safe disabling b q q' e safe = safe
  resumed-Safe checking b q q' e safe = absurd cc
  resumed-Safe halting b q q' e safe = absurd (let off = safe.0 in cc)
  resumed-Safe asleep b q q' e safe = safe.0
  resumed-Safe enabling b q q' e safe = absurd (let off = safe.0 in cc)

  Step-Good : (s t : Machine) → Step s t → Good s → Good t
  Step-Good s t (ran fuel after world at e f) h =
      subst Good (sym f)
        (subst (λ (stage : Stage). Safe stage s.interrupts s.executor.task_queue) at h)
  Step-Good s t (sleeps awake on f) h =
      subst Good (sym f) (sleep_step-Safe s.stage s.interrupts s.executor awake on h)
  Step-Good s t (interrupt woken q enabled e f) h =
      subst Good (sym f) (resumed-Safe s.stage s.interrupts s.executor.task_queue q enabled h)

  Reach-Good : {initial s : Machine} → Good initial → Reach initial s → Good s
  Reach-Good good (start e) = subst Good (sym e) good
  Reach-Good good (later {s} {t} r step) = Step-Good s t step (Reach-Good good r)

  -- However interrupts come, while the processor sleeps no task is ready, and interrupts are enabled.
  pub asleep-empty :
      (initial s : Machine)
      → initial.stage ≡ running
      → initial.interrupts ≡ true
      → Reach initial s
      → s.stage ≡ asleep
      → (queue.items s.executor.task_queue ≡ []) × (s.interrupts ≡ true)
  asleep-empty initial s first on r e =
      let good : Good initial =
        subst (λ (t : Stage). Safe t initial.interrupts initial.executor.task_queue) (sym first)
          on in
      let (awake, empty) =
        subst (λ (t : Stage). Safe t s.interrupts s.executor.task_queue) e (Reach-Good good r) in
      (empty, awake)

  -- `sleep_if_idle` on at most `n` of its steps, without an interrupt
  unfoldable pub steps : ℕ → Machine → Machine
  steps zero s = s
  steps (suc n) s = steps n (record s {
    stage = (sleep_step s.stage s.executor).0;
    interrupts = (sleep_step s.stage s.executor).1;
  })

  wakes_up :
      (stage : Stage) (b : Bool) (self : Executor R) (world : World)
      → Safe stage b self.task_queue
      → 0 < length (queue.items self.task_queue)
      → steps 3 (record { stage = stage; interrupts = b; executor = self; world = world })
        ≡ record { stage = running; interrupts = true; executor = self; world = world }
  unfolding steps sleep_step
  wakes_up running b self world safe h = refl
  wakes_up disabling b self world safe h = elim (queue.is_empty_law self.task_queue) [
    | inl (_, empty) ↦ absurd (omega (arith, h, ap length empty))
    | inr (e, _) ↦ rw e refl
  ]
  wakes_up checking b self world safe h = elim (queue.is_empty_law self.task_queue) [
    | inl (_, empty) ↦ absurd (omega (arith, h, ap length empty))
    | inr (e, _) ↦ rw e refl
  ]
  wakes_up halting b self world safe h = absurd (omega (arith, h, ap length safe.1))
  wakes_up asleep b self world safe h = absurd (omega (arith, h, ap length safe.1))
  wakes_up enabling b self world safe h = refl

  -- However interrupts came, when a task is ready the loop is back at `run_ready_tasks` within three
  -- steps of its own, with interrupts enabled.
  pub ready-runs :
      (initial s : Machine)
      → initial.stage ≡ running
      → initial.interrupts ≡ true
      → Reach initial s
      → 0 < length (queue.items s.executor.task_queue)
      → steps 3 s ≡ record s { stage = running; interrupts = true }
  ready-runs initial s first on r h =
      let good : Good initial =
        subst (λ (t : Stage). Safe t initial.interrupts initial.executor.task_queue) (sym first)
          on in
      wakes_up s.stage s.interrupts s.executor s.world (Reach-Good good r) h
