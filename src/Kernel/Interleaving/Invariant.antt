-- ===== src/Kernel/Interleaving/Invariant.antt =====
-- What every step of the loop, of the keyboard task and of the interrupt handlers keeps.
use mathlib.Core.List.{Mem, mem-append_left, mem-append_right, mem-cons_self}
use mathlib.Core.Path.{subst}
use taijios.Common.{
  ℕ, ◌≡◌, ◌≢◌, ◌⊎◌, ◌∙◌, inl, inr, refl, sym, ap, Bool, true, false, Option, none, some, ◌++◌, ok,
  panic, Outcome-cases, ok_unique,
}
use taijios.Task.{Task}
use taijios.Task.Keyboard as Keyboard
use taijios.Task.Keyboard.Cases.{add_scancode-cases}
use taijios.Task.Keyboard.Race as Race
use taijios.Task.Keyboard.Invariant as Armed
use taijios.Task.Executor.Sleep as Sleep
use taijios.Task.Executor.{TaskWaker, Runtime, cached, wake_all}
use taijios.Task.Executor.Serve.{ids}
use taijios.Task.Executor.Keeps.{wake_all-ids}
use taijios.Kernel.{Platform, crates}
use taijios.Kernel.Interleaving.{Stage, in_loop, polling, Machine, woken_by}

module _ (P : Platform) (R : Runtime) (task_id : ℕ) where
  open P use {scancodes, cell, atomic}

  -- the keyboard task's waker
  abbrev pub own : TaskWaker
  own = record { task_id = task_id }

  -- A wake-up that the task has not answered is in the ready queue.
  abbrev pub Queued : Bool → R.queue.Queue → Type 0
  Queued notified q = notified ≡ true → Mem task_id (R.queue.items q)

  -- where a poll relies on it
  abbrev pub Aware : Keyboard.Stage (crates P) → Bool → R.queue.Queue → Type 0
  Aware Keyboard.called notified q = Unit
  Aware Keyboard.missed notified q = Unit
  Aware Keyboard.registered notified q = Queued notified q
  Aware (Keyboard.popped scancode) notified q = Unit
  Aware (Keyboard.returned Keyboard.pending) notified q = Queued notified q
  Aware (Keyboard.returned (Keyboard.ready scancode)) notified q = Unit

  abbrev pub At : Stage → Bool → Keyboard.Stage (crates P) → Bool → R.queue.Queue → Type 0
  At (in_loop stage) on poll notified q =
      (poll ≡ Keyboard.returned Keyboard.pending) × Sleep.Safe R stage on q × Queued notified q
  At polling on poll notified q = (on ≡ true) × Aware poll notified q

  pub record Fits (s : Machine P R) : Type 0 where
    pub race : Armed.Good (crates P) own s.keyboard
    pub known : (task : Task R.Future) × (s.executor.tasks task_id ≡ some task)
    pub waker : cached s.executor.waker_cache task_id ≡ own
    pub place : At s.stage s.interrupts s.keyboard.stage s.keyboard.notified s.executor.task_queue

  first-Aware :
      (scancode : Option ℕ) (notified : Bool) (q : R.queue.Queue)
      → Aware (Keyboard.first (crates P) scancode) notified q
  first-Aware none notified q = tt
  first-Aware (some scancode) notified q = tt

  second_stage-Aware :
      (scancode : Option ℕ) (notified : Bool) (q : R.queue.Queue)
      → Queued notified q
      → Aware (Keyboard.second_stage (crates P) scancode) notified q
  second_stage-Aware none notified q h = h
  second_stage-Aware (some scancode) notified q h = tt

  abbrev Steps :
      Bool → R.queue.Queue → Keyboard.Stage (crates P) × Keyboard.Statics (crates P) → Type 0
  Steps notified q p = Aware p.0 notified q

  pub poll_step-Aware :
      (stage to : Keyboard.Stage (crates P)) (self after : Keyboard.Statics (crates P))
      (notified : Bool) (q : R.queue.Queue)
      → ((r : Keyboard.Polled) → stage ≢ Keyboard.returned r)
      → Keyboard.poll_step (crates P) own stage self ≡ ok (to, after)
      → Aware stage notified q
      → Aware to (Race.notice (crates P) stage notified) q
  unfolding Keyboard.poll_step
  poll_step-Aware Keyboard.called to self after notified q runs e h =
      elim (Outcome-cases (Keyboard.pop_scancode (crates P) self)) [
        | inl failed ↦
            let out : Keyboard.poll_step (crates P) own Keyboard.called self ≡ panic =
              rw failed refl in
            absurd cc
        | inr ((scancode, self'), popped) ↦
            let out : Keyboard.poll_step (crates P) own Keyboard.called self
                ≡ ok (Keyboard.first (crates P) scancode, self') =
              rw popped refl in
            subst (Steps notified q) (ok_unique out e) (first-Aware scancode notified q)
      ]
  poll_step-Aware Keyboard.missed to self after notified q runs e h =
      let out : Keyboard.poll_step (crates P) own Keyboard.missed self
          ≡ ok (Keyboard.registered, Keyboard.register (crates P) self own) =
        refl in
      subst (Steps false q) (ok_unique out e) (λ f. absurd cc)
  poll_step-Aware Keyboard.registered to self after notified q runs e h =
      elim (Outcome-cases (Keyboard.pop_scancode (crates P) self)) [
        | inl failed ↦
            let out : Keyboard.poll_step (crates P) own Keyboard.registered self ≡ panic =
              rw failed refl in
            absurd cc
        | inr ((scancode, self'), popped) ↦
            let out : Keyboard.poll_step (crates P) own Keyboard.registered self
                ≡ ok (Keyboard.second_stage (crates P) scancode, self') =
              rw popped refl in
            subst (Steps notified q) (ok_unique out e) (second_stage-Aware scancode notified q h)
      ]
  poll_step-Aware (Keyboard.popped scancode) to self after notified q runs e h =
      let out : Keyboard.poll_step (crates P) own (Keyboard.popped scancode) self
          ≡ ok (Keyboard.returned (Keyboard.ready scancode), Keyboard.unregister (crates P) self) =
        refl in
      subst (Steps notified q) (ok_unique out e) tt
  poll_step-Aware (Keyboard.returned r) to self after notified q runs e h = absurd (runs r refl)

  -- A key press that the waker was stored for, or that follows a wake-up, finds the task queued
  -- or queues it.
  pub key-Queued :
      (self after : Keyboard.Statics (crates P)) (effect : Keyboard.Effect (crates P))
      (scancode : ℕ) (opened : scancodes.Queue) (notified : Bool) (q q' : R.queue.Queue)
      → cell.try_get self.scancode_queue ≡ some opened
      → (atomic.stored self.waker ≡ some own) ⊎ (notified ≡ true)
      → Queued notified q
      → Keyboard.add_scancode (crates P) self scancode ≡ (after, effect)
      → wake_all R (woken_by P R effect) q ≡ ok q'
      → Queued (Race.heard (crates P) effect notified) q'
  unfolding woken_by
  key-Queued self after effect scancode opened notified q q' at armed h e woke heard =
      let C = crates P in
      let more = wake_all-ids R (woken_by P R effect) q q' woke in
      let still : notified ≡ true → Mem task_id (R.queue.items q') =
        λ f. subst (Mem task_id) (sym more) (mem-append_left (ids (woken_by P R effect)) (h f)) in
      elim armed [
        | inr f ↦ still f
        | inl stored ↦ elim (add_scancode-cases C self scancode opened at) [
          | inl (_, f, _, _, _, _) ↦
              let same : effect ≡ Keyboard.wakes (some own) =
                ap (λ (p : Keyboard.Statics C × Keyboard.Effect C). p.1) (sym e ∙ f)
                ∙ ap (λ w. Keyboard.wakes w) ((atomic.take_law self.waker).0 ∙ stored) in
              subst (Mem task_id) (sym more) (
                subst (λ x. Mem task_id (R.queue.items q ++ ids (woken_by P R x))) (sym same)
                  (mem-append_right (R.queue.items q) mem-cons_self))
          | inr (f, _) ↦
              let same : effect ≡ Keyboard.warns Keyboard.queue_full =
                ap (λ (p : Keyboard.Statics C × Keyboard.Effect C). p.1) (sym e ∙ f) in
              still (subst (λ x. Race.heard C x notified ≡ true) same heard)
        ]
      ]
