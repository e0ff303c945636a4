-- ===== src/Kernel/Interleaving/Drained.antt =====
-- The processor sleeps only when the keyboard task has taken every scancode.
use mathlib.Core.List.{Mem, not-mem-nil, append-nil}
use mathlib.Core.Path.{subst}
use taijios.Common.{ℕ, length, ◌<◌, arith, ◌≡◌, ◌⊎◌, ◌∙◌, inl, inr, sym, ap, true, some, [], ◌++◌}
use taijios.Task.{Task}
use taijios.Task.Keyboard as Keyboard
use taijios.Task.Keyboard.Invariant as Armed
use taijios.Task.Keyboard.Race as Race
use taijios.Task.Executor.Sleep as Sleep
use taijios.Task.Executor.{Runtime, cached}
use taijios.Kernel.{Platform, crates}
use taijios.Kernel.Interleaving.{in_loop, polling, Machine, Reach}
use taijios.Kernel.Interleaving.Steps.{Place, there, Reach-Fits}
use taijios.Kernel.Interleaving.Invariant.{own, Aware, Fits}

module _ (P : Platform) (R : Runtime) (task_id : ℕ) where
  open P use {scancodes, cell, atomic}

  -- The stream was just made: the keyboard task, which the executor knows, is about to poll it for
  -- the first time, with interrupts enabled, and nothing was pressed.
  pub record Begins (s : Machine P R) : Type 0 where
    pub stage : s.stage ≡ polling
    pub enabled : s.interrupts ≡ true
    pub poll : s.keyboard.stage ≡ Keyboard.called
    pub q : scancodes.Queue
    pub opened : cell.try_get s.keyboard.statics.scancode_queue ≡ some q
    pub none_waits : scancodes.items q ≡ []
    pub none_pressed : s.keyboard.accepted ≡ []
    pub none_read : s.keyboard.delivered ≡ []
    pub known : (task : Task R.Future) × (s.executor.tasks task_id ≡ some task)
    pub waker : cached s.executor.waker_cache task_id ≡ own P R task_id

  pub Begins-Fits : (s : Machine P R) → Begins s → Fits P R task_id s
  Begins-Fits s h = record {
    race = record {
      q = h.q;
      opened = h.opened;
      order =
          h.none_pressed
          ∙ sym (
              ap (λ x. s.keyboard.delivered ++ (Race.held (crates P) x ++ scancodes.items h.q))
                h.poll
              ∙ ap (λ l. l ++ scancodes.items h.q) h.none_read
              ∙ h.none_waits);
      armed =
          subst
            (λ x.
              Armed.Armed (crates P) (own P R task_id) x h.q s.keyboard.statics.waker
                s.keyboard.notified)
            (sym h.poll) tt;
    };
    known = h.known;
    waker = h.waker;
    place =
        subst (λ x. Place P R task_id x s.interrupts s.keyboard s.executor.task_queue) (sym h.stage)
          (
            h.enabled,
            subst (λ x. Aware P R task_id x s.keyboard.notified s.executor.task_queue) (sym h.poll)
                tt,
          );
  }

  -- Outside its poll the task is pending: its waker is stored and no scancode waits, or it was woken.
  settled :
      {s : Machine P R} (h : Fits P R task_id s) (stage : Sleep.Stage)
      → s.stage ≡ in_loop stage
      → ((atomic.stored s.keyboard.statics.waker ≡ some (own P R task_id))
          × (scancodes.items h.race.q ≡ []))
        ⊎ (s.keyboard.notified ≡ true)
  settled {s} h stage e =
      subst
        (λ x.
          Armed.Armed (crates P) (own P R task_id) x h.race.q s.keyboard.statics.waker
            s.keyboard.notified)
        (there P R task_id h _ e).0 h.race.armed

  -- From the making of the stream on, in every interleaving of the loop of `run`, the keyboard task,
  -- other tasks and the interrupt handlers: while the processor sleeps, interrupts are enabled, no
  -- task is ready, the keyboard task's waker is stored, no scancode waits in the queue, and the
  -- scancodes that went into it were delivered to the task, in order.
  pub asleep-drained :
      (initial s : Machine P R)
      → Begins initial
      → Reach P R task_id initial s
      → s.stage ≡ in_loop Sleep.asleep
      → (s.interrupts ≡ true)
        × (R.queue.items s.executor.task_queue ≡ [])
        × (atomic.stored s.keyboard.statics.waker ≡ some (own P R task_id))
        × (q : scancodes.Queue) × (cell.try_get s.keyboard.statics.scancode_queue ≡ some q)
        × (scancodes.items q ≡ [])
        × (s.keyboard.delivered ≡ s.keyboard.accepted)
  asleep-drained initial s begins r e =
      let h = Reach-Fits P R task_id (Begins-Fits initial begins) r in
      let (polled, (on, empty), queued) = there P R task_id h _ e in
      elim (settled h Sleep.asleep e) [
        | inl (stored, drained) ↦ (
          on,
          empty,
          stored,
          h.race.q,
          h.race.opened,
          drained,
          sym (
              h.race.order
              ∙ ap
                  (λ x.
                    s.keyboard.delivered ++ (Race.held (crates P) x ++ scancodes.items h.race.q))
                  polled
              ∙ ap (λ l. s.keyboard.delivered ++ l) drained
              ∙ append-nil s.keyboard.delivered),
        )
        | inr n ↦ absurd (not-mem-nil (subst (Mem task_id) empty (queued n)))
      ]

  -- From the making of the stream on, in every interleaving of the loop of `run`, the keyboard task,
  -- other tasks and the interrupt handlers: whenever the loop is outside the keyboard task's poll
  -- and a scancode waits, the task's id is in the ready queue.
  pub waiting-queued :
      (initial s : Machine P R) (stage : Sleep.Stage) (q : scancodes.Queue)
      → Begins initial
      → Reach P R task_id initial s
      → s.stage ≡ in_loop stage
      → cell.try_get s.keyboard.statics.scancode_queue ≡ some q
      → 0 < length (scancodes.items q)
      → Mem task_id (R.queue.items s.executor.task_queue)
  waiting-queued initial s stage q begins r e at more =
      let h = Reach-Fits P R task_id (Begins-Fits initial begins) r in
      elim (settled h stage e) [
        | inl (_, drained) ↦ absurd (
            let same : scancodes.items h.race.q ≡ scancodes.items q =
              ap scancodes.items (let o = h.race.opened in cc) in
            omega (arith, more, ap length (sym same ∙ drained)))
        | inr n ↦ (there P R task_id h _ e).2 n
      ]
