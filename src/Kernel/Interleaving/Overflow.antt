-- ===== src/Kernel/Interleaving/Overflow.antt =====
-- Key presses within one poll of the keyboard task fill the executor's queue with its id.
use mathlib.Core.List.{append_assoc, append-nil}
use taijios.Common.{
  ℕ, zero, suc, ◌+◌, ◌-◌, ◌≤◌, ◌<◌, arith, ◌≡◌, ◌∙◌, inl, inr, refl, sym, ap, true, some, [], ◌∷◌,
  ◌++◌, length, length-append, length-replicate, replicate, panic,
}
use taijios.Task.Keyboard as Keyboard
use taijios.Task.Executor.{TaskWaker, Runtime, wake_all, wake_task}
use taijios.Kernel.{Platform, crates}
use taijios.Kernel.Interleaving.{Machine, woken_by, Reach, start}
use taijios.Kernel.Interleaving.Invariant.{own}
use taijios.Kernel.Interleaving.Drained.{Begins}
use taijios.Kernel.Interleaving.Flood.{Statics, Polls, registers, wakes_own, presses, takes}

module _ (P : Platform) (R : Runtime) (task_id : ℕ) (initial : Machine P R) where
  open P use {scancodes, cell, atomic}

  -- As many key presses as the executor's queue has room for, each while the waker is registered,
  -- and the waker is registered again.
  fills :
      (n : ℕ) (self : Statics P R task_id initial) (opened : scancodes.Queue) (q : R.queue.Queue)
      (s : Machine P R)
      → scancodes.items opened ≡ []
      → 0 < scancodes.capacity opened
      → length (R.queue.items q) + n ≡ R.queue.capacity q
      → Polls P R task_id initial Keyboard.called self opened q s
      → (after : Statics P R task_id initial) × (opened' : scancodes.Queue) × (q' : R.queue.Queue)
        × (t : Machine P R) × (scancodes.items opened' ≡ [])
        × (scancodes.capacity opened' ≡ scancodes.capacity opened)
        × (atomic.stored after.waker ≡ some (own P R task_id))
        × (R.queue.items q' ≡ R.queue.items q ++ replicate n task_id)
        × (R.queue.capacity q' ≡ R.queue.capacity q)
        × Polls P R task_id initial Keyboard.registered after opened' q' t
  fills zero self opened q s empty room size h =
      let (after, t, stored, reg) = registers P R task_id initial self opened q s empty h in
      (after, opened, q, t, empty, refl, stored, sym (append-nil (R.queue.items q)), refl, reg)
  fills (suc n) self opened q s empty room size h =
      let (st1, t1, stored, reg) = registers P R task_id initial self opened q s empty h in
      let (st2, opened2, q2, t2, items2, cap2, queued2, size2, reg2) =
        presses P R task_id initial st1 opened q t1 0 empty room (omega arith) stored reg in
      let (st3, opened3, t3, items3, cap3, calls) =
        takes P R task_id initial st2 opened2 q2 t2 0 items2 reg2 in
      let (st4, opened4, q4, t4, items4, cap4, stored4, queued4, size4, reg4) =
        fills n st3 opened3 q2 t3 items3 (omega arith)
          (omega
            (arith, ap length queued2, length-append (R.queue.items q) (task_id ∷ []), size, size2))
          calls in
      (
        st4,
        opened4,
        q4,
        t4,
        items4,
        cap4 ∙ cap3 ∙ cap2,
        stored4,
        queued4
            ∙ ap (λ l. l ++ replicate n task_id) queued2
            ∙ append_assoc (R.queue.items q) (task_id ∷ []) (replicate n task_id),
        size4 ∙ size2,
        reg4,
      )

  full_panics :
      (q : R.queue.Queue) (w : TaskWaker)
      → R.queue.capacity q ≤ length (R.queue.items q)
      → wake_all R (w ∷ []) q ≡ panic
  unfolding wake_all wake_task
  full_panics q w full = elim (R.queue.push_law q w.task_id) [
    | inl (_, _, _, _, room) ↦ absurd (omega (arith, full, room))
    | inr (e, _) ↦ rw e refl
  ]

  -- From the making of the stream on, where the scancode queue has room: a machine can be reached in
  -- which interrupts are enabled, the scancode queue is empty, and the executor's queue is full, with
  -- the keyboard task's id in every place that was free. The next key press panics there.
  pub keyboard_task-overflows :
      (scancode : ℕ) (made : scancodes.Queue)
      → Begins P R task_id initial
      → cell.try_get initial.keyboard.statics.scancode_queue ≡ some made
      → 0 < scancodes.capacity made
      → length (R.queue.items initial.executor.task_queue)
        ≤ R.queue.capacity initial.executor.task_queue
      → (s : Machine P R) × (opened : scancodes.Queue) × Reach P R task_id initial s
        × (s.interrupts ≡ true)
        × (cell.try_get s.keyboard.statics.scancode_queue ≡ some opened)
        × (scancodes.items opened ≡ [])
        × (R.queue.items s.executor.task_queue
            ≡ R.queue.items initial.executor.task_queue
              ++ replicate
                  (R.queue.capacity initial.executor.task_queue
                    - length (R.queue.items initial.executor.task_queue))
                  task_id)
        × (wake_all R
              (woken_by P R (Keyboard.add_scancode (crates P) s.keyboard.statics scancode).1)
              s.executor.task_queue
            ≡ panic)
  unfolding woken_by
  keyboard_task-overflows scancode made begins has room space =
      let same : begins.q ≡ made = let o = begins.opened in cc in
      let room' : 0 < scancodes.capacity begins.q =
        omega (arith, room, ap scancodes.capacity same) in
      let q = initial.executor.task_queue in
      let first : Polls P R task_id initial Keyboard.called initial.keyboard.statics begins.q q
          initial =
        record {
          reached = start refl;
          within = begins.stage;
          enabled = begins.enabled;
          at = begins.poll;
          statics = refl;
          has = begins.opened;
          queue = refl;
          waker = begins.waker;
        } in
      let (self, opened, q', s, empty, cap, stored, queued, size, h) =
        fills (R.queue.capacity q - length (R.queue.items q)) initial.keyboard.statics begins.q q
          initial begins.none_waits room' (omega (arith, space)) first in
      let (_, _, e, _, _, _) =
        wakes_own P R task_id initial self opened scancode h.has empty (omega (arith, room', cap))
          stored in
      let items : R.queue.items s.executor.task_queue
          ≡ R.queue.items q ++ replicate (R.queue.capacity q - length (R.queue.items q)) task_id =
        ap R.queue.items h.queue ∙ queued in
      (
        s,
        opened,
        h.reached,
        h.enabled,
        ap (λ (x : Statics P R task_id initial). cell.try_get x.scancode_queue) h.statics ∙ h.has,
        empty,
        items,
        ap
              (λ x.
                wake_all R (woken_by P R (Keyboard.add_scancode (crates P) x scancode).1)
                  s.executor.task_queue)
              h.statics
            ∙ ap (λ x. wake_all R (woken_by P R x.1) s.executor.task_queue) e
            ∙ ap (λ x. wake_all R (own P R task_id ∷ []) x) h.queue
            ∙ full_panics q' (own P R task_id) (
                omega (
                  arith,
                  space,
                  size,
                  ap length queued,
                  length-append (R.queue.items q)
                      (replicate (R.queue.capacity q - length (R.queue.items q)) task_id),
                  length-replicate (R.queue.capacity q - length (R.queue.items q)) task_id,
                )),
      )
