-- ===== src/Kernel/Interleaving/Flood.antt =====
-- A key press between the two pops of one poll of the keyboard task.
use taijios.Common.{
  ℕ, ◌<◌, arith, ◌≡◌, ◌≢◌, ◌∙◌, inl, inr, refl, sym, ap, true, some, [], ◌∷◌, ◌++◌, length, ok,
}
use taijios.Task.Keyboard as Keyboard
use taijios.Task.Keyboard.Cases.{pop_scancode-cases, add_scancode-cases}
use taijios.Task.Executor.{Runtime, cached}
use taijios.Task.Executor.Serve.{wake_all-append}
use taijios.Kernel.{Platform, crates}
use taijios.Kernel.Interleaving.{
  polling, Machine, woken_by, resumed, goes, loops, key, Reach, later,
}
use taijios.Kernel.Interleaving.Invariant.{own}

module _ (P : Platform) (R : Runtime) (task_id : ℕ) (initial : Machine P R) where
  open P use {scancodes, cell, atomic}

  abbrev pub Statics : Type 0
  Statics = Keyboard.Statics (crates P)

  -- The machine in a poll: with its histories, the ready queue and the queue of the cell.
  pub record Polls (stage : Keyboard.Stage (crates P)) (self : Statics) (opened : scancodes.Queue)
      (q : R.queue.Queue) (s : Machine P R) : Type 0 where
    pub reached : Reach P R task_id initial s
    pub within : s.stage ≡ polling
    pub enabled : s.interrupts ≡ true
    pub at : s.keyboard.stage ≡ stage
    pub statics : s.keyboard.statics ≡ self
    pub has : cell.try_get self.scancode_queue ≡ some opened
    pub queue : s.executor.task_queue ≡ q
    pub waker : cached s.executor.waker_cache task_id ≡ own P R task_id

  -- A step of `poll_next`, where the poll goes on.
  step :
      {stage to : Keyboard.Stage (crates P)} {self after : Statics}
      {opened opened' : scancodes.Queue} {q : R.queue.Queue} {s : Machine P R}
      → Polls stage self opened q s
      → ((r : Keyboard.Polled) → stage ≢ Keyboard.returned r)
      → Keyboard.poll_step (crates P) (own P R task_id) stage self ≡ ok (to, after)
      → cell.try_get after.scancode_queue ≡ some opened'
      → (t : Machine P R) × Polls to after opened' q t
  step {stage} {to} {self} {after} {opened} {opened'} {q} {s} h runs e has = (
    _,
    record {
      reached = later h.reached (
          goes to after h.within (λ r f. runs r (sym h.at ∙ f))
            (let a = h.at in let b = h.statics in let c = h.waker in rw (a, b, c) e) refl);
      within = h.within;
      enabled = h.enabled;
      at = refl;
      statics = refl;
      has = has;
      queue = h.queue;
      waker = h.waker;
    },
  )

  missed_runs :
      (r : Keyboard.Polled)
      → ◌≢◌ {A = Keyboard.Stage (crates P)} Keyboard.missed (Keyboard.returned r)
  missed_runs r e = absurd cc

  -- A poll that finds no scancode stores the waker.
  pub registers :
      (self : Statics) (opened : scancodes.Queue) (q : R.queue.Queue) (s : Machine P R)
      → scancodes.items opened ≡ []
      → Polls Keyboard.called self opened q s
      → (after : Statics) × (t : Machine P R) × (atomic.stored after.waker ≡ some (own P R task_id))
        × Polls Keyboard.registered after opened q t
  unfolding Keyboard.poll_step Keyboard.register
  registers self opened q s empty h = elim (pop_scancode-cases (crates P) self opened h.has) [
    | inl (_, _, _, at, _, _) ↦ absurd cc
    | inr (e, _) ↦
        let (t, missed) = step {to = Keyboard.missed} h (λ r f. absurd cc) (rw e refl) h.has in
        let (u, stored) = step {to = Keyboard.registered} missed missed_runs refl h.has in
        (_, u, atomic.register_law self.waker (own P R task_id), stored)
  ]

  -- A key press then wakes the task.
  pub wakes_own :
      (self : Statics) (opened : scancodes.Queue) (scancode : ℕ)
      → cell.try_get self.scancode_queue ≡ some opened
      → scancodes.items opened ≡ []
      → 0 < scancodes.capacity opened
      → atomic.stored self.waker ≡ some (own P R task_id)
      → (after : Statics) × (opened' : scancodes.Queue) × (Keyboard.add_scancode
            (crates P)
            self
            scancode
          ≡ (after, Keyboard.wakes (some (own P R task_id))))
        × (cell.try_get after.scancode_queue ≡ some opened')
        × (scancodes.items opened' ≡ scancode ∷ [])
        × (scancodes.capacity opened' ≡ scancodes.capacity opened)
  wakes_own self opened scancode has empty room stored =
      elim (add_scancode-cases (crates P) self scancode opened has) [
        | inr (_, full) ↦ absurd (omega (arith, room, full, ap length empty))
        | inl (opened', e, at, has', kept, _) ↦ (
          _,
          opened',
          e
              ∙ ap
                  (λ w. (
                    record {
                      scancode_queue = cell.write self.scancode_queue opened';
                      waker = (atomic.take self.waker).1;
                    },
                    Keyboard.wakes w,
                  ))
                  ((atomic.take_law self.waker).0 ∙ stored),
          has',
          at ∙ ap (λ l. l ++ (scancode ∷ [])) empty,
          kept,
        )
      ]

  -- A key press while the poll has its waker registered.
  pub presses :
      (self : Statics) (opened : scancodes.Queue) (q : R.queue.Queue) (s : Machine P R)
      (scancode : ℕ)
      → scancodes.items opened ≡ []
      → 0 < scancodes.capacity opened
      → length (R.queue.items q) < R.queue.capacity q
      → atomic.stored self.waker ≡ some (own P R task_id)
      → Polls Keyboard.registered self opened q s
      → (after : Statics) × (opened' : scancodes.Queue) × (q' : R.queue.Queue) × (t : Machine P R)
        × (scancodes.items opened' ≡ scancode ∷ [])
        × (scancodes.capacity opened' ≡ scancodes.capacity opened)
        × (R.queue.items q' ≡ R.queue.items q ++ (task_id ∷ []))
        × (R.queue.capacity q' ≡ R.queue.capacity q)
        × Polls Keyboard.registered after opened' q' t
  unfolding woken_by resumed
  presses self opened q s scancode empty room space stored h =
      let (after, opened', e, has, at, kept) =
        wakes_own self opened scancode h.has empty room stored in
      let (q', woke, queued, size) = wake_all-append R (own P R task_id ∷ []) q (omega arith) in
      (
        after,
        opened',
        q',
        _,
        at,
        kept,
        queued,
        size,
        record {
          reached = later h.reached (
              key scancode after (Keyboard.wakes (some (own P R task_id))) q' h.enabled
                (let b = h.statics in rw b e) (let c = h.queue in rw c woke) refl);
          within = ap (resumed P R) h.within;
          enabled = h.enabled;
          at = h.at;
          statics = refl;
          has = has;
          queue = refl;
          waker = h.waker;
        },
      )

  -- The second pop takes the scancode, and the loop polls the stream again.
  pub takes :
      (self : Statics) (opened : scancodes.Queue) (q : R.queue.Queue) (s : Machine P R)
      (scancode : ℕ)
      → scancodes.items opened ≡ scancode ∷ []
      → Polls Keyboard.registered self opened q s
      → (after : Statics) × (opened' : scancodes.Queue) × (t : Machine P R) × (scancodes.items
            opened'
          ≡ [])
        × (scancodes.capacity opened' ≡ scancodes.capacity opened)
        × Polls Keyboard.called after opened' q t
  unfolding Keyboard.poll_step Keyboard.unregister
  takes self opened q s scancode one h = elim (pop_scancode-cases (crates P) self opened h.has) [
    | inr (_, empty) ↦ absurd cc
    | inl (a, opened', e, at, has, kept) ↦
        let next : Statics = record {
          scancode_queue = cell.write self.scancode_queue opened';
          waker = (atomic.take self.waker).1;
        } in
        let between : Statics = record self {
          scancode_queue = cell.write self.scancode_queue opened';
        } in
        let (u, holds) =
          step {to = Keyboard.popped a} {after = between} h
            (λ r f. absurd (let g : Keyboard.registered ≡ Keyboard.returned r = f in cc))
            (rw e refl) has in
        let (t, done) =
          step {to = Keyboard.returned (Keyboard.ready a)} {after = next} holds
            (λ r f. absurd (let g : Keyboard.popped a ≡ Keyboard.returned r = f in cc)) refl has in
        let none_left : scancodes.items opened' ≡ [] = cc in
        (
          next,
          opened',
          _,
          none_left,
          kept,
          record {
            reached = later done.reached (loops a done.within done.at refl);
            within = done.within;
            enabled = done.enabled;
            at = refl;
            statics = done.statics;
            has = done.has;
            queue = done.queue;
            waker = done.waker;
          },
        )
  ]
