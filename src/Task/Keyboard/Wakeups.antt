-- ===== src/Task/Keyboard/Wakeups.antt =====
-- What the keyboard task can rely on, from `ScancodeStream::new` on.
use mathlib.Core.Path.{subst}
use taijios.Common.{
  ℕ, ◌<◌, ◌≡◌, ◌⊎◌, ◌∙◌, inl, inr, refl, sym, ap, arith, true, false, none, some, [], ◌∷◌, ◌++◌,
  length, ok, panic, ok_unique, Outcome-cases, ◌>>=◌,
}
use taijios.Task.Keyboard.{
  Crates, pending, ready, Statics, stream_new, pop_scancode, called, returned, poll_next, poll_step,
  register,
}
use taijios.Task.Keyboard.Race.{Machine, held, Reach}
use taijios.Task.Keyboard.Cases.{pop_scancode-cases}
use taijios.Task.Keyboard.Invariant.{Armed, Good, Reach-Good}

module _ (C : Crates) where
  open C use {queue, cell, atomic, Waker}

  -- The first stream can be made: its queue is empty and holds up to 100 scancodes. A second one
  -- panics.
  pub stream_new_once :
      (self : Statics C)
      → cell.try_get self.scancode_queue ≡ none
      → (after : Statics C) × (q : queue.Queue) × (stream_new C self ≡ ok after)
        × (cell.try_get after.scancode_queue ≡ some q)
        × (queue.items q ≡ [])
        × (queue.capacity q ≡ 100)
        × (stream_new C after ≡ panic)
  unfolding stream_new
  stream_new_once self closed = elim (cell.init_law self.scancode_queue (queue.new 100)) [
    | inl (_, c, e, at) ↦ (
      record self { scancode_queue = c },
      queue.new 100,
      rw e refl,
      at,
      (queue.new_law 100).0,
      (queue.new_law 100).1,
      elim (cell.init_law c (queue.new 100)) [
        | inl (open_, _, _, _) ↦ absurd cc
        | inr (b, _, e') ↦ rw e' refl
      ],
    )
    | inr (b, e, _) ↦ absurd cc
  ]

  -- The machine when the stream was made.
  abbrev pub begin : Statics C → Machine C
  begin statics = record {
    statics = statics;
    stage = called;
    accepted = [];
    delivered = [];
    notified = false;
  }

  same_queue :
      (w : Waker) {s : Machine C} (h : Good C w s) (q : queue.Queue)
      → cell.try_get s.statics.scancode_queue ≡ some q
      → queue.items h.q ≡ queue.items q
  same_queue w h q e = cc

  module _ (w : Waker) (self : Statics C) {made : Statics C}
      (closed : cell.try_get self.scancode_queue ≡ none)
      (new_stream : stream_new C self ≡ ok made) where
    begin-Good : Good C w (begin made)
    begin-Good =
        let (after, q, e, at, empty, _, _) = stream_new_once self closed in
        subst (λ (s : Statics C). Good C w (begin s)) (ok_unique e new_stream)
          (record { q = q; opened = at; order = sym empty; armed = tt })

    -- No wake-up is lost: in every interleaving of the stream and the interrupt handler, when a poll
    -- returned `Pending` and a scancode is waiting, the task's waker was woken since it was
    -- registered.
    pub no_lost_wakeup :
        {s : Machine C} (q : queue.Queue)
        → Reach C w (begin made) s
        → s.stage ≡ returned pending
        → cell.try_get s.statics.scancode_queue ≡ some q
        → 0 < length (queue.items q)
        → s.notified ≡ true
    no_lost_wakeup {s} q r e at waiting =
        let h = Reach-Good C w begin-Good r in
        elim (subst (λ t. Armed C w t h.q s.statics.waker s.notified) e h.armed) [
          | inl (_, empty) ↦
              absurd (omega (arith, waiting, ap length (sym (same_queue w h q at) ∙ empty)))
          | inr woken ↦ woken
        ]

    -- Scancodes arrive in order: those that were accepted are those that were delivered, then the one
    -- that a poll has popped and not returned yet, and then those in the queue, none lost and none
    -- twice.
    pub delivered_in_order :
        {s : Machine C} (q : queue.Queue)
        → Reach C w (begin made) s
        → cell.try_get s.statics.scancode_queue ≡ some q
        → s.accepted ≡ s.delivered ++ (held C s.stage ++ queue.items q)
    delivered_in_order {s} q r at =
        let h = Reach-Good C w begin-Good r in
        h.order ∙ ap (λ l. s.delivered ++ (held C s.stage ++ l)) (same_queue w h q at)

  -- Without an interrupt, four steps are `poll_next`, whatever it finds.
  pub poll_step-poll_next :
      (w : Waker) (self : Statics C)
      → (do
        (s1, self1) ← poll_step C w called self
        (s2, self2) ← poll_step C w s1 self1
        (s3, self3) ← poll_step C w s2 self2
        poll_step C w s3 self3)
        ≡ (do (r, after) ← poll_next C w self; ok (returned r, after))
  unfolding poll_next poll_step
  poll_step-poll_next w self = elim (Outcome-cases (pop_scancode C self)) [
    | inl e ↦ rw e refl
    | inr ((some a, self1), e) ↦ rw e refl
    | inr ((none, self1), e) ↦ elim (Outcome-cases (pop_scancode C (register C self1 w))) [
      | inl f ↦ rw (e, f) refl
      | inr ((none, self2), f) ↦ rw (e, f) refl
      | inr ((some again, self2), f) ↦ rw (e, f) refl
    ]
  ]

  -- Where no interrupt comes, `poll_next` on a stream does not panic: it yields the first scancode
  -- and leaves the waker alone, or finds none and registers its own waker.
  pub poll_next_cases :
      (w : Waker) (self : Statics C) (q : queue.Queue)
      → cell.try_get self.scancode_queue ≡ some q
      → ((a : ℕ) × (q' : queue.Queue) × (queue.items q ≡ a ∷ queue.items q')
          × (queue.capacity q' ≡ queue.capacity q)
          × (poll_next C w self
              ≡ ok (ready a, record self { scancode_queue = cell.write self.scancode_queue q' })))
        ⊎ ((queue.items q ≡ [])
            × (poll_next C w self
                ≡ ok (pending, record self { waker = atomic.register self.waker w })))
  unfolding poll_next poll_step register
  poll_next_cases w self q e = elim (pop_scancode-cases C self q e) [
    | inl (a, q', popped, at, _, kept) ↦ inl (a, q', at, kept, rw popped refl)
    | inr (missed_, at) ↦ elim (pop_scancode-cases C (register C self w) q e) [
      | inl (a, q', _, some_, _, _) ↦ absurd cc
      | inr (again, _) ↦ inr (at, rw (missed_, again) refl)
    ]
  ]
