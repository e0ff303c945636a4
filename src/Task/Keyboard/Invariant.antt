-- ===== src/Task/Keyboard/Invariant.antt =====
-- What every step of the stream and of the interrupt handler keeps.
use mathlib.Core.List.{append_assoc, append-nil}
use mathlib.Core.Path.{subst}
use taijios.Common.{
  ℕ, ◌≡◌, ◌≢◌, ◌⊎◌, ◌∙◌, inl, inr, refl, sym, ap, Bool, true, Option, none, some, List, [], ◌∷◌,
  ◌++◌, ok, ok_unique,
}
use taijios.Task.Keyboard.{
  Crates, Polled, pending, ready, Statics, Effect, warns, wakes, add_scancode, register, unregister,
  Stage, called, missed, registered, popped, returned, poll_step,
}
use taijios.Task.Keyboard.Cases.{pop_scancode-cases, add_scancode-cases}
use taijios.Task.Keyboard.Race.{
  Machine, result, held, notice, taken, heard, Step, poll, interrupt, again, Reach, start, later,
}

no_more :
    (accepted delivered items : List ℕ)
    → accepted ≡ delivered ++ items
    → accepted ≡ (delivered ++ []) ++ items
no_more accepted delivered items e = e ∙ ap (λ l. l ++ items) (sym (append-nil delivered))

one_more :
    (accepted delivered items rest : List ℕ) (a : ℕ)
    → accepted ≡ delivered ++ items
    → items ≡ a ∷ rest
    → accepted ≡ (delivered ++ (a ∷ [])) ++ rest
one_more accepted delivered items rest a e at =
    e ∙ ap (λ l. delivered ++ l) at ∙ sym (append_assoc delivered (a ∷ []) rest)

module _ (C : Crates) where
  open C use {queue, cell, atomic, Waker}

  module _ (w : Waker) where
    -- Whom the next scancode wakes: once the waker is registered it is stored, or was woken since.
    abbrev pub Armed : Stage C → queue.Queue → atomic.Cell → Bool → Type 0
    Armed called q c b = Unit
    Armed missed q c b = Unit
    Armed registered q c b = (atomic.stored c ≡ some w) ⊎ (b ≡ true)
    Armed (popped scancode) q c b = Unit
    Armed (returned pending) q c b =
        ((atomic.stored c ≡ some w) × (queue.items q ≡ [])) ⊎ (b ≡ true)
    Armed (returned (ready scancode)) q c b = Unit

    pub record Holds (statics : Statics C) (stage : Stage C) (accepted delivered : List ℕ)
        (notified : Bool) : Type 0 where
      pub q : queue.Queue
      pub opened : cell.try_get statics.scancode_queue ≡ some q
      pub order : accepted ≡ delivered ++ (held C stage ++ queue.items q)
      pub armed : Armed stage q statics.waker notified

  module _ (w : Waker) where
    abbrev After : List ℕ → List ℕ → Bool → Stage C × Statics C → Type 0
    After accepted delivered b p = Holds w p.1 p.0 accepted (delivered ++ result C p.0) b

    -- One step of `poll_next` keeps it.
    poll_step-Holds :
        (stage : Stage C) (self : Statics C) (accepted delivered : List ℕ) (b : Bool)
        → ((r : Polled) → stage ≢ returned r)
        → Holds w self stage accepted delivered b
        → (p : Stage C × Statics C) × (poll_step C w stage self ≡ ok p)
          × After accepted delivered (notice C stage b) p
    unfolding poll_step register unregister
    poll_step-Holds called self accepted delivered b running h =
        elim (pop_scancode-cases C self h.q h.opened) [
          | inl (a, q', e, at, opened, _) ↦ (
            (
              returned (ready a),
              record self { scancode_queue = cell.write self.scancode_queue q' },
            ),
            rw e refl,
            record {
              q = q';
              opened = opened;
              order = one_more accepted delivered (queue.items h.q) (queue.items q') a h.order at;
              armed = tt;
            },
          )
          | inr (e, at) ↦ (
            (missed, self),
            rw e refl,
            record {
              q = h.q;
              opened = h.opened;
              order = no_more accepted delivered (queue.items h.q) h.order;
              armed = tt;
            },
          )
        ]
    poll_step-Holds missed self accepted delivered b running h = (
      (registered, record self { waker = atomic.register self.waker w }),
      refl,
      record {
        q = h.q;
        opened = h.opened;
        order = no_more accepted delivered (queue.items h.q) h.order;
        armed = inl (atomic.register_law self.waker w);
      },
    )
    poll_step-Holds registered self accepted delivered b running h =
        elim (pop_scancode-cases C self h.q h.opened) [
          | inl (a, q', e, at, opened, _) ↦ (
            (popped a, record self { scancode_queue = cell.write self.scancode_queue q' }),
            rw e refl,
            record {
              q = q';
              opened = opened;
              order =
                  no_more accepted delivered (a ∷ queue.items q')
                    (h.order ∙ ap (λ l. delivered ++ l) at);
              armed = tt;
            },
          )
          | inr (e, at) ↦ (
            (returned pending, self),
            rw e refl,
            record {
              q = h.q;
              opened = h.opened;
              order = no_more accepted delivered (queue.items h.q) h.order;
              armed = elim h.armed [ inl stored ↦ inl (stored, at) | inr woken ↦ inr woken ];
            },
          )
        ]
    poll_step-Holds (popped a) self accepted delivered b running h = (
      (returned (ready a), record self { waker = (atomic.take self.waker).1 }),
      refl,
      record {
        q = h.q;
        opened = h.opened;
        order = one_more accepted delivered (a ∷ queue.items h.q) (queue.items h.q) a h.order refl;
        armed = tt;
      },
    )
    poll_step-Holds (returned r) self accepted delivered b running h = absurd (running r refl)

    heard_again : (e : Effect C) → heard C e true ≡ true
    heard_again (warns warning) = refl
    heard_again (wakes none) = refl
    heard_again (wakes (some other)) = refl

    heard_stored :
        (woken : Option Waker) (b : Bool) → woken ≡ some w → heard C (wakes woken) b ≡ true
    heard_stored none b e = absurd cc
    heard_stored (some other) b e = refl

    -- A scancode that goes into the queue wakes the task, if it needs to be woken.
    woken-Armed :
        (stage : Stage C) (q q' : queue.Queue) (c : atomic.Cell) (b : Bool)
        → Armed w stage q c b
        → Armed w stage q' (atomic.take c).1 (heard C (wakes (atomic.take c).0) b)
    woken-Armed called q q' c b h = tt
    woken-Armed missed q q' c b h = tt
    woken-Armed registered q q' c b (inl stored) =
        inr (heard_stored (atomic.take c).0 b ((atomic.take_law c).0 ∙ stored))
    woken-Armed registered q q' c b (inr woken) =
        inr (rw woken (heard_again (wakes (atomic.take c).0)))
    woken-Armed (popped scancode) q q' c b h = tt
    woken-Armed (returned pending) q q' c b (inl (stored, empty)) =
        inr (heard_stored (atomic.take c).0 b ((atomic.take_law c).0 ∙ stored))
    woken-Armed (returned pending) q q' c b (inr woken) =
        inr (rw woken (heard_again (wakes (atomic.take c).0)))
    woken-Armed (returned (ready scancode)) q q' c b h = tt

    -- The interrupt handler keeps it, at any point.
    add_scancode-Holds :
        (stage : Stage C) (self : Statics C) (accepted delivered : List ℕ) (b : Bool) (scancode : ℕ)
        → Holds w self stage accepted delivered b
        → (p : Statics C × Effect C) × (add_scancode C self scancode ≡ p)
          × Holds w p.0 stage (accepted ++ taken C p.1 scancode) delivered (heard C p.1 b)
    add_scancode-Holds stage self accepted delivered b scancode h =
        elim (add_scancode-cases C self scancode h.q h.opened) [
          | inl (q', e, at, opened, _, _) ↦ (
            _,
            e,
            record {
              q = q';
              opened = opened;
              order =
                  ap (λ l. l ++ (scancode ∷ [])) h.order
                  ∙ append_assoc delivered (held C stage ++ queue.items h.q) (scancode ∷ [])
                  ∙ ap (λ l. delivered ++ l)
                      (append_assoc (held C stage) (queue.items h.q) (scancode ∷ [])
                        ∙ ap (λ l. held C stage ++ l) (sym at));
              armed = woken-Armed stage h.q q' self.waker b h.armed;
            },
          )
          | inr (e, at) ↦ (
            _,
            e,
            record {
              q = h.q;
              opened = h.opened;
              order = append-nil accepted ∙ h.order;
              armed = h.armed;
            },
          )
        ]

    abbrev pub Good : Machine C → Type 0
    Good s = Holds w s.statics s.stage s.accepted s.delivered s.notified

    pub Step-Good : (s t : Machine C) → Step C w s t → Good s → Good t
    Step-Good s t (poll to statics running e f) h =
        let (p, known, good) =
          poll_step-Holds s.stage s.statics s.accepted s.delivered s.notified running h in
        subst Good (sym f) (
          subst (After s.accepted s.delivered (notice C s.stage s.notified)) (ok_unique known e)
            good)
    Step-Good s t (interrupt scancode statics effect e f) h =
        let (p, known, good) =
          add_scancode-Holds s.stage s.statics s.accepted s.delivered s.notified scancode h in
        subst Good (sym f) (
          subst
            (λ (r : Statics C × Effect C).
              Holds w r.0 s.stage (s.accepted ++ taken C r.1 scancode) s.delivered
                (heard C r.1 s.notified))
            (sym known ∙ e) good)
    Step-Good s t (again r e f) h = subst Good (sym f) (record {
      q = h.q;
      opened = h.opened;
      order = h.order ∙ ap (λ x. s.delivered ++ (held C x ++ queue.items h.q)) e;
      armed = tt;
    })

    pub Reach-Good : {initial s : Machine C} → Good initial → Reach C w initial s → Good s
    Reach-Good good (start e) = subst Good (sym e) good
    Reach-Good good (later {s} {t} r step) = Step-Good s t step (Reach-Good good r)
