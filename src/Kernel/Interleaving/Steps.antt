-- ===== src/Kernel/Interleaving/Steps.antt =====
-- Every step keeps that a wake-up which the keyboard task has not answered is in the ready queue.
use mathlib.Core.List.{Mem, mem_of_ne_of_mem, mem-append_left}
use mathlib.Core.Path.{subst}
use taijios.Common.{ℕ, ◌≡◌, ◌∙◌, inl, inr, refl, sym, Bool, true, some, ok}
use taijios.Task.Keyboard as Keyboard
use taijios.Task.Keyboard.Race as Race
use taijios.Task.Keyboard.Invariant as Armed
use taijios.Task.Executor.Sleep as Sleep
use taijios.Task.Executor.{Runtime, cached, wake_all}
use taijios.Task.Executor.Keeps.{settle_self, cached-known, pop-items, run_one-other}
use taijios.Kernel.{Platform, crates}
use taijios.Kernel.Interleaving.{
  Stage, in_loop, polling, Machine, woken_by, resumed, Step, polls, serves, drains, goes, loops,
  waits, sleeps, key, timer, Reach, start, later,
}
use taijios.Kernel.Interleaving.Invariant.{own, Aware, At, Fits, poll_step-Aware, key-Queued}

module _ (P : Platform) (R : Runtime) (task_id : ℕ) where
  open P use {scancodes, cell, atomic}

  -- A stage that relies on a wake-up has its waker stored or was woken.
  key-Aware :
      (stage : Keyboard.Stage (crates P)) (self after : Keyboard.Statics (crates P))
      (effect : Keyboard.Effect (crates P)) (scancode : ℕ) (opened : scancodes.Queue)
      (notified : Bool) (q q' : R.queue.Queue)
      → cell.try_get self.scancode_queue ≡ some opened
      → Armed.Armed (crates P) (own P R task_id) stage opened self.waker notified
      → Aware P R task_id stage notified q
      → Keyboard.add_scancode (crates P) self scancode ≡ (after, effect)
      → wake_all R (woken_by P R effect) q ≡ ok q'
      → Aware P R task_id stage (Race.heard (crates P) effect notified) q'
  key-Aware Keyboard.called self after effect scancode opened notified q q' at armed h e woke = tt
  key-Aware Keyboard.missed self after effect scancode opened notified q q' at armed h e woke = tt
  key-Aware Keyboard.registered self after effect scancode opened notified q q' at armed h e woke =
      key-Queued P R task_id self after effect scancode opened notified q q' at armed h e woke
  key-Aware (Keyboard.popped a) self after effect scancode opened notified q q' at armed h e woke =
      tt
  key-Aware (Keyboard.returned Keyboard.pending) self after effect scancode opened notified q q' at
        armed h e woke =
      key-Queued P R task_id self after effect scancode opened notified q q' at
        (elim armed [ inl (stored, _) ↦ inl stored | inr f ↦ inr f ]) h e woke
  key-Aware (Keyboard.returned (Keyboard.ready a)) self after effect scancode opened notified q q'
        at armed h e woke =
      tt

  abbrev pub Place : Stage → Bool → Race.Machine (crates P) → R.queue.Queue → Type 0
  Place stage on keyboard q = At P R task_id stage on keyboard.stage keyboard.notified q

  -- after an interrupt that leaves the poll at its stage
  resumed-At :
      (stage : Stage) (on : Bool) (poll : Keyboard.Stage (crates P)) (notified heard : Bool)
      (q q' : R.queue.Queue)
      → on ≡ true
      → (Aware P R task_id poll notified q → Aware P R task_id poll heard q')
      → At P R task_id stage on poll notified q
      → At P R task_id (resumed P R stage) on poll heard q'
  unfolding resumed
  resumed-At (in_loop stage) on poll notified heard q q' enabled keeps (e, safe, queued) = (
    e,
    Sleep.resumed-Safe R stage on q q' enabled safe,
    subst (λ s. Aware P R task_id s notified q → Aware P R task_id s heard q') e keeps queued,
  )
  resumed-At polling on poll notified heard q q' enabled keeps (e, aware) = (e, keeps aware)

  pub there :
      {s : Machine P R} (h : Fits P R task_id s) (stage : Stage)
      → s.stage ≡ stage
      → At P R task_id stage s.interrupts s.keyboard.stage s.keyboard.notified s.executor.task_queue
  there {s} h stage e =
      subst
        (λ (x : Stage).
          At P R task_id x s.interrupts s.keyboard.stage s.keyboard.notified s.executor.task_queue)
        e h.place

  pub Step-Fits :
      (s t : Machine P R) → Step P R task_id s t → Fits P R task_id s → Fits P R task_id t
  Step-Fits s t (polls task q at popped known f) h = subst (Fits P R task_id) (sym f) (record {
    race =
        Armed.Step-Good (crates P) (own P R task_id) s.keyboard
          (record s.keyboard { stage = Keyboard.called })
          (Race.again Keyboard.pending (there h _ at).0 refl) h.race;
    known = (task, known);
    waker = h.waker;
    place = ((there h _ at).1, tt);
  })
  Step-Fits s t (serves id q after world at popped other ran f) h =
      let (e, safe, queued) = there h _ at in
      let (tasks, cache, more, items) =
        run_one-other R id task_id (record s.executor { task_queue = q }) after s.world world other
          ran in
      subst (Fits P R task_id) (sym f) (record {
        race = h.race;
        known = (h.known.0, tasks ∙ h.known.1);
        waker = cache ∙ h.waker;
        place =
            subst (λ x. Place x s.interrupts s.keyboard after.task_queue) (sym at)
              (
                e,
                safe,
                λ n. subst (Mem task_id) (sym items) (
                    mem-append_left more (
                      mem_of_ne_of_mem (λ same. other (sym same))
                        (subst (Mem task_id) (pop-items R id s.executor.task_queue q popped)
                          (queued n)))),
              );
      })
  Step-Fits s t (drains at popped f) h =
      subst (Fits P R task_id) (sym f)
        (record { race = h.race; known = h.known; waker = h.waker; place = there h _ at })
  Step-Fits s t (goes to statics at runs e f) h =
      let e' =
        subst
          (λ w.
            Keyboard.poll_step (crates P) w s.keyboard.stage s.keyboard.statics ≡ ok (to, statics))
          h.waker e in
      let (on, aware) = there h _ at in
      subst (Fits P R task_id) (sym f) (record {
        race =
            Armed.Step-Good (crates P) (own P R task_id) s.keyboard _
              (Race.poll to statics runs e' refl) h.race;
        known = h.known;
        waker = h.waker;
        place =
            subst
              (λ x.
                At P R task_id x s.interrupts to
                  (Race.notice (crates P) s.keyboard.stage s.keyboard.notified)
                  s.executor.task_queue)
              (sym at)
              (
                on,
                poll_step-Aware P R task_id s.keyboard.stage to s.keyboard.statics statics
                    s.keyboard.notified s.executor.task_queue runs e' aware,
              );
      })
  Step-Fits s t (loops scancode at e f) h = subst (Fits P R task_id) (sym f) (record {
    race =
        Armed.Step-Good (crates P) (own P R task_id) s.keyboard
          (record s.keyboard { stage = Keyboard.called })
          (Race.again (Keyboard.ready scancode) e refl) h.race;
    known = h.known;
    waker = h.waker;
    place =
        subst
          (λ x.
            At P R task_id x s.interrupts Keyboard.called s.keyboard.notified s.executor.task_queue)
          (sym at) ((there h _ at).0, tt);
  })
  Step-Fits s t (waits task at e f) h = subst (Fits P R task_id) (sym f) (record {
    race = h.race;
    known = (task, settle_self s.executor.tasks task_id task);
    waker =
        cached-known _ task_id _
          (settle_self s.executor.waker_cache task_id (cached s.executor.waker_cache task_id))
        ∙ h.waker;
    place = (
      e,
      (there h _ at).0,
      subst (λ x. Aware P R task_id x s.keyboard.notified s.executor.task_queue) e (there h _ at).1,
    );
  })
  Step-Fits s t (sleeps stage at awake on f) h =
      let (e, safe, queued) = there h _ at in
      subst (Fits P R task_id) (sym f) (record {
        race = h.race;
        known = h.known;
        waker = h.waker;
        place = (e, Sleep.sleep_step-Safe R stage s.interrupts s.executor awake on safe, queued);
      })
  Step-Fits s t (key scancode statics effect q on e woke f) h =
      subst (Fits P R task_id) (sym f) (record {
        race =
            Armed.Step-Good (crates P) (own P R task_id) s.keyboard _
              (Race.interrupt scancode statics effect e refl) h.race;
        known = h.known;
        waker = h.waker;
        place =
            resumed-At s.stage s.interrupts s.keyboard.stage s.keyboard.notified
              (Race.heard (crates P) effect s.keyboard.notified) s.executor.task_queue q on
              (λ aware.
                key-Aware s.keyboard.stage s.keyboard.statics statics effect scancode h.race.q
                  s.keyboard.notified s.executor.task_queue q h.race.opened h.race.armed aware e
                  woke)
              h.place;
      })
  Step-Fits s t (timer on f) h = subst (Fits P R task_id) (sym f) (record {
    race = h.race;
    known = h.known;
    waker = h.waker;
    place =
        resumed-At s.stage s.interrupts s.keyboard.stage s.keyboard.notified s.keyboard.notified
          s.executor.task_queue s.executor.task_queue on (λ aware. aware) h.place;
  })

  pub Reach-Fits :
      {initial s : Machine P R}
      → Fits P R task_id initial
      → Reach P R task_id initial s
      → Fits P R task_id s
  Reach-Fits fits (start e) = subst (Fits P R task_id) (sym e) fits
  Reach-Fits fits (later {s} {t} r step) = Step-Fits s t step (Reach-Fits fits r)
