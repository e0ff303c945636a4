-- ===== src/Kernel/Keypress.antt =====
-- From a key press to the screen: the interrupt handler, the executor, the keyboard task and the
-- writer together.
use mathlib.Core.Path.{subst}
use taijios.Common.{
  ℕ, suc, ◌<◌, ◌≡◌, ◌∙◌, inl, inr, refl, sym, ap, arith, Option, none, some, [], ◌∷◌, ◌++◌, length,
  Outcome, ok, panic,
}
use taijios.Vga.{Writer}
use taijios.Vga.Screen.{Screen, type_string}
use taijios.Vga.Shows.{Typed}
use taijios.Task.{Task, pending}
use taijios.Task.Keyboard.{Statics}
use taijios.Task.Keyboard.Keypresses.{poll_loop}
use taijios.Task.Keyboard.Keypresses.Typing.{text_of, poll_loop-types}
use taijios.Task.Executor.{TaskWaker, Executor, cached, settle, insert, run_ready_tasks}
use taijios.Task.Executor.Turns.{insert_self, run_one-quiet, run_ready_tasks-one}
use taijios.Kernel.{Platform, crates, Future, World, typing, runtime, waiting, looped, kernel_poll}
use taijios.Interrupts.{Machine}
use taijios.Kernel.Handler.{woken_id, on_key, keyboard_interrupt_handler-cases}

module _ (P : Platform) where
  open P use {scancodes, cell, atomic, volatile, pics, decoder, ready_queue}
  open decoder use {Keyboard}

  typing-turn :
      (w : TaskWaker) (k k' : Keyboard) (st st' : Statics (crates P)) (wr wr' : Writer volatile)
      (q : scancodes.Queue)
      → cell.try_get st.scancode_queue ≡ some q
      → poll_loop (crates P) volatile decoder (suc (length (scancodes.items q))) w k st wr
        ≡ some (ok (k', st', wr'))
      → kernel_poll P w (typing k) (st, wr)
        ≡ ok (record { state = pending; future = typing k'; world = (st', wr'); woken = [] })
  unfolding kernel_poll looped waiting
  typing-turn w k k' st st' wr wr' q opened polled =
      let bound : waiting P st ≡ suc (length (scancodes.items q)) = rw (waiting, opened) refl in
      ap (λ n. looped P (poll_loop (crates P) volatile decoder n w k st wr)) bound
      ∙ ap (looped P) polled

  -- The system is idle: no scancode waits, the keyboard task is pending with its waker cached and
  -- stored, no task is ready, and the writer shows the screen.
  pub record Idle (statics : Statics (crates P)) (writer : Writer volatile)
      (e : Executor (runtime P)) (w : TaskWaker) (k : Keyboard) (s : Screen) (color : ℕ)
      : Type 0 where
    pub q : scancodes.Queue
    pub opened : cell.try_get statics.scancode_queue ≡ some q
    pub none_waits : scancodes.items q ≡ []
    pub room : 0 < scancodes.capacity q
    pub stored : atomic.stored statics.waker ≡ some w
    pub typed : Typed volatile color s writer
    pub none_ready : ready_queue.items e.task_queue ≡ []
    pub space : 0 < ready_queue.capacity e.task_queue
    pub known : e.tasks w.task_id ≡ some (record { id = w.task_id; future = typing k })
    pub kept : e.waker_cache w.task_id ≡ some w

  -- The loop serves the keyboard task, which is alone in the queue, and ends.
  task_runs :
      (e : Executor (runtime P)) (w : TaskWaker) (k k' : Keyboard) (world later : World P)
      → ready_queue.items e.task_queue ≡ w.task_id ∷ []
      → e.tasks w.task_id ≡ some (record { id = w.task_id; future = typing k })
      → e.waker_cache w.task_id ≡ some w
      → kernel_poll P w (typing k) world
        ≡ ok (record { state = pending; future = typing k'; world = later; woken = [] })
      → (after : Executor (runtime P)) × (run_ready_tasks (runtime P) 1 e world
          ≡ some (ok (after, later)))
        × (ready_queue.items after.task_queue ≡ [])
        × (ready_queue.capacity after.task_queue ≡ ready_queue.capacity e.task_queue)
        × (after.tasks w.task_id ≡ some (record { id = w.task_id; future = typing k' }))
        × (after.waker_cache w.task_id ≡ some w)
  unfolding settle cached
  task_runs e w k k' world later alone known stored polled =
      elim (ready_queue.pop_law e.task_queue) [
        | inl (a, q, popped, at, size) ↦
            let id = w.task_id in
            let R = runtime P in
            let same : a ≡ id = cc in
            let rest : ready_queue.items q ≡ [] = cc in
            let its : cached e.waker_cache id ≡ w = rw (cached, stored) refl in
            let e1 : Executor R = record e { task_queue = q } in
            let task : Task (Future P) = record { id = id; future = typing k } in
            let one =
              run_one-quiet R id e1 task world _ known
                (ap (λ v. kernel_poll P v (typing k) world) its ∙ polled) refl in
            (
              record {
                tasks = insert e.tasks id (record { id = id; future = typing k' });
                task_queue = q;
                waker_cache = insert e.waker_cache id (cached e.waker_cache id);
              },
              run_ready_tasks-one R id e _ q world later (popped ∙ ap (λ n. some (n, q)) same) one
                  rest,
              rest,
              size,
              insert_self e.tasks id (record { id = id; future = typing k' }),
              insert_self e.waker_cache id (cached e.waker_cache id) ∙ ap some its,
            )
        | inr (_, empty) ↦ absurd cc
      ]

  -- A key press: the interrupt handler, which wakes the task, and `run_ready_tasks`.
  abbrev pub System : Type 0
  System = Machine (crates P) volatile pics × Executor (runtime P)

  abbrev pub resumed :
      Machine (crates P) volatile pics
      → Option (Outcome (Executor (runtime P) × World P))
      → Option (Outcome System)
  resumed self none = none
  resumed self (some panic) = some panic
  resumed self (some (ok (e, (statics, writer)))) =
      some (ok (record self { statics = statics; writer = writer }, e))

  unfoldable pub press : ℕ → System → Option (Outcome System)
  press scancode (self, e) = elim (on_key P scancode self e.task_queue) [
    | panic ↦ some panic
    | ok (after, q) ↦
        resumed after (
          run_ready_tasks (runtime P) 1 (record e { task_queue = q }) (after.statics, after.writer))
  ]

  -- A key press on an idle system types the text of the scancode and leaves the system idle.
  pub press-Idle :
      (scancode : ℕ) (self : Machine (crates P) volatile pics) (e : Executor (runtime P))
      (w : TaskWaker) (k : Keyboard) (s : Screen) (color : ℕ)
      → Idle self.statics self.writer e w k s color
      → (self' : Machine (crates P) volatile pics) × (e' : Executor (runtime P)) × (press scancode
            (self, e)
          ≡ some (ok (self', e')))
        × Idle self'.statics self'.writer e' w
            (text_of (crates P) volatile decoder k (scancode ∷ [])).1
            (type_string color (text_of (crates P) volatile decoder k (scancode ∷ [])).0 s)
            color
  unfolding press
  press-Idle scancode self e w k s color h =
      let C = crates P in
      elim (keyboard_interrupt_handler-cases P scancode self e.task_queue h.q s color h.opened
        h.typed) [
          | inl (_, _, _, full, _) ↦
              absurd (let space = h.space in omega (arith, full, space, ap length h.none_ready))
          | inr (_, _, _, _, inr (full, _, _, _)) ↦
              absurd (let room = h.room in omega (arith, full, room, ap length h.none_waits))
          | inr
                (
                  after,
                  q,
                  handled,
                  _,
                  inl (q1, _, opened1, at, size1, _, queued, size, same_writer),
                ) ↦
              let items : scancodes.items q1 ≡ scancode ∷ [] =
                at ∙ ap (λ l. l ++ (scancode ∷ [])) h.none_waits in
              let room = h.room in
              let space = h.space in
              let alone : ready_queue.items q ≡ w.task_id ∷ [] =
                queued
                ∙ ap (λ l. l ++ woken_id (atomic.stored self.statics.waker)) h.none_ready
                ∙ ap woken_id h.stored in
              let (st', wr', q2, polled, opened2, empty2, size2, stored2, typed) =
                poll_loop-types C volatile decoder w k after.statics after.writer q1 s color
                  (suc (length (scancodes.items q1))) opened1
                  (subst (Typed volatile color s) (sym same_writer) h.typed) (omega arith) in
              let turn = typing-turn w k _ after.statics st' after.writer wr' q1 opened1 polled in
              let (e', ran, empty', size', known', kept') =
                task_runs (record e { task_queue = q }) w k _ (after.statics, after.writer)
                  (st', wr') alone h.known h.kept turn in
              (
                record after { statics = st'; writer = wr' },
                e',
                rw (press, handled, ran) refl,
                subst
                    (λ l.
                      Idle st' wr' e' w (text_of C volatile decoder k l).1
                        (type_string color (text_of C volatile decoder k l).0 s) color)
                    items
                    (record {
                      q = q2;
                      opened = opened2;
                      none_waits = empty2;
                      room = omega (arith, room, size1, size2);
                      stored = stored2;
                      typed = typed;
                      none_ready = empty';
                      space = omega (arith, space, size, size');
                      known = known';
                      kept = kept';
                    }),
              )
        ]
