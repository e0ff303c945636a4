-- ===== src/Kernel/Boot.antt =====
-- From `kernel_main`'s executor to the idle system that waits for keys.
use mathlib.Core.List.{flatten}
use taijios.Common.{ℕ, ◌≡◌, ◌∙◌, inl, inr, refl, ap, arith, none, some, [], ◌∷◌, ◌++◌, length, ok}
use taijios.Vga.{Writer}
use taijios.Vga.Screen.{Screen, type_string}
use taijios.Vga.Shows.{Typed, print-Typed}
use taijios.Task.{Task, task_new, task_id_new, ready, pending}
use taijios.Task.Keyboard.{Statics}
use taijios.Task.Keyboard.Wakeups.{stream_new_once, poll_next_cases}
use taijios.Task.Keyboard.Keypresses.{print_keypresses}
use taijios.Task.Keyboard.Keypresses.Typing.{poll_loop-done}
use taijios.Task.Executor.{
  TaskWaker, Executor, empty, insert, remove, cached, settle, new, run_one, run_ready_tasks,
}
use taijios.Task.Executor.Spawn.{spawn_all, spawn_cases}
use taijios.Task.Executor.Turns.{
  cached-new, run_one-quiet, run_ready_tasks-turn, run_ready_tasks-one,
}
use taijios.Kernel.Keypress.{Idle}
use taijios.Kernel.{
  Platform, crates, Future, example_task, keypresses, typing, number_pieces, waiting, looped,
  kernel_poll, runtime, kernel_executor,
}

module _ (P : Platform) where
  open P use {scancodes, cell, atomic, volatile, decoder, ready_queue}

  -- The first poll of the keyboard task makes the stream and stores the waker.
  keypresses-turn :
      (w : TaskWaker) (st : Statics (crates P)) (wr : Writer volatile)
      → cell.try_get st.scancode_queue ≡ none
      → (st' : Statics (crates P)) × (q : scancodes.Queue) × (kernel_poll P w keypresses (st, wr)
          ≡ ok (record {
            state = pending;
            future = typing decoder.new;
            world = (st', wr);
            woken = [];
          }))
        × (cell.try_get st'.scancode_queue ≡ some q)
        × (scancodes.items q ≡ [])
        × (scancodes.capacity q ≡ 100)
        × (atomic.stored st'.waker ≡ some w)
  unfolding kernel_poll looped print_keypresses waiting
  keypresses-turn w st wr closed =
      let (made, q, e, opened, no_items, size, _) = stream_new_once (crates P) st closed in
      let bound : waiting P st ≡ 1 = rw (waiting, closed) refl in
      elim (poll_next_cases (crates P) w made q opened) [
        | inl (a, q1, at, _, _) ↦ absurd cc
        | inr (_, f) ↦
            let done = poll_loop-done (crates P) volatile decoder 0 w decoder.new made _ wr f in
            let first : print_keypresses (crates P) volatile decoder 1 w st wr
                ≡ some
                    (ok (decoder.new, record made { waker = atomic.register made.waker w }, wr)) =
              rw (print_keypresses, e) done in
            (
              record made { waker = atomic.register made.waker w },
              q,
              ap (λ n. looped P (print_keypresses (crates P) volatile decoder n w st wr)) bound
                  ∙ ap (looped P) first,
              opened,
              no_items,
              size,
              atomic.register_law made.waker w,
            )
      ]

  -- The executor of `kernel_main`: two tasks, both queued.
  executor_made :
      (e : Executor (runtime P)) × (kernel_executor P 0 ≡ ok (e, 2))
      × (e.tasks 0 ≡ some (record { id = 0; future = example_task }))
      × (e.tasks 1 ≡ some (record { id = 1; future = keypresses }))
      × (e.waker_cache 0 ≡ none)
      × (e.waker_cache 1 ≡ none)
      × (ready_queue.items e.task_queue ≡ 0 ∷ (1 ∷ []))
      × (ready_queue.capacity e.task_queue ≡ 100)
  unfolding kernel_executor spawn_all task_new task_id_new new empty insert
  executor_made =
      let R = runtime P in
      let t0 : Task (Future P) = record { id = 0; future = example_task } in
      let t1 : Task (Future P) = record { id = 1; future = keypresses } in
      let (fresh, size) = ready_queue.new_law 100 in
      elim (spawn_cases R (new R) t0) [
        | inl (_, taken, _) ↦ absurd (let f : none ≡ some _ = taken in cc)
        | inr (inl (_, full, _)) ↦ absurd (omega (arith, full, size, ap length fresh))
        | inr (inr (_, e0, f0, tasks0, cache0, at0, kept0)) ↦
            let items0 : ready_queue.items e0.task_queue ≡ 0 ∷ [] =
              at0 ∙ ap (λ l. l ++ (0 ∷ [])) fresh in
            let free : e0.tasks 1 ≡ none = ap (λ m. m 1) tasks0 in
            elim (spawn_cases R e0 t1) [
              | inl (_, taken, _) ↦ absurd cc
              | inr (inl (_, full, _)) ↦ absurd (omega (arith, full, size, kept0, ap length items0))
              | inr (inr (_, e1, f1, tasks1, cache1, at1, kept1)) ↦ (
                e1,
                rw (f0, f1) refl,
                ap (λ m. m 0) tasks1 ∙ ap (λ m. m 0) tasks0,
                ap (λ m. m 1) tasks1,
                ap (λ m. m 0) cache1 ∙ ap (λ m. m 0) cache0,
                ap (λ m. m 1) cache1 ∙ ap (λ m. m 1) cache0,
                at1 ∙ ap (λ l. l ++ (1 ∷ [])) items0,
                kept1 ∙ kept0 ∙ size,
              )
            ]
      ]

  -- Before the stream is made, with a writer that shows a screen, the executor of `kernel_main` can be
  -- made and `run_ready_tasks` runs both tasks without a panic and ends. The number of the example task is then typed on the screen,
  -- the task is gone, and the system is idle.
  pub boot_to_idle :
      (st : Statics (crates P)) (wr : Writer volatile) (s : Screen) (color : ℕ)
      → cell.try_get st.scancode_queue ≡ none
      → Typed volatile color s wr
      → (e e' : Executor (runtime P)) × (st' : Statics (crates P)) × (wr' : Writer volatile)
        × (kernel_executor P 0 ≡ ok (e, 2))
        × (run_ready_tasks (runtime P) 2 e (st, wr) ≡ some (ok (e', (st', wr'))))
        × (e'.tasks 0 ≡ none)
        × Idle P st' wr' e'
            (record { task_id = 1 })
            decoder.new
            (type_string color (flatten (number_pieces P 89)) s)
            color
  unfolding kernel_poll settle insert remove
  boot_to_idle st wr s color closed t =
      let R = runtime P in
      let (e, made, known0, known1, uncached0, uncached1, queued, size) = executor_made in
      let (wr', printed, typed) = print-Typed volatile wr s color (number_pieces P 89) t in
      let (st', q, polled, opened, no_items, room, stored) =
        keypresses-turn (record { task_id = 1 }) st wr' closed in
      elim (ready_queue.pop_law e.task_queue) [
        | inr (_, none_) ↦ absurd cc
        | inl (a, q1, popped, at, kept) ↦
            let zeroth : a ≡ 0 = cc in
            let rest : ready_queue.items q1 ≡ 1 ∷ [] = cc in
            elim (ready_queue.pop_law q1) [
              | inr (_, none_) ↦ absurd cc
              | inl (b, q2, popped2, at2, kept2) ↦
                  let first : b ≡ 1 = cc in
                  let last : ready_queue.items q2 ≡ [] = cc in
                  let mid : Executor R = record {
                    tasks = remove e.tasks 0;
                    task_queue = q1;
                    waker_cache = remove e.waker_cache 0;
                  } in
                  let done : Executor R = record {
                    tasks = insert mid.tasks 1 (record { id = 1; future = typing decoder.new });
                    task_queue = q2;
                    waker_cache = insert mid.waker_cache 1 (cached mid.waker_cache 1);
                  } in
                  let w1 = cached-new mid.waker_cache 1 uncached1 in
                  let polled0 : kernel_poll P (cached e.waker_cache 0) example_task (st, wr)
                      ≡ ok (record {
                        state = ready;
                        future = example_task;
                        world = (st, wr');
                        woken = [];
                      }) =
                    rw printed refl in
                  let turn0 : run_one R 0 (record e { task_queue = q1 }) (st, wr)
                      ≡ ok (mid, (st, wr')) =
                    run_one-quiet R 0 (record e { task_queue = q1 })
                      (record { id = 0; future = example_task }) (st, wr) _ known0 polled0 refl in
                  let turn1 : run_one R 1 (record mid { task_queue = q2 }) (st, wr')
                      ≡ ok (done, (st', wr')) =
                    run_one-quiet R 1 (record mid { task_queue = q2 })
                      (record { id = 1; future = keypresses }) (st, wr') _ known1
                      (ap (λ w. kernel_poll P w keypresses (st, wr')) w1 ∙ polled) refl in
                  (
                    e,
                    done,
                    st',
                    wr',
                    made,
                    run_ready_tasks-turn R 1 0 e mid q1 (st, wr) (st, wr')
                          (popped ∙ ap (λ n. some (n, q1)) zeroth) turn0
                        ∙ run_ready_tasks-one R 1 mid done q2 (st, wr') (st', wr')
                            (popped2 ∙ ap (λ n. some (n, q2)) first) turn1 last,
                    refl,
                    record {
                      q = q;
                      opened = opened;
                      none_waits = no_items;
                      room = omega (arith, room);
                      stored = stored;
                      typed = typed;
                      none_ready = last;
                      space = omega (arith, size, kept, kept2);
                      known = refl;
                      kept = ap some w1;
                    },
                  )
            ]
      ]
