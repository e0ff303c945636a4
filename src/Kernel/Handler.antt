-- ===== src/Kernel/Handler.antt =====
-- The keyboard's handler with the wakers of the executor.
use mathlib.Core.List.{flatten, append-nil}
use taijios.Common.{
  ℕ, ◌≤◌, ◌<◌, ◌≡◌, ◌∙◌, ◌⊎◌, inl, inr, refl, sym, ap, Option, none, some, List, [], ◌∷◌, ◌++◌,
  length, Outcome, ok, panic, ◌>>=◌,
}
use taijios.Vga.Screen.{Screen, type_string}
use taijios.Vga.Shows.{Typed}
use taijios.Task.Keyboard.{queue_full, wakes}
use taijios.Task.Executor.{TaskWaker, wake_task}
use taijios.Interrupts.{Machine, warning, wake_stored, keyboard_interrupt_handler}
use taijios.Interrupts.Acknowledge.{keyboard_interrupt_handler-wakes}
use taijios.Kernel.{Platform, crates, runtime}

-- the id that a wake-up pushes
abbrev pub woken_id : Option TaskWaker → List ℕ
woken_id none = []
woken_id (some w) = w.task_id ∷ []

module _ (P : Platform) where
  open P use {scancodes, cell, atomic, volatile, pics, ready_queue}

  -- The handler, on the executor's ready queue.
  abbrev pub on_key :
      ℕ
      → Machine (crates P) volatile pics
      → ready_queue.Queue
      → Outcome (Machine (crates P) volatile pics × ready_queue.Queue)
  on_key = keyboard_interrupt_handler (crates P) volatile pics (wake_task (runtime P))

  -- Waking a stored waker pushes its id, or panics on a full ready queue.
  wake_stored-cases :
      (stored : Option TaskWaker) (r : ready_queue.Queue)
      → ((r' : ready_queue.Queue) × (wake_stored
              (crates P)
              volatile
              pics
              (wake_task (runtime P))
              (wakes stored)
              r
            ≡ ok r')
          × (ready_queue.items r' ≡ ready_queue.items r ++ woken_id stored)
          × (ready_queue.capacity r' ≡ ready_queue.capacity r))
        ⊎ ((w : TaskWaker) × (stored ≡ some w)
            × (ready_queue.capacity r ≤ length (ready_queue.items r))
            × (wake_stored (crates P) volatile pics (wake_task (runtime P)) (wakes stored) r
                ≡ panic))
  unfolding wake_stored wake_task
  wake_stored-cases none r = inl (r, refl, sym (append-nil (ready_queue.items r)), refl)
  wake_stored-cases (some w) r = elim (ready_queue.push_law r w.task_id) [
    | inl (r', e, at, kept, _) ↦ inl (r', rw e refl, at, kept)
    | inr (e, full) ↦ inr (w, refl, full, rw e refl)
  ]

  pub keyboard_interrupt_handler-cases :
      (scancode : ℕ) (self : Machine (crates P) volatile pics) (r : ready_queue.Queue)
      (q : scancodes.Queue) (s : Screen) (color : ℕ)
      → cell.try_get self.statics.scancode_queue ≡ some q
      → Typed volatile color s self.writer
      → ((w : TaskWaker) × (atomic.stored self.statics.waker ≡ some w)
          × (length (scancodes.items q) < scancodes.capacity q)
          × (ready_queue.capacity r ≤ length (ready_queue.items r))
          × (on_key scancode self r ≡ panic))
        ⊎ ((after : Machine (crates P) volatile pics) × (r' : ready_queue.Queue) × (on_key scancode
                self r
              ≡ ok (after, r'))
            × (after.pics ≡ pics.notify_end_of_interrupt self.pics 33)
            × (((q' : scancodes.Queue) × (length (scancodes.items q) < scancodes.capacity q)
                  × (cell.try_get after.statics.scancode_queue ≡ some q')
                  × (scancodes.items q' ≡ scancodes.items q ++ (scancode ∷ []))
                  × (scancodes.capacity q' ≡ scancodes.capacity q)
                  × (atomic.stored after.statics.waker ≡ none)
                  × (ready_queue.items r'
                      ≡ ready_queue.items r ++ woken_id (atomic.stored self.statics.waker))
                  × (ready_queue.capacity r' ≡ ready_queue.capacity r)
                  × (after.writer ≡ self.writer))
                ⊎ ((scancodes.capacity q ≤ length (scancodes.items q))
                    × (after.statics ≡ self.statics)
                    × (r' ≡ r)
                    × Typed volatile color
                        (type_string color (flatten (warning queue_full ∷ (b'\n' ∷ []) ∷ [])) s)
                        after.writer)))
  keyboard_interrupt_handler-cases scancode self r q s color opened t =
      let (after, acknowledged, ends) =
        keyboard_interrupt_handler-wakes (crates P) volatile pics (wake_task (runtime P)) scancode
          self r q s color opened t in
      elim ends [
        | inr (e, full, same, typed) ↦
            inr (after, r, e, acknowledged, inr (full, same, refl, typed))
        | inl (q', e, room, got, at, kept, taken, writer) ↦
            elim (wake_stored-cases (atomic.stored self.statics.waker) r) [
              | inl (r', woke, pushed, size) ↦ inr (
                after,
                r',
                e ∙ ap (λ o. o >>= λ x. ok (after, x)) woke,
                acknowledged,
                inl (q', room, got, at, kept, taken, pushed, size, writer),
              )
              | inr (w, stored, full, fails) ↦
                  inl (w, stored, room, full, e ∙ ap (λ o. o >>= λ x. ok (after, x)) fails)
            ]
      ]
