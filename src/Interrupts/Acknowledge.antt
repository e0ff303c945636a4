-- ===== src/Interrupts/Acknowledge.antt =====
-- The keyboard's handler, over any waker: what it does up to the wake-up, and behind it.
use mathlib.Core.List.{flatten}
use taijios.Common.{
  ℕ, ◌≤◌, ◌<◌, ◌≡◌, ◌⊎◌, inl, inr, refl, none, some, [], ◌∷◌, ◌++◌, length, Outcome, ok, ◌>>=◌,
}
use taijios.Vga.{Volatile}
use taijios.Vga.Screen.{Screen, type_string}
use taijios.Vga.Shows.{Typed, print-Typed}
use taijios.Task.Keyboard.{Crates, queue_full, wakes}
use taijios.Task.Keyboard.Cases.{add_scancode-cases}
use taijios.Interrupts.{
  ChainedPics, Machine, warning, println, warn, wake_stored, keyboard_interrupt_handler, as_u8,
}

module _ (C : Crates) (V : Volatile) (P : ChainedPics) {Shared : Type 0}
    (wake : C.Waker → Shared → Outcome Shared) where
  open C use {queue, cell, atomic, Waker}

  -- With a stream made, the handler puts the scancode last in the queue, takes the stored waker and
  -- wakes it, and acknowledges interrupt 33 where the wake-up does not panic, or it finds the queue
  -- full, drops the scancode, types the warning on a line and acknowledges.
  pub keyboard_interrupt_handler-wakes :
      (scancode : ℕ) (self : Machine C V P) (shared : Shared) (q : queue.Queue) (s : Screen)
      (color : ℕ)
      → cell.try_get self.statics.scancode_queue ≡ some q
      → Typed V color s self.writer
      → (after : Machine C V P) × (after.pics ≡ P.notify_end_of_interrupt self.pics 33)
        × (((q' : queue.Queue) × (keyboard_interrupt_handler C V P wake scancode self shared ≡ (
                wake_stored C V P wake (wakes (atomic.stored self.statics.waker)) shared
                >>= λ shared'. ok (after, shared')))
              × (length (queue.items q) < queue.capacity q)
              × (cell.try_get after.statics.scancode_queue ≡ some q')
              × (queue.items q' ≡ queue.items q ++ (scancode ∷ []))
              × (queue.capacity q' ≡ queue.capacity q)
              × (atomic.stored after.statics.waker ≡ none)
              × (after.writer ≡ self.writer))
            ⊎ ((keyboard_interrupt_handler C V P wake scancode self shared ≡ ok (after, shared))
                × (queue.capacity q ≤ length (queue.items q))
                × (after.statics ≡ self.statics)
                × Typed V color
                    (type_string color (flatten (warning queue_full ∷ (b'\n' ∷ []) ∷ [])) s)
                    after.writer))
  unfolding keyboard_interrupt_handler warn println as_u8
  keyboard_interrupt_handler-wakes scancode self shared q s color opened t =
      elim (add_scancode-cases C self.statics scancode q opened) [
        | inl (q', e, at, got, kept, room) ↦ (
          record {
            writer = self.writer;
            statics = record {
              scancode_queue = cell.write self.statics.scancode_queue q';
              waker = (atomic.take self.statics.waker).1;
            };
            pics = P.notify_end_of_interrupt self.pics 33;
          },
          refl,
          inl (
            q',
            rw (e, (atomic.take_law self.statics.waker).0) refl,
            room,
            got,
            at,
            kept,
            (atomic.take_law self.statics.waker).1,
            refl,
          ),
        )
        | inr (e, full) ↦
            let (writer, f, u) =
              print-Typed V self.writer s color (warning queue_full ∷ (b'\n' ∷ []) ∷ []) t in
            (
              record {
                writer = writer;
                statics = self.statics;
                pics = P.notify_end_of_interrupt self.pics 33;
              },
              refl,
              inr (unfold wake_stored in rw (e, f) refl, full, refl, u),
            )
      ]
