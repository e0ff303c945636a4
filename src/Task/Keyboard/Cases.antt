-- ===== src/Task/Keyboard/Cases.antt =====
-- The accesses to the scancode queue, on every branch.
use taijios.Common.{ℕ, ◌≤◌, ◌<◌, ◌≡◌, ◌⊎◌, inl, inr, refl, none, some, [], ◌∷◌, ◌++◌, length, ok}
use taijios.Task.Keyboard.{Crates, queue_full, Statics, warns, wakes, add_scancode, pop_scancode}

module _ (C : Crates) where
  open C use {queue, cell, atomic, Waker}

  -- A pop takes the first scancode, or finds the queue empty.
  pub pop_scancode-cases :
      (self : Statics C) (q : queue.Queue)
      → cell.try_get self.scancode_queue ≡ some q
      → ((a : ℕ) × (q' : queue.Queue) × (pop_scancode C self
            ≡ ok (some a, record self { scancode_queue = cell.write self.scancode_queue q' }))
          × (queue.items q ≡ a ∷ queue.items q')
          × (cell.try_get (cell.write self.scancode_queue q') ≡ some q')
          × (queue.capacity q' ≡ queue.capacity q))
        ⊎ ((pop_scancode C self ≡ ok (none, self)) × (queue.items q ≡ []))
  unfolding pop_scancode
  pop_scancode-cases self q e = elim (queue.pop_law q) [
    | inl (a, q', f, at, kept) ↦
        inl (a, q', rw (e, f) refl, at, cell.write_law self.scancode_queue q q' e, kept)
    | inr (f, at) ↦ inr (rw (e, f) refl, at)
  ]

  -- A scancode is put behind the others and the stored waker is woken, or the queue is full.
  pub add_scancode-cases :
      (self : Statics C) (scancode : ℕ) (q : queue.Queue)
      → cell.try_get self.scancode_queue ≡ some q
      → ((q' : queue.Queue) × (add_scancode C self scancode ≡ (
        record {
          scancode_queue = cell.write self.scancode_queue q';
          waker = (atomic.take self.waker).1;
        },
        wakes (atomic.take self.waker).0,
      ))
          × (queue.items q' ≡ queue.items q ++ (scancode ∷ []))
          × (cell.try_get (cell.write self.scancode_queue q') ≡ some q')
          × (queue.capacity q' ≡ queue.capacity q)
          × (length (queue.items q) < queue.capacity q))
        ⊎ ((add_scancode C self scancode ≡ (self, warns queue_full))
            × (queue.capacity q ≤ length (queue.items q)))
  unfolding add_scancode
  add_scancode-cases self scancode q e = elim (queue.push_law q scancode) [
    | inl (q', f, at, kept, room) ↦ inl (
      q',
      rw (e, add_scancode, f) refl,
      at,
      cell.write_law self.scancode_queue q q' e,
      kept,
      room,
    )
    | inr (f, at) ↦ inr (rw (e, add_scancode, f) refl, at)
  ]
