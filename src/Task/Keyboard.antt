-- ===== src/Task/Keyboard.antt =====
-- src/task/keyboard.rs: the scancode queue, which the interrupt handler fills and a stream empties.
pub mod Cases
pub mod Race
pub mod Invariant
pub mod Wakeups
pub mod Keypresses
mod Tests
use taijios.Common.{ℕ, Option, none, some, List, [], ◌∷◌, ◌++◌, Outcome, ok, ◌>>=◌, expect}
use taijios.Sync.{ArrayQueue, AtomicWaker, OnceCell}

-- The crates' types: the queue of scancodes, the cell that holds it, and the stored waker.
pub record Crates : Type 1 where
  pub queue : ArrayQueue ℕ
  pub cell : OnceCell queue.Queue
  pub Waker : Type 0
  pub atomic : AtomicWaker Waker

pub data Warning : Type 0 where
  queue_full queue_uninitialized : Warning

-- `Poll<Option<u8>>` of `poll_next`, which never ends the stream
pub data Polled : Type 0 where
  pending : Polled
  ready : ℕ → Polled

module _ (C : Crates) where
  open C use {queue, cell, atomic, Waker}

  -- The statics `SCANCODE_QUEUE` and `WAKER`.
  pub record Statics : Type 0 where
    pub scancode_queue : cell.Cell
    pub waker : atomic.Cell

  -- What `add_scancode` does besides: a warning that it prints, or a waker that it wakes.
  pub data Effect : Type 0 where
    warns : Warning → Effect
    wakes : Option Waker → Effect

  unfoldable pub add_scancode : Statics → ℕ → Statics × Effect
  add_scancode self scancode = elim (cell.try_get self.scancode_queue) [
    | none ↦ (self, warns queue_uninitialized)
    | some q ↦ elim (queue.push q scancode) [
      | none ↦ (self, warns queue_full)
      | some q' ↦
          let woken = atomic.take self.waker in
          (
            record { scancode_queue = cell.write self.scancode_queue q'; waker = woken.1 },
            wakes woken.0,
          )
    ]
  ]

  -- `ScancodeStream::new`; the stream itself has no content.
  unfoldable pub stream_new : Statics → Outcome Statics
  stream_new self = do
    c ← expect (cell.try_init_once self.scancode_queue (queue.new 100))
    ok (record self { scancode_queue = c })

  -- `queue.pop()` on the queue of the static; none where it is empty
  unfoldable pub pop_scancode : Statics → Outcome (Option ℕ × Statics)
  pop_scancode self = do
    q ← expect (cell.try_get self.scancode_queue)
    ok (elim (queue.pop q) [
      | none ↦ (none, self)
      | some (scancode, q') ↦
          (some scancode, record self { scancode_queue = cell.write self.scancode_queue q' })
    ])

  unfoldable pub register : Statics → Waker → Statics
  register self w = record self { waker = atomic.register self.waker w }

  unfoldable pub unregister : Statics → Statics
  unregister self = record self { waker = (atomic.take self.waker).1 }

  -- Where `poll_next` stands: before its first pop, before it registers the waker, before its second
  -- pop, before it takes the waker with the scancode that it popped, or returned. Interrupts can come
  -- in between.
  pub data Stage : Type 0 where
    called missed registered : Stage
    popped : ℕ → Stage
    returned : Polled → Stage

  -- the result of the first pop
  abbrev pub first : Option ℕ → Stage
  first none = missed
  first (some scancode) = returned (ready scancode)

  -- the stage behind the second pop
  abbrev pub second_stage : Option ℕ → Stage
  second_stage none = returned pending
  second_stage (some scancode) = popped scancode

  -- what the second pop leads to where no interrupt comes
  abbrev pub second : Option ℕ → Statics → Polled × Statics
  second none self = (pending, self)
  second (some scancode) self = (ready scancode, unregister self)

  -- One step of `poll_next` with the waker of its context.
  unfoldable pub poll_step : Waker → Stage → Statics → Outcome (Stage × Statics)
  poll_step w called self = do (scancode, self') ← pop_scancode self; ok (first scancode, self')
  poll_step w missed self = ok (registered, register self w)
  poll_step w registered self = do
    (scancode, self') ← pop_scancode self
    ok (second_stage scancode, self')
  poll_step w (popped scancode) self = ok (returned (ready scancode), unregister self)
  poll_step w (returned r) self = ok (returned r, self)

  -- `poll_next` where no interrupt comes
  unfoldable pub poll_next : Waker → Statics → Outcome (Polled × Statics)
  poll_next w self = do
    (scancode, self') ← pop_scancode self
    elim scancode [
      | some a ↦ ok (ready a, self')
      | none ↦ do (scancode2, self2) ← pop_scancode (register self' w); ok (second scancode2 self2)
    ]
