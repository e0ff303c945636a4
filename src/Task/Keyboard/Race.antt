-- ===== src/Task/Keyboard/Race.antt =====
-- `poll_next` and the interrupt handler in any interleaving: no wake-up is lost, and scancodes
-- arrive in order.
use taijios.Common.{ℕ, ◌≡◌, ◌≢◌, Bool, true, false, none, some, List, [], ◌∷◌, ◌++◌, ok}
use taijios.Task.Keyboard.{
  Crates, Polled, pending, ready, Statics, Effect, warns, wakes, add_scancode, Stage, called,
  missed, registered, popped, returned, poll_step,
}

module _ (C : Crates) where
  open C use {queue, cell, atomic, Waker}

  -- The machine, with the history that the statements are about: the scancodes that were put into
  -- the queue, those that were delivered, and whether the waker was woken since it was registered.
  pub record Machine : Type 0 where
    pub statics : Statics C
    pub stage : Stage C
    pub accepted : List ℕ
    pub delivered : List ℕ
    pub notified : Bool

  -- the scancodes that a stage has delivered
  abbrev pub result : Stage C → List ℕ
  result called = []
  result missed = []
  result registered = []
  result (popped scancode) = []
  result (returned pending) = []
  result (returned (ready scancode)) = scancode ∷ []

  -- the scancode that a stage has taken and not delivered yet
  abbrev pub held : Stage C → List ℕ
  held called = []
  held missed = []
  held registered = []
  held (popped scancode) = scancode ∷ []
  held (returned r) = []

  -- Registering forgets earlier wake-ups.
  abbrev pub notice : Stage C → Bool → Bool
  notice called b = b
  notice missed b = false
  notice registered b = b
  notice (popped scancode) b = b
  notice (returned r) b = b

  -- what an interrupt adds to the history
  abbrev pub taken : Effect C → ℕ → List ℕ
  taken (warns w) scancode = []
  taken (wakes w) scancode = scancode ∷ []

  abbrev pub heard : Effect C → Bool → Bool
  heard (warns w) b = b
  heard (wakes none) b = b
  heard (wakes (some w)) b = true

  -- `poll_next` goes a step, the interrupt handler runs, or the task polls again.
  pub data Step (w : Waker) (s t : Machine) : Type 0 where
    poll :
        (to : Stage C) (statics : Statics C)
        → ((r : Polled) → s.stage ≢ returned r)
        → poll_step C w s.stage s.statics ≡ ok (to, statics)
        → t ≡ record {
          statics = statics;
          stage = to;
          accepted = s.accepted;
          delivered = s.delivered ++ result to;
          notified = notice s.stage s.notified;
        }
        → Step w s t
    interrupt :
        (scancode : ℕ) (statics : Statics C) (effect : Effect C)
        → add_scancode C s.statics scancode ≡ (statics, effect)
        → t ≡ record s {
          statics = statics;
          accepted = s.accepted ++ taken effect scancode;
          notified = heard effect s.notified;
        }
        → Step w s t
    again : (r : Polled) → s.stage ≡ returned r → t ≡ record s { stage = called } → Step w s t

  pub data Reach (w : Waker) (initial : Machine) : Machine → Type 0 where
    start : {s : Machine} → s ≡ initial → Reach w initial s
    later : {s t : Machine} → Reach w initial s → Step w s t → Reach w initial t
