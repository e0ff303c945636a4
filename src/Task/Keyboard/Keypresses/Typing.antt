-- ===== src/Task/Keyboard/Keypresses/Typing.antt =====
-- The keyboard task types on the screen what the scancodes stand for.
use mathlib.Core.List.{flatten, append-nil}
use mathlib.Core.Path.{subst}
use taijios.Common.{
  ap, ℕ, zero, suc, ◌<◌, ◌≡◌, ◌∙◌, inl, inr, refl, sym, arith, Option, none, some, List, [], ◌∷◌,
  ◌++◌, length, ok,
}
use taijios.Vga.{Volatile, Writer}
use taijios.Vga.Screen.{Screen, type_string}
use taijios.Vga.Shows.{Typed, print-Typed}
use taijios.Vga.Layout.{type_string-append}
use taijios.Task.Keyboard.{Crates, pending, ready, Statics, poll_next}
use taijios.Task.Keyboard.Wakeups.{poll_next_cases}
use taijios.Task.Keyboard.Keypresses.{
  DecodedKey, unicode, raw_key, Decoder, print_key, handle_key, handle_event, handle_scancode,
  poll_loop,
}

module _ (C : Crates) (V : Volatile) (D : Decoder) where
  open C use {queue, cell, atomic, Waker}
  open D use {Keyboard, KeyEvent, KeyCode}

  -- What a key stands for.
  abbrev pub key_text : Option (DecodedKey KeyCode) → List ℕ
  key_text none = []
  key_text (some (unicode character)) = flatten (D.display character)
  key_text (some (raw_key key)) = flatten (D.debug key)

  -- the text of a scancode, and the keyboard behind it
  abbrev pub event_text : Option (Option KeyEvent) → Keyboard → List ℕ × Keyboard
  event_text none keyboard = ([], keyboard)
  event_text (some none) keyboard = ([], keyboard)
  event_text (some (some key_event)) keyboard =
      let (decoded, after) = D.process_keyevent keyboard key_event in (key_text decoded, after)

  -- The text of scancodes.
  unfoldable pub text_of : Keyboard → List ℕ → List ℕ × Keyboard
  text_of keyboard [] = ([], keyboard)
  text_of keyboard (scancode ∷ scancodes) =
      let (result, keyboard1) = D.add_byte keyboard scancode in
      let (text, keyboard2) = event_text result keyboard1 in
      let (rest, last) = text_of keyboard2 scancodes in (text ++ rest, last)

  -- Scancodes are typed one after the other.
  pub type_string-text_of :
      (keyboard : Keyboard) (scancode : ℕ) (scancodes : List ℕ) (s : Screen) (color : ℕ)
      → type_string color (text_of keyboard (scancode ∷ scancodes)).0 s
        ≡ type_string color
            (text_of (text_of keyboard (scancode ∷ [])).1 scancodes).0
            (type_string color (text_of keyboard (scancode ∷ [])).0 s)
  unfolding text_of
  type_string-text_of keyboard scancode scancodes s color =
      let (result, keyboard1) = D.add_byte keyboard scancode in
      let (text, keyboard2) = event_text result keyboard1 in
      let rest = (text_of keyboard2 scancodes).0 in
      type_string-append color text rest s
      ∙ ap (λ l. type_string color rest (type_string color l s)) (sym (append-nil text))

  print_key-Typed :
      (key : DecodedKey KeyCode) (w : Writer V) (s : Screen) (color : ℕ)
      → Typed V color s w
      → (after : Writer V) × (print_key C V D key w ≡ ok after)
        × Typed V color (type_string color (key_text (some key)) s) after
  unfolding print_key
  print_key-Typed (unicode character) w s color t = print-Typed V w s color (D.display character) t
  print_key-Typed (raw_key key) w s color t = print-Typed V w s color (D.debug key) t

  handle_key-Typed :
      (key : Option (DecodedKey KeyCode)) (keyboard : Keyboard) (w : Writer V) (s : Screen)
      (color : ℕ)
      → Typed V color s w
      → (after : Writer V) × (handle_key C V D key keyboard w ≡ ok (keyboard, after))
        × Typed V color (type_string color (key_text key) s) after
  unfolding handle_key type_string
  handle_key-Typed none keyboard w s color t = (w, refl, t)
  handle_key-Typed (some key) keyboard w s color t =
      let (after, e, u) = print_key-Typed key w s color t in (after, rw e refl, u)

  pub handle_event-Typed :
      (result : Option (Option KeyEvent)) (keyboard : Keyboard) (w : Writer V) (s : Screen)
      (color : ℕ)
      → Typed V color s w
      → (after : Writer V) × (handle_event C V D result keyboard w
          ≡ ok ((event_text result keyboard).1, after))
        × Typed V color (type_string color (event_text result keyboard).0 s) after
  unfolding handle_event type_string
  handle_event-Typed none keyboard w s color t = (w, refl, t)
  handle_event-Typed (some none) keyboard w s color t = (w, refl, t)
  handle_event-Typed (some (some key_event)) keyboard w s color t =
      let (decoded, keyboard') = D.process_keyevent keyboard key_event in
      handle_key-Typed decoded keyboard' w s color t

  poll_loop-more :
      (fuel : ℕ) (w : Waker) (keyboard keyboard1 : Keyboard) (self self1 : Statics C)
      (writer writer1 : Writer V) (a : ℕ)
      → poll_next C w self ≡ ok (ready a, self1)
      → handle_scancode C V D a keyboard writer ≡ ok (keyboard1, writer1)
      → poll_loop C V D (suc fuel) w keyboard self writer
        ≡ poll_loop C V D fuel w keyboard1 self1 writer1
  unfolding poll_loop
  poll_loop-more fuel w keyboard keyboard1 self self1 writer writer1 a e f =
      rw (poll_loop, e, f) refl

  pub poll_loop-done :
      (fuel : ℕ) (w : Waker) (keyboard : Keyboard) (self self1 : Statics C) (writer : Writer V)
      → poll_next C w self ≡ ok (pending, self1)
      → poll_loop C V D (suc fuel) w keyboard self writer ≡ some (ok (keyboard, self1, writer))
  unfolding poll_loop
  poll_loop-done fuel w keyboard self self1 writer e = rw (poll_loop, e) refl

  poll_loop-Typed :
      (fuel : ℕ) (items : List ℕ) (w : Waker) (keyboard : Keyboard) (self : Statics C)
      (writer : Writer V) (q : queue.Queue) (s : Screen) (color : ℕ)
      → cell.try_get self.scancode_queue ≡ some q
      → queue.items q ≡ items
      → Typed V color s writer
      → length items < fuel
      → (after : Statics C) × (writer' : Writer V) × (q' : queue.Queue) × (poll_loop C V D fuel w
            keyboard self writer
          ≡ some (ok ((text_of keyboard items).1, after, writer')))
        × (cell.try_get after.scancode_queue ≡ some q')
        × (queue.items q' ≡ [])
        × (queue.capacity q' ≡ queue.capacity q)
        × (atomic.stored after.waker ≡ some w)
        × Typed V color (type_string color (text_of keyboard items).0 s) writer'
  unfolding text_of
  poll_loop-Typed zero items w keyboard self writer q s color opened at t enough =
      absurd (omega arith)
  poll_loop-Typed (suc fuel) [] w keyboard self writer q s color opened at t enough =
      elim (poll_next_cases C w self q opened) [
        | inl (a, q1, more, _, e) ↦ absurd cc
        | inr (_, e) ↦ (
          record self { waker = atomic.register self.waker w },
          writer,
          q,
          poll_loop-done fuel w keyboard self _ writer e,
          opened,
          at,
          refl,
          atomic.register_law self.waker w,
          unfold type_string in t,
        )
      ]
  poll_loop-Typed (suc fuel) (a ∷ items) w keyboard self writer q s color opened at t enough =
      elim (poll_next_cases C w self q opened) [
        | inl (b, q1, more, kept, e) ↦
            let self1 : Statics C = record self {
              scancode_queue = cell.write self.scancode_queue q1;
            } in
            let same : b ≡ a = cc in
            let rest : queue.items q1 ≡ items = cc in
            let e' : poll_next C w self ≡ ok (ready a, self1) = rw⁻¹ same e in
            let (result, keyboard1) = D.add_byte keyboard a in
            let (mid, f, u) = handle_event-Typed result keyboard1 writer s color t in
            let (text, keyboard2) = event_text result keyboard1 in
            let handled : handle_scancode C V D a keyboard writer ≡ ok (keyboard2, mid) =
              unfold handle_scancode in f in
            let (after, writer', q', run, opened', empty, kept2, stored, v) =
              poll_loop-Typed fuel items w keyboard2 self1 mid q1 (type_string color text s) color
                (cell.write_law self.scancode_queue q q1 opened) rest u (omega arith) in
            (
              after,
              writer',
              q',
              poll_loop-more fuel w keyboard keyboard2 self self1 writer mid a e' handled ∙ run,
              opened',
              empty,
              kept2 ∙ kept,
              stored,
              subst (λ (x : Screen). Typed V color x writer')
                  (sym (type_string-append color text (text_of keyboard2 items).0 s)) v,
            )
        | inr (none_left, e) ↦ absurd cc
      ]

  -- A poll of the keyboard task, where no interrupt comes, does not panic and ends with the queue
  -- empty and the task's waker stored: it has typed on the screen, in order, the text of the
  -- scancodes that were waiting.
  pub poll_loop-types :
      (w : Waker) (keyboard : Keyboard) (self : Statics C) (writer : Writer V) (q : queue.Queue)
      (s : Screen) (color fuel : ℕ)
      → cell.try_get self.scancode_queue ≡ some q
      → Typed V color s writer
      → length (queue.items q) < fuel
      → (after : Statics C) × (writer' : Writer V) × (q' : queue.Queue) × (poll_loop C V D fuel w
            keyboard self writer
          ≡ some (ok ((text_of keyboard (queue.items q)).1, after, writer')))
        × (cell.try_get after.scancode_queue ≡ some q')
        × (queue.items q' ≡ [])
        × (queue.capacity q' ≡ queue.capacity q)
        × (atomic.stored after.waker ≡ some w)
        × Typed V color (type_string color (text_of keyboard (queue.items q)).0 s) writer'
  poll_loop-types w keyboard self writer q s color fuel opened t enough =
      poll_loop-Typed fuel (queue.items q) w keyboard self writer q s color opened refl t enough
