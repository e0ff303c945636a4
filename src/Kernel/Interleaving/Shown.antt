-- ===== src/Kernel/Interleaving/Shown.antt =====
-- The screen shows what was printed, and the keyboard task printed the text of the scancodes.
use mathlib.Core.List.{append-nil}
use mathlib.Core.Path.{subst}
use taijios.Common.{ℕ, ◌≡◌, ◌≢◌, ◌∙◌, refl, sym, ap, List, [], ◌∷◌, ◌++◌, ok_unique}
use taijios.Vga.Screen.{Screen, type_string}
use taijios.Vga.Shows.{Typed}
use taijios.Vga.Layout.{type_string-append}
use taijios.Task.Keyboard as Keyboard
use taijios.Task.Keyboard.Race as Race
use taijios.Task.Keyboard.Keypresses.Typing.{text_of}
use taijios.Task.Keyboard.Keypresses.Scancodes.{text_of-append}
use taijios.Task.Executor.{Runtime}
use taijios.Kernel.{Platform, crates}
use taijios.Kernel.Interleaving.{
  Machine, Step, polls, serves, drains, goes, loops, waits, sleeps, key, timer,
}
use taijios.Kernel.Interleaving.Invariant.{Fits}
use taijios.Kernel.Interleaving.Steps.{there, Step-Fits}
use taijios.Kernel.Interleaving.Display.{
  text, texts, task_text, task_texts, Shown, entry, View, Shows, start, later,
}
use taijios.Kernel.Interleaving.Prints.{texts-append, task_texts-append, decoded, output-Typed}

module _ (P : Platform) (R : Runtime) (task_id : ℕ) where
  open P use {volatile, pics, decoder}

  -- the scancodes that the task has handled, before and behind a step
  abbrev handled : (s t : Machine P R) → Step P R task_id s t → List ℕ → List ℕ
  handled s t (polls task q a b c d) l = l
  handled s t (serves id q after world a b c d e) l = l
  handled s t (drains a b c) l = l
  handled s t (goes to statics a b c d) l = l
  handled s t (loops scancode a b c) l = l ++ (scancode ∷ [])
  handled s t (waits task a b c) l = l
  handled s t (sleeps stage a b c d) l = l
  handled s t (key scancode statics effect q a b c d) l = l
  handled s t (timer a b) l = l

  -- The scancodes that were delivered are those, and then the one that the poll has just got.
  abbrev pub Split : Machine P R → List ℕ → Type 0
  Split s l = s.keyboard.delivered ≡ l ++ Race.result (crates P) s.keyboard.stage

  running-result :
      (stage : Keyboard.Stage (crates P))
      → ((r : Keyboard.Polled) → stage ≢ Keyboard.returned r)
      → Race.result (crates P) stage ≡ []
  running-result Keyboard.called runs = refl
  running-result Keyboard.missed runs = refl
  running-result Keyboard.registered runs = refl
  running-result (Keyboard.popped a) runs = refl
  running-result (Keyboard.returned r) runs = absurd (runs r refl)

  Step-Split :
      (s t : Machine P R) (step : Step P R task_id s t) (l : List ℕ)
      → Fits P R task_id s
      → Split s l
      → Split t (handled s t step l)
  Step-Split s t (polls task q at b c f) l h split =
      subst (λ x. Split x l) (sym f)
        (split ∙ ap (λ x. l ++ Race.result (crates P) x) (there P R task_id h _ at).0)
  Step-Split s t (serves id q after world a b c d f) l h split =
      subst (λ x. Split x l) (sym f) split
  Step-Split s t (drains a b f) l h split = subst (λ x. Split x l) (sym f) split
  Step-Split s t (goes to statics a runs c f) l h split =
      subst (λ x. Split x l) (sym f)
        (ap (λ m. m ++ Race.result (crates P) to)
          (split ∙ ap (λ m. l ++ m) (running-result s.keyboard.stage runs) ∙ append-nil l))
  Step-Split s t (loops scancode a at f) l h split =
      subst (λ x. Split x (l ++ (scancode ∷ []))) (sym f)
        (split
          ∙ ap (λ x. l ++ Race.result (crates P) x) at
          ∙ sym (append-nil (l ++ (scancode ∷ []))))
  Step-Split s t (waits task a b f) l h split = subst (λ x. Split x l) (sym f) split
  Step-Split s t (sleeps stage a b c f) l h split = subst (λ x. Split x l) (sym f) split
  Step-Split s t (key scancode statics effect q a b c f) l h split =
      subst (λ x. Split x l) (sym f) split
  Step-Split s t (timer a f) l h split = subst (λ x. Split x l) (sym f) split

  no_text :
      (k0 k : decoder.Keyboard) (l typed : List ℕ)
      → text_of (crates P) volatile decoder k0 l ≡ (typed, k)
      → text_of (crates P) volatile decoder k0 l ≡ (typed ++ [], k)
  no_text k0 k l typed e = e ∙ ap (λ m. (m, k)) (sym (append-nil typed))

  module _ (prints : ℕ → Machine P R → List (List ℕ)) where
    -- The text of the scancodes that are handled behind a step.
    handled-text :
        (s t : Machine P R) (step : Step P R task_id s t) (k0 k : decoder.Keyboard)
        (l typed : List ℕ)
        → text_of (crates P) volatile decoder k0 l ≡ (typed, k)
        → text_of (crates P) volatile decoder k0 (handled s t step l) ≡ (
          typed ++ task_text (entry P R task_id prints s t step k),
          decoded P R task_id s t step k,
        )
    unfolding entry task_text
    handled-text s t (polls task q a b c d) k0 k l typed e = no_text k0 k l typed e
    handled-text s t (serves id q after world a b c d f) k0 k l typed e = no_text k0 k l typed e
    handled-text s t (drains a b c) k0 k l typed e = no_text k0 k l typed e
    handled-text s t (goes to statics a b c d) k0 k l typed e = no_text k0 k l typed e
    handled-text s t (loops scancode a b c) k0 k l typed e =
        text_of-append (crates P) volatile decoder k0 l scancode
        ∙ ap
            (λ (p : List ℕ × decoder.Keyboard). (
              p.0 ++ (text_of (crates P) volatile decoder p.1 (scancode ∷ [])).0,
              (text_of (crates P) volatile decoder p.1 (scancode ∷ [])).1,
            ))
            e
    handled-text s t (waits task a b c) k0 k l typed e = no_text k0 k l typed e
    handled-text s t (sleeps stage a b c d) k0 k l typed e = no_text k0 k l typed e
    handled-text s t (key scancode statics effect q a b c d) k0 k l typed e = no_text k0 k l typed e
    handled-text s t (timer a b) k0 k l typed e = no_text k0 k l typed e

    -- The view behind any steps: the decoder and the task's prints are those of the scancodes that the
    -- task has handled, and the screen is the first one on which the log was typed.
    pub record Follows (k0 : decoder.Keyboard) (x : Screen) (color : ℕ)
        (v : View P R task_id prints) : Type 0 where
      pub fits : Fits P R task_id v.machine
      pub done : List ℕ
      pub split : Split v.machine done
      pub decodes : text_of (crates P) volatile decoder k0 done ≡ (task_texts v.log, v.keyboard)
      pub typed : Typed volatile color (type_string color (texts v.log) x) v.writer

    pub Shows-Follows :
        (k0 : decoder.Keyboard) (x : Screen) (color : ℕ) {initial v : View P R task_id prints}
        → Follows k0 x color initial
        → Shows P R task_id prints initial v
        → Follows k0 x color v
    Shows-Follows k0 x color h (start e) = subst (Follows k0 x color) (sym e) h
    Shows-Follows k0 x color h (later {v} {u} r step printed logged) =
        let g = Shows-Follows k0 x color h r in
        let (after, e, t) =
          output-Typed P R task_id prints v.machine u.machine step v.keyboard v.writer
            (type_string color (texts v.log) x) color g.typed in
        let same = ok_unique e printed in
        let p = entry P R task_id prints v.machine u.machine step v.keyboard in
        record {
          fits = Step-Fits P R task_id v.machine u.machine step g.fits;
          done = handled v.machine u.machine step g.done;
          split = Step-Split v.machine u.machine step g.done g.fits g.split;
          decodes =
              handled-text v.machine u.machine step k0 v.keyboard g.done (task_texts v.log)
                g.decodes
              ∙ ap (λ k. (task_texts v.log ++ task_text p, k))
                  (ap (λ (y : Shown P R task_id). y.0) same)
              ∙ ap (λ l. (l, u.keyboard)) (sym (ap task_texts logged ∙ task_texts-append v.log p));
          typed =
              subst (λ w. Typed volatile color (type_string color (texts u.log) x) w)
                (ap (λ (y : Shown P R task_id). y.1) same)
                (subst (λ y. Typed volatile color y after)
                  (sym (
                    ap (λ l. type_string color l x) (ap texts logged ∙ texts-append v.log p)
                    ∙ type_string-append color (texts v.log) (text p) x))
                  t);
        }
