-- ===== src/Testing/Verdict.antt =====
-- The report of a list of tests, and when it is one of success.
use mathlib.Core.List.{append_assoc, append-nil, flatten}
use taijios.Common.{ℕ, ◌≡◌, ◌⊎◌, ◌↔◌, ◌∙◌, inl, inr, refl, sym, ap, List, [], ◌∷◌, ◌++◌}
use mathlib.Core.Path.{subst}
use taijios.Testing.{
  QemuExitCode, success, failed, PanicInfo, Ends, returned, panicked, Test, dots, ok_line,
  failed_line, error_text, two_newlines,
}

flatten-append : (a b : List (List ℕ)) → flatten (a ++ b) ≡ flatten a ++ flatten b
unfolding flatten
flatten-append [] b = refl
flatten-append (l ∷ a) b =
    ap (λ m. l ++ m) (flatten-append a b) ∙ sym (append_assoc l (flatten a) (flatten b))

pub nothing : (w : List ℕ) → w ≡ w ++ flatten []
unfolding flatten
nothing w = sym (append-nil w)

-- Two prints after one another.
pub flatten-two :
    (w w1 w2 : List ℕ) (a b : List (List ℕ))
    → w1 ≡ w ++ flatten a
    → w2 ≡ w1 ++ flatten b
    → w2 ≡ w ++ flatten (a ++ b)
flatten-two w w1 w2 a b e f =
    f
    ∙ ap (λ l. l ++ flatten b) e
    ∙ append_assoc w (flatten a) (flatten b)
    ∙ ap (λ l. w ++ l) (sym (flatten-append a b))

module _ {S : Type 0} where
  -- The reference: what is reported of the tests, from a state of the system on, and the exit code.
  -- The first test that panics is the last one.
  abbrev pub verdict :
      List ℕ → Ends S → (S → List (List ℕ) × QemuExitCode) → List (List ℕ) × QemuExitCode
  verdict name (returned system) others =
      ((name ∷ dots ∷ ok_line ∷ []) ++ (others system).0, (others system).1)
  verdict name (panicked info system) others =
      ((name ∷ dots ∷ failed_line ∷ error_text ∷ []) ++ (info ++ (two_newlines ∷ [])), failed)

  unfoldable pub report : List (Test S) → S → List (List ℕ) × QemuExitCode
  report [] system = ([], success)
  report (test ∷ tests) system = verdict test.name (test.call system) (report tests)

  -- Every test returns, each on the state that the one before it left.
  abbrev pub Passes : List (Test S) → S → Type 0
  Passes [] system = Unit
  Passes (test ∷ tests) system =
      (after : S) × (test.call system ≡ returned after) × Passes tests after

  pub Ends-cases :
      (e : Ends S)
      → ((after : S) × (e ≡ returned after))
        ⊎ ((info : PanicInfo) × (after : S) × (e ≡ panicked info after))
  Ends-cases (returned system) = inl (system, refl)
  Ends-cases (panicked info system) = inr (info, system, refl)

  -- The exit code tells whether every test returns.
  pub report-Passes :
      (tests : List (Test S)) (system : S)
      → ((report tests system).1 ≡ success) ↔ Passes tests system
  unfolding report
  report-Passes [] system = (λ e. tt, λ h. refl)
  report-Passes (test ∷ tests) system = elim (Ends-cases (test.call system)) [
    | inl (after, e) ↦
        let (to, from) = report-Passes tests after in
        let same : (report (test ∷ tests) system).1 ≡ (report tests after).1 = rw e refl in
        (
          λ f. (after, e, to (sym same ∙ f)),
          λ (after', e', h).
              same ∙ from (let known : after' ≡ after = cc in subst (Passes tests) known h),
        )
    | inr (info, after, e) ↦
        let same : (report (test ∷ tests) system).1 ≡ failed = rw e refl in
        (λ f. absurd cc, λ (after', e', h). absurd cc)
  ]
