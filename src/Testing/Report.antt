-- ===== src/Testing/Report.antt =====
-- What a test executable sends over the serial port, and how it ends QEMU.
use mathlib.Core.List.{flatten}
use taijios.Common.{ℕ, ◌≡◌, ◌↔◌, inl, inr, refl, sym, ap, List, [], ◌∷◌, ◌++◌, length}
use mathlib.Core.Path.{subst}
use taijios.Serial.{Uart, print-written}
use taijios.Testing.{
  QemuExitCode, success, failed, as_u32, PanicInfo, returned, panicked, Test, exit_port, Host, dots,
  ok_line, failed_line, error_text, two_newlines, running_text, tests_line, Run, returns, panics,
  ◌then◌, printed, serial_print, exit_qemu, ended, run, run_all, test_runner, test_panic_handler,
  handled, start,
}
use taijios.Testing.Verdict.{
  nothing, flatten-two, verdict, report, Passes, Ends-cases, report-Passes,
}

module _ (U : Uart) (S : Type 0) (display_usize : ℕ → List (List ℕ))
    (printing_failed : PanicInfo) where
  abbrev Machine : Type 0
  Machine = Host U S display_usize printing_failed

  serial_print-written :
      (pieces : List (List ℕ)) (host : Machine)
      → (port : U.SerialPort) × (serial_print U S display_usize printing_failed pieces host
          ≡ returns (record host { serial = port }))
        × (U.written port ≡ U.written host.serial ++ flatten pieces)
  unfolding serial_print printed
  serial_print-written pieces host =
      let (port, e, at) = print-written U host.serial pieces in (port, rw e refl, at)

  -- What a run ends with: the pieces that it sends, and the exit code that it writes.
  abbrev Reports : Machine → List (List ℕ) × QemuExitCode → Run Machine → Type 0
  Reports host (pieces, code) r =
      (after : Machine) × (r ≡ returns after)
      × (U.written after.serial ≡ U.written host.serial ++ flatten pieces)
      × (after.ports ≡ host.ports ++ ((exit_port, as_u32 code) ∷ []))

  test_panic_handler-Reports :
      (info : PanicInfo) (host : Machine)
      → Reports host
          ((failed_line ∷ error_text ∷ []) ++ (info ++ (two_newlines ∷ [])), failed)
          (test_panic_handler U S display_usize printing_failed info host)
  unfolding test_panic_handler exit_qemu
  test_panic_handler-Reports info host =
      let (port1, e, at1) = serial_print-written (failed_line ∷ []) host in
      let (port2, f, at2) =
        serial_print-written (error_text ∷ (info ++ (two_newlines ∷ [])))
          (record host { serial = port1 }) in
      let after : Machine = record {
        serial = port2;
        ports = host.ports ++ ((exit_port, as_u32 failed) ∷ []);
        system = host.system;
      } in
      (
        after,
        rw (e, f) refl,
        flatten-two (U.written host.serial) (U.written port1) (U.written port2) _ _ at1 at2,
        refl,
      )

  -- A test that returns.
  run-returned :
      (test : Test S) (host : Machine) (system : S)
      → test.call host.system ≡ returned system
      → (port : U.SerialPort) × (run U S display_usize printing_failed test host
          ≡ returns (record host { serial = port; system = system }))
        × (U.written port ≡ U.written host.serial ++ flatten (test.name ∷ dots ∷ ok_line ∷ []))
  unfolding run ended
  run-returned test host system ends =
      let (port1, e, at1) = serial_print-written (test.name ∷ dots ∷ []) host in
      let (port2, f, at2) =
        serial_print-written (ok_line ∷ []) (record host { serial = port1; system = system }) in
      (
        port2,
        rw (e, ends, f) refl,
        flatten-two (U.written host.serial) (U.written port1) (U.written port2) _ _ at1 at2,
      )

  -- A test that panics.
  run-panicked :
      (test : Test S) (host : Machine) (info : PanicInfo) (system : S)
      → test.call host.system ≡ panicked info system
      → (port : U.SerialPort) × (run U S display_usize printing_failed test host
          ≡ panics info (record host { serial = port; system = system }))
        × (U.written port ≡ U.written host.serial ++ flatten (test.name ∷ dots ∷ []))
  unfolding run ended
  run-panicked test host info system ends =
      let (port1, e, at1) = serial_print-written (test.name ∷ dots ∷ []) host in
      (port1, rw (e, ends) refl, at1)

  -- The tests, the exit and the panic handler.
  abbrev ending : List (Test S) → Machine → Run Machine
  ending tests host = handled U S display_usize printing_failed (
      run_all U S display_usize printing_failed tests host
      then (λ h. returns (exit_qemu U S display_usize printing_failed success h)))

  run_all-Reports :
      (tests : List (Test S)) (host : Machine)
      → Reports host (report tests host.system) (ending tests host)
  unfolding run_all handled exit_qemu report
  run_all-Reports [] host = (
    exit_qemu U S display_usize printing_failed success host,
    refl,
    nothing (U.written host.serial),
    refl,
  )
  run_all-Reports (test ∷ tests) host = elim (Ends-cases (test.call host.system)) [
    | inl (system, ends) ↦
        let (port, e, at) = run-returned test host system ends in
        let (after, f, at', ports) =
          run_all-Reports tests (record host { serial = port; system = system }) in
        let known : report (test ∷ tests) host.system
            ≡ verdict test.name (returned system) (report tests) =
          ap (λ x. verdict test.name x (report tests)) ends in
        subst (λ x. Reports host x (ending (test ∷ tests) host)) (sym known)
          (
            after,
            rw e f,
            flatten-two (U.written host.serial) (U.written port) (U.written after.serial) _ _ at
                at',
            ports,
          )
    | inr (info, system, ends) ↦
        let (port, e, at) = run-panicked test host info system ends in
        let (after, f, at', ports) =
          test_panic_handler-Reports info (record host { serial = port; system = system }) in
        let known : report (test ∷ tests) host.system
            ≡ verdict test.name (panicked info system) (report tests) =
          ap (λ x. verdict test.name x (report tests)) ends in
        subst (λ x. Reports host x (ending (test ∷ tests) host)) (sym known)
          (
            after,
            rw e f,
            flatten-two (U.written host.serial) (U.written port) (U.written after.serial) _ _ at
                at',
            ports,
          )
  ]

  -- The tests of an executable, whichever of them panic: it does not panic itself, it sends their
  -- number and then the report, and it writes one exit code, which is that of success exactly when
  -- every test returns.
  pub start-reports :
      (tests : List (Test S)) (host : Machine)
      → (after : Machine) × (start U S display_usize printing_failed tests host ≡ returns after)
        × (U.written after.serial
            ≡ U.written host.serial
              ++ flatten (
                  (running_text ∷ (display_usize (length tests) ++ (tests_line ∷ [])))
                  ++ (report tests host.system).0))
        × (after.ports ≡ host.ports ++ ((exit_port, as_u32 (report tests host.system).1) ∷ []))
        × (((report tests host.system).1 ≡ success) ↔ Passes tests host.system)
  unfolding start test_runner
  start-reports tests host =
      let (port, e, at) =
        serial_print-written (running_text ∷ (display_usize (length tests) ++ (tests_line ∷ [])))
          host in
      let (after, f, at', ports) = run_all-Reports tests (record host { serial = port }) in
      (
        after,
        rw e f,
        flatten-two (U.written host.serial) (U.written port) (U.written after.serial) _ _ at at',
        ports,
        report-Passes tests host.system,
      )
