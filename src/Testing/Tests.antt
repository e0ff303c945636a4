-- ===== src/Testing/Tests.antt =====
-- Three tests on a counter, of which the second panics.
use mathlib.Core.List.{flatten}
use taijios.Common.{ℕ, suc, ◌+◌, ◌≡◌, ◌↔◌, refl, some, List, [], ◌∷◌, ◌++◌}
use taijios.Serial.{Uart}
use taijios.Testing.{
  success, as_u32, returned, panicked, Test, returns, exit_port, running_text, tests_line, Host,
  start,
}
use taijios.Testing.Verdict.{report, Passes}
use taijios.Testing.Report.{start-reports}

-- The port as the text that was sent.
abbrev text_port : Uart
text_port = record {
  SerialPort = List ℕ;
  write_str = λ port s. some (port ++ s);
  written = λ port. port;
  write_law = λ port s. (port ++ s, refl, refl);
}

abbrev digits : ℕ → List (List ℕ)
digits n = ((b'0' + n) ∷ []) ∷ []

abbrev three_tests : List (Test ℕ)
three_tests =
    (record { name = b'a' ∷ []; call = λ n. returned (suc n) })
    ∷ (record { name = b'b' ∷ []; call = λ n. panicked ((b'!' ∷ []) ∷ []) n })
    ∷ (record { name = b'c' ∷ []; call = λ n. returned n })
    ∷ []

abbrev quiet : Host text_port ℕ digits []
quiet = record { serial = []; ports = []; system = 0 }

start-reports_example :
    (after : Host text_port ℕ digits []) × (start text_port ℕ digits [] three_tests quiet
      ≡ returns after)
    × (after.serial
        ≡ []
          ++ flatten ((running_text ∷ (digits 3 ++ (tests_line ∷ []))) ++ (report three_tests 0).0))
    × (after.ports ≡ [] ++ ((exit_port, as_u32 (report three_tests 0).1) ∷ []))
    × (((report three_tests 0).1 ≡ success) ↔ Passes three_tests 0)
start-reports_example = start-reports text_port ℕ digits [] three_tests quiet
