-- ===== src/Testing.antt =====
-- src/lib.rs: the test framework, which reports over the serial port and ends QEMU.
pub mod Verdict
pub mod Report
mod Tests
use mathlib.Core.List.{flatten}
use taijios.Common.{ℕ, List, [], ◌∷◌, ◌++◌, length, Outcome, ok, panic}
use taijios.Serial.{Uart, print}

pub data QemuExitCode : Type 0 where
  success failed : QemuExitCode

-- `exit_code as u32`
unfoldable pub as_u32 : QemuExitCode → ℕ
as_u32 success = 0x10
as_u32 failed = 0x11

-- The pieces in which a `PanicInfo` is formatted.
abbrev pub PanicInfo : Type 0
PanicInfo = List (List ℕ)

-- How a test function ends, on the state of the system.
pub data Ends (S : Type 0) : Type 0 where
  returned : S → Ends S
  panicked : PanicInfo → S → Ends S

-- A function of the test list, with the name that `type_name` gives.
pub record Test (S : Type 0) : Type 0 where
  pub name : List ℕ
  pub call : S → Ends S

-- A function returns, or it panics; what follows it runs only where it returns.
pub data Run (H : Type 0) : Type 0 where
  returns : H → Run H
  panics : PanicInfo → H → Run H

infixl 5 ◌then◌
abbrev pub ◌then◌ : {H : Type 0} → Run H → (H → Run H) → Run H
returns host then f = f host
panics info host then f = panics info host

abbrev pub exit_port : ℕ
exit_port = 0xf4

-- The pieces of the format strings.
abbrev pub dots : List ℕ
dots = b'.' ∷ b'.' ∷ b'.' ∷ b'\t' ∷ []

abbrev pub ok_line : List ℕ
ok_line = b'[' ∷ b'o' ∷ b'k' ∷ b']' ∷ b'\n' ∷ []

abbrev pub failed_line : List ℕ
failed_line = b'[' ∷ b'f' ∷ b'a' ∷ b'i' ∷ b'l' ∷ b'e' ∷ b'd' ∷ b']' ∷ b'\n' ∷ b'\n' ∷ []

abbrev pub error_text : List ℕ
error_text = b'E' ∷ b'r' ∷ b'r' ∷ b'o' ∷ b'r' ∷ b':' ∷ b' ' ∷ []

abbrev pub two_newlines : List ℕ
two_newlines = b'\n' ∷ b'\n' ∷ []

abbrev pub running_text : List ℕ
running_text = b'R' ∷ b'u' ∷ b'n' ∷ b'n' ∷ b'i' ∷ b'n' ∷ b'g' ∷ b' ' ∷ []

abbrev pub tests_line : List ℕ
tests_line = b' ' ∷ b't' ∷ b'e' ∷ b's' ∷ b't' ∷ b's' ∷ b'\n' ∷ []

-- `display_usize` gives the pieces in which a `usize` is formatted, `printing_failed` is the panic
-- of `_print`. Test functions do not use the serial port.
module _ (U : Uart) (S : Type 0) (display_usize : ℕ → List (List ℕ))
    (printing_failed : PanicInfo) where
  -- The machine: the serial port, the writes to other ports, and the rest of the system.
  pub record Host : Type 0 where
    pub serial : U.SerialPort
    pub ports : List (ℕ × ℕ)
    pub system : S

  unfoldable pub printed : Outcome U.SerialPort → Host → Run Host
  printed (ok port) host = returns (record host { serial = port })
  printed panic host = panics printing_failed host

  -- `serial_print!`; `serial_println!` has the newline in its last piece.
  unfoldable pub serial_print : List (List ℕ) → Host → Run Host
  serial_print pieces host = printed (print U host.serial pieces) host

  unfoldable pub exit_qemu : QemuExitCode → Host → Host
  exit_qemu code host = record host { ports = host.ports ++ ((exit_port, as_u32 code) ∷ []) }

  unfoldable pub ended : Ends S → Host → Run Host
  ended (returned system) host = returns (record host { system = system })
  ended (panicked info system) host = panics info (record host { system = system })

  -- `Testable::run`
  unfoldable pub run : Test S → Host → Run Host
  run self host =
      serial_print (self.name ∷ dots ∷ []) host
      then (λ h. ended (self.call h.system) h)
      then serial_print (ok_line ∷ [])

  -- the loop of `test_runner`
  unfoldable pub run_all : List (Test S) → Host → Run Host
  run_all [] host = returns host
  run_all (test ∷ tests) host = run test host then run_all tests

  unfoldable pub test_runner : List (Test S) → Host → Run Host
  test_runner tests host =
      serial_print (running_text ∷ (display_usize (length tests) ++ (tests_line ∷ []))) host
      then run_all tests
      then (λ h. returns (exit_qemu success h))

  -- The machine in which `hlt_loop` then stays.
  unfoldable pub test_panic_handler : PanicInfo → Host → Run Host
  test_panic_handler info host =
      serial_print (failed_line ∷ []) host
      then serial_print (error_text ∷ (info ++ (two_newlines ∷ [])))
      then (λ h. returns (exit_qemu failed h))

  -- The panic handler takes over where a function panics.
  unfoldable pub handled : Run Host → Run Host
  handled (returns host) = returns host
  handled (panics info host) = test_panic_handler info host

  -- `_start` of a test executable, up to its endless loop
  unfoldable pub start : List (Test S) → Host → Run Host
  start tests host = handled (test_runner tests host)
