-- ===== src/Serial.antt =====
-- src/serial.rs: text sent over the serial port.
use mathlib.Core.List.{append_assoc, append-nil, flatten}
use taijios.Common.{
  ℕ, ◌≡◌, ◌∙◌, refl, sym, ap, Option, some, List, [], ◌∷◌, ◌++◌, Outcome, ok, ◌>>=◌, expect,
}

-- `SerialPort` of the crate uart_16550: `write_str` sends a string and never fails.
pub record Uart : Type 1 where
  pub SerialPort : Type 0
  pub write_str : SerialPort → List ℕ → Option SerialPort
  pub written : SerialPort → List ℕ
  pub write_law :
      (port : SerialPort) (s : List ℕ)
      → (port' : SerialPort) × (write_str port s ≡ some port') × (written port' ≡ written port ++ s)

module _ (U : Uart) where
  open U use {SerialPort, written}

  -- `_print`: `write_fmt` hands the pieces of its arguments to `write_str`, and a failure panics. The
  -- port is locked, and interrupts are off meanwhile.
  unfoldable pub print : SerialPort → List (List ℕ) → Outcome SerialPort
  print port [] = ok port
  print port (piece ∷ pieces) = do port' ← expect (U.write_str port piece); print port' pieces

  -- Printing does not panic, and sends the pieces in order.
  pub print-written :
      (port : SerialPort) (pieces : List (List ℕ))
      → (port' : SerialPort) × (print port pieces ≡ ok port')
        × (written port' ≡ written port ++ flatten pieces)
  unfolding print flatten
  print-written port [] = (port, refl, sym (append-nil (written port)))
  print-written port (piece ∷ pieces) =
      let (port1, e, at) = U.write_law port piece in
      let (port2, f, rest) = print-written port1 pieces in
      (
        port2,
        rw e f,
        rest
            ∙ ap (λ l. l ++ flatten pieces) at
            ∙ append_assoc (written port) piece (flatten pieces),
      )
