-- ===== src/Interrupts.antt =====
-- src/interrupts.rs: the handlers of exceptions and of the interrupts that the two PICs raise.
pub mod Acknowledge
pub mod Idt
use taijios.Common.{ℕ, ◌+◌, Option, none, some, List, [], ◌∷◌, ◌++◌, Outcome, ok, panic, ◌>>=◌}
use taijios.Vga.{Volatile, Writer, print}
use taijios.Task.Keyboard.{
  Crates, Statics, Warning, queue_full, queue_uninitialized, Effect, warns, wakes, add_scancode,
}

abbrev pub pic_1_offset : ℕ
pic_1_offset = 32

abbrev pub pic_2_offset : ℕ
pic_2_offset = pic_1_offset + 8

pub data InterruptIndex : Type 0 where
  timer keyboard : InterruptIndex

-- `as_u8`: the discriminants count from `PIC_1_OFFSET`.
unfoldable pub as_u8 : InterruptIndex → ℕ
as_u8 timer = pic_1_offset
as_u8 keyboard = pic_1_offset + 1

unfoldable pub as_usize : InterruptIndex → ℕ
as_usize self = as_u8 self

-- `ChainedPics` of the crate pic8259
pub record ChainedPics : Type 1 where
  pub Pics : Type 0
  pub notify_end_of_interrupt : Pics → ℕ → Pics

-- What `add_scancode` prints as a warning.
unfoldable pub warning : Warning → List ℕ
warning queue_full =
    b'W' ∷ b'A' ∷ b'R' ∷ b'N' ∷ b'I' ∷ b'N' ∷ b'G' ∷ b':' ∷ b' ' ∷ b's' ∷ b'c' ∷ b'a' ∷ b'n' ∷ b'c'
    ∷ b'o' ∷ b'd' ∷ b'e' ∷ b' ' ∷ b'q' ∷ b'u' ∷ b'e' ∷ b'u' ∷ b'e' ∷ b' ' ∷ b'f' ∷ b'u' ∷ b'l'
    ∷ b'l' ∷ b';' ∷ b' ' ∷ b'd' ∷ b'r' ∷ b'o' ∷ b'p' ∷ b'p' ∷ b'i' ∷ b'n' ∷ b'g' ∷ b' ' ∷ b'k'
    ∷ b'e' ∷ b'y' ∷ b'b' ∷ b'o' ∷ b'a' ∷ b'r' ∷ b'd' ∷ b' ' ∷ b'i' ∷ b'n' ∷ b'p' ∷ b'u' ∷ b't' ∷ []
warning queue_uninitialized =
    b'W' ∷ b'A' ∷ b'R' ∷ b'N' ∷ b'I' ∷ b'N' ∷ b'G' ∷ b':' ∷ b' ' ∷ b's' ∷ b'c' ∷ b'a' ∷ b'n' ∷ b'c'
    ∷ b'o' ∷ b'd' ∷ b'e' ∷ b' ' ∷ b'q' ∷ b'u' ∷ b'e' ∷ b'u' ∷ b'e' ∷ b' ' ∷ b'u' ∷ b'n' ∷ b'i'
    ∷ b'n' ∷ b'i' ∷ b't' ∷ b'i' ∷ b'a' ∷ b'l' ∷ b'i' ∷ b'z' ∷ b'e' ∷ b'd' ∷ []

module _ (C : Crates) (V : Volatile) (P : ChainedPics) where
  open C use {Waker}
  open P use {Pics, notify_end_of_interrupt}

  -- What the handlers share with the rest of the kernel.
  pub record Machine : Type 0 where
    pub writer : Writer V
    pub statics : Statics C
    pub pics : Pics

  -- `println!` of a text
  unfoldable pub println : Writer V → List ℕ → Outcome (Writer V)
  println writer text = print V writer (text ∷ (b'\n' ∷ []) ∷ [])

  -- The arguments stand for what formatting makes of the stack frame and the error code.
  unfoldable pub breakpoint_handler : List (List ℕ) → Machine → Outcome Machine
  breakpoint_handler frame self = do
    writer ← print V self.writer frame
    ok (record self { writer = writer })

  unfoldable pub print_lines : List (List (List ℕ)) → Machine → Outcome Machine
  print_lines [] self = ok self
  print_lines (line ∷ lines) self = do
    writer ← print V self.writer line
    print_lines lines (record self { writer = writer })

  -- The machine in which `hlt_loop` then stays.
  unfoldable pub page_fault_handler :
      List (List ℕ) → List (List ℕ) → List (List ℕ) → List (List ℕ) → Machine → Outcome Machine
  page_fault_handler title address error_code frame self =
      print_lines (title ∷ address ∷ error_code ∷ frame ∷ []) self

  unfoldable pub double_fault_handler : Machine → Outcome Machine
  double_fault_handler self = panic

  unfoldable pub timer_interrupt_handler : Machine → Outcome Machine
  timer_interrupt_handler self = do
    writer ← print V self.writer ((b'.' ∷ []) ∷ [])
    ok (record self { writer = writer; pics = notify_end_of_interrupt self.pics (as_u8 timer) })

  -- The writer behind `add_scancode`.
  unfoldable pub warn : Effect C → Writer V → Outcome (Writer V)
  warn (warns w) writer = println writer (warning w)
  warn (wakes woken) writer = ok writer

  -- `Wake::wake` of the waker's type, which changes what the wakers share.
  module _ {Shared : Type 0} (wake : Waker → Shared → Outcome Shared) where
    -- `WAKER.wake()` of `add_scancode`
    unfoldable pub wake_stored : Effect C → Shared → Outcome Shared
    wake_stored (warns w) shared = ok shared
    wake_stored (wakes none) shared = ok shared
    wake_stored (wakes (some waker)) shared = wake waker shared

    -- On the scancode that the port yields. The interrupt is acknowledged last.
    unfoldable pub keyboard_interrupt_handler : ℕ → Machine → Shared → Outcome (Machine × Shared)
    keyboard_interrupt_handler scancode self shared =
        let (statics, effect) = add_scancode C self.statics scancode in
        do
          writer ← warn effect self.writer
          shared' ← wake_stored effect shared
          ok (
            record {
              writer = writer;
              statics = statics;
              pics = notify_end_of_interrupt self.pics (as_u8 keyboard);
            },
            shared',
          )
