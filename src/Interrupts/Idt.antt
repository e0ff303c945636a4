-- ===== src/Interrupts/Idt.antt =====
-- src/interrupts.rs: the interrupt descriptor table.
use taijios.Common.{ℕ, ◌≤◌, ◌<◌, ◌≡◌, ◌≢◌, ◌∙◌, refl, arith, Option, none, some, Outcome, ok, ◌>>=◌}
use taijios.Gdt.{double_fault_ist_index}
use taijios.Interrupts.{timer, keyboard, as_u8, as_usize}

-- The functions that the entries name.
pub data Handler : Type 0 where
  breakpoint_handler page_fault_handler double_fault_handler : Handler
  timer_interrupt_handler keyboard_interrupt_handler : Handler

-- The vectors of the fields `breakpoint`, `double_fault` and `page_fault`.
abbrev pub breakpoint : ℕ
breakpoint = 3

abbrev pub double_fault : ℕ
double_fault = 8

abbrev pub page_fault : ℕ
page_fault = 14

-- An entry: the handler, the code segment that it runs in, and the index of its stack.
pub record Gate (SegmentSelector : Type 0) : Type 0 where
  pub handler : Handler
  pub selector : SegmentSelector
  pub stack_index : Option ℕ

abbrev pub gate :
    {SegmentSelector : Type 0} → Handler → SegmentSelector → Option ℕ → Gate SegmentSelector
gate handler selector stack_index = record {
  handler = handler;
  selector = selector;
  stack_index = stack_index;
}

-- `InterruptDescriptorTable` of the crate x86_64. `set_handler_fn` writes an entry for the code
-- segment that the register CS selects at the call, given here, with no stack of its own; `index` is
-- that of the entries from 32 on, where others panic.
pub record Descriptors (SegmentSelector : Type 0) : Type 1 where
  pub InterruptDescriptorTable : Type 0
  pub new : InterruptDescriptorTable
  pub set_handler_fn :
      SegmentSelector → InterruptDescriptorTable → ℕ → Handler → InterruptDescriptorTable
  pub set_stack_index : InterruptDescriptorTable → ℕ → ℕ → InterruptDescriptorTable
  pub index : ℕ → Outcome ℕ
  pub entry : InterruptDescriptorTable → ℕ → Option (Gate SegmentSelector)
  pub new_law : (vector : ℕ) → entry new vector ≡ none
  pub set_law :
      (cs : SegmentSelector) (idt : InterruptDescriptorTable) (vector : ℕ) (handler : Handler)
      → entry (set_handler_fn cs idt vector handler) vector ≡ some (gate handler cs none)
  pub set_other :
      (cs : SegmentSelector) (idt : InterruptDescriptorTable) (vector other : ℕ) (handler : Handler)
      → other ≢ vector
      → entry (set_handler_fn cs idt vector handler) other ≡ entry idt other
  pub stack_law :
      (idt : InterruptDescriptorTable) (vector index : ℕ) (before : Gate SegmentSelector)
      → entry idt vector ≡ some before
      → entry (set_stack_index idt vector index) vector
        ≡ some (gate before.handler before.selector (some index))
  pub stack_other :
      (idt : InterruptDescriptorTable) (vector other index : ℕ)
      → other ≢ vector
      → entry (set_stack_index idt vector index) other ≡ entry idt other
  pub index_law : (vector : ℕ) → 32 ≤ vector → vector < 256 → index vector ≡ ok vector

module _ {SegmentSelector : Type 0} (D : Descriptors SegmentSelector) where
  open D use {InterruptDescriptorTable, new, set_handler_fn, set_stack_index, entry, index}

  -- the entries of the exceptions
  unfoldable pub exceptions : SegmentSelector → InterruptDescriptorTable
  exceptions cs =
      set_stack_index
        (set_handler_fn cs
          (set_handler_fn cs (set_handler_fn cs new breakpoint breakpoint_handler) page_fault
            page_fault_handler)
          double_fault double_fault_handler)
        double_fault double_fault_ist_index

  -- `IDT`
  unfoldable pub idt : SegmentSelector → Outcome InterruptDescriptorTable
  idt cs = do
    first ← index (as_usize timer)
    second ← index (as_usize keyboard)
    ok (
        set_handler_fn cs (set_handler_fn cs (exceptions cs) first timer_interrupt_handler) second
          keyboard_interrupt_handler)

  -- The register of the table behind `init_idt`. The static `IDT` is made at this, its first use.
  unfoldable pub init_idt :
      SegmentSelector → Option InterruptDescriptorTable → Outcome (Option InterruptDescriptorTable)
  init_idt cs idtr = do table ← idt cs; ok (some table)

  -- The entries of the table: five are set, for the code segment `cs`, one with a stack of its own,
  -- and no other.
  pub record Entries (cs : SegmentSelector) (table : InterruptDescriptorTable) : Type 0 where
    pub at_breakpoint : entry table breakpoint ≡ some (gate breakpoint_handler cs none)
    pub at_page_fault : entry table page_fault ≡ some (gate page_fault_handler cs none)
    pub at_double_fault :
        entry table double_fault ≡ some (gate double_fault_handler cs (some double_fault_ist_index))
    pub at_timer : entry table 32 ≡ some (gate timer_interrupt_handler cs none)
    pub at_keyboard : entry table 33 ≡ some (gate keyboard_interrupt_handler cs none)
    pub at_others :
        (vector : ℕ)
        → vector ≢ breakpoint
        → vector ≢ page_fault
        → vector ≢ double_fault
        → vector ≢ 32
        → vector ≢ 33
        → entry table vector ≡ none

  -- The interrupts' entries lie above those of the exceptions.
  below :
      (cs : SegmentSelector) (vector : ℕ)
      → vector ≢ 32
      → vector ≢ 33
      → entry
          (set_handler_fn cs
            (set_handler_fn cs (exceptions cs) 32 timer_interrupt_handler)
            33
            keyboard_interrupt_handler)
          vector
        ≡ entry (exceptions cs) vector
  below cs vector first second =
      D.set_other cs (set_handler_fn cs (exceptions cs) 32 timer_interrupt_handler) 33 vector
        keyboard_interrupt_handler second
      ∙ D.set_other cs (exceptions cs) 32 vector timer_interrupt_handler first

  -- The entries but that of double faults.
  above :
      (cs : SegmentSelector) (vector : ℕ)
      → vector ≢ double_fault
      → entry (exceptions cs) vector
        ≡ entry
            (set_handler_fn cs
              (set_handler_fn cs new breakpoint breakpoint_handler)
              page_fault
              page_fault_handler)
            vector
  unfolding exceptions
  above cs vector other =
      D.stack_other _ double_fault vector double_fault_ist_index other
      ∙ D.set_other cs _ double_fault vector double_fault_handler other

  -- `init_idt` does not panic, and loads a table with these entries, for the code segment at the call.
  pub init_idt-Entries :
      (cs : SegmentSelector) (idtr : Option InterruptDescriptorTable)
      → (table : InterruptDescriptorTable) × (init_idt cs idtr ≡ ok (some table)) × Entries cs table
  unfolding init_idt idt as_usize as_u8 exceptions
  init_idt-Entries cs idtr = (
    set_handler_fn cs (set_handler_fn cs (exceptions cs) 32 timer_interrupt_handler) 33
        keyboard_interrupt_handler,
    rw (D.index_law 32 (omega arith) (omega arith), D.index_law 33 (omega arith) (omega arith))
        refl,
    record {
      at_breakpoint =
          below cs breakpoint (omega arith) (omega arith)
          ∙ above cs breakpoint (omega arith)
          ∙ D.set_other cs _ page_fault breakpoint page_fault_handler (omega arith)
          ∙ D.set_law cs new breakpoint breakpoint_handler;
      at_page_fault =
          below cs page_fault (omega arith) (omega arith)
          ∙ above cs page_fault (omega arith)
          ∙ D.set_law cs _ page_fault page_fault_handler;
      at_double_fault =
          below cs double_fault (omega arith) (omega arith)
          ∙ D.stack_law _ double_fault double_fault_ist_index (gate double_fault_handler cs none)
              (D.set_law cs _ double_fault double_fault_handler);
      at_timer =
          D.set_other cs _ 33 32 keyboard_interrupt_handler (omega arith)
          ∙ D.set_law cs (exceptions cs) 32 timer_interrupt_handler;
      at_keyboard = D.set_law cs _ 33 keyboard_interrupt_handler;
      at_others = λ vector a b c d e.
          below cs vector d e
          ∙ above cs vector c
          ∙ D.set_other cs _ page_fault vector page_fault_handler b
          ∙ D.set_other cs new breakpoint vector breakpoint_handler a
          ∙ D.new_law vector;
    },
  )
