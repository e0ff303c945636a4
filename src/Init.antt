-- ===== src/Init.antt =====
-- src/lib.rs: `init`, which gives the processor its tables and the PICs their vectors.
pub mod Dispatch
pub mod Tests
use taijios.Common.{ℕ, ◌+◌, ◌<◌, ◌≡◌, Bool, true, Option, none, some, Outcome, ok, ◌>>=◌}
use taijios.Gdt.{Segmentation, Registers}
use taijios.Gdt as Gdt
use taijios.Interrupts.{ChainedPics, pic_1_offset, pic_2_offset}
use taijios.Interrupts.Idt.{Descriptors, init_idt}

-- `ChainedPics::new` and `initialize` of the crate pic8259: behind them a line of the first
-- controller raises the vector so far above the first offset, and likewise for the second one.
pub record Remapping (P : ChainedPics) : Type 0 where
  pub new : ℕ → ℕ → P.Pics
  pub initialize : P.Pics → P.Pics
  pub vector : P.Pics → ℕ → ℕ
  pub first_law :
      (offset1 offset2 line : ℕ)
      → line < 8
      → vector (initialize (new offset1 offset2)) line ≡ offset1 + line
  pub second_law :
      (offset1 offset2 line : ℕ)
      → line < 8
      → vector (initialize (new offset1 offset2)) (8 + line) ≡ offset2 + line

-- The crates that `init` uses, and the address of the static stack for double faults.
pub record Board : Type 1 where
  pub segmentation : Segmentation
  pub descriptors : Descriptors segmentation.SegmentSelector
  pub chained : ChainedPics
  pub remapping : Remapping chained
  pub stack_start : ℕ

module _ (B : Board) where
  open B use {segmentation, descriptors, chained, remapping, stack_start}

  -- `PICS`
  unfoldable pub pics : chained.Pics
  pics = remapping.new pic_1_offset pic_2_offset

  -- The processor and the PICs.
  pub record Cpu : Type 0 where
    pub registers : Registers segmentation
    pub idtr : Option descriptors.InterruptDescriptorTable
    pub pics : chained.Pics
    pub interrupts : Bool

  unfoldable pub enable : Cpu → Cpu
  enable self = record self { interrupts = true }

  -- `init` up to the call of `enable`
  unfoldable pub load_tables : Cpu → Outcome Cpu
  load_tables self = do
    registers ← Gdt.init segmentation stack_start self.registers
    idtr ← init_idt descriptors registers.cs self.idtr
    ok (record self { registers = registers; idtr = idtr; pics = remapping.initialize self.pics })

  unfoldable pub init : Cpu → Outcome Cpu
  init self = do loaded ← load_tables self; ok (enable loaded)
