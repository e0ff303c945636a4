-- ===== src/Gdt.antt =====
-- src/gdt.rs: the task state segment with the stack for double faults, and the descriptor table.
pub mod Load
use taijios.Common.{
  ℕ, ◌+◌, ◌*◌, ◌^◌, ◌≤◌, ◌<◌, ◌≡◌, Bool, true, Option, none, some, Outcome, ok, ◌>>=◌,
}

abbrev pub double_fault_ist_index : ℕ
double_fault_ist_index = 0

abbrev pub stack_size : ℕ
stack_size = 4096 * 5

-- What the code uses of the crate x86_64. `offset` is the sum of a `VirtAddr` and a number, which
-- panics where it is no valid address. A table has eight slots; `add_entry` panics where they do not
-- suffice. `is_code` and `task_state` are how the processor reads a descriptor.
pub record Segmentation : Type 1 where
  pub TaskStateSegment : Type 0
  pub GlobalDescriptorTable : Type 0
  pub Descriptor : Type 0
  pub SegmentSelector : Type 0
  pub new_tss : TaskStateSegment
  pub set_stack : TaskStateSegment → ℕ → ℕ → TaskStateSegment
  pub stack : TaskStateSegment → ℕ → Option ℕ
  pub offset : ℕ → ℕ → Outcome ℕ
  pub new_gdt : GlobalDescriptorTable
  pub kernel_code_segment : Descriptor
  pub tss_segment : TaskStateSegment → Descriptor
  pub add_entry :
      GlobalDescriptorTable → Descriptor → Outcome (SegmentSelector × GlobalDescriptorTable)
  pub used : GlobalDescriptorTable → ℕ
  pub slots : Descriptor → ℕ
  pub entry : GlobalDescriptorTable → SegmentSelector → Option Descriptor
  pub is_code : Descriptor → Bool
  pub task_state : Descriptor → Option TaskStateSegment
  pub stack_law :
      (tss : TaskStateSegment) (index addr : ℕ)
      → index < 7
      → stack (set_stack tss index addr) index ≡ some addr
  pub offset_law : (addr n : ℕ) → addr + n < 2 ^ 47 → offset addr n ≡ ok (addr + n)
  pub new_law : used new_gdt ≡ 1
  pub code_law : is_code kernel_code_segment ≡ true
  pub task_law : (tss : TaskStateSegment) → task_state (tss_segment tss) ≡ some tss
  pub code_slots : slots kernel_code_segment ≡ 1
  pub tss_slots : (tss : TaskStateSegment) → slots (tss_segment tss) ≡ 2
  pub add_law :
      (gdt : GlobalDescriptorTable) (d : Descriptor)
      → used gdt + slots d ≤ 8
      → (s : SegmentSelector) × (gdt' : GlobalDescriptorTable) × (add_entry gdt d ≡ ok (s, gdt'))
        × (entry gdt' s ≡ some d)
        × (used gdt' ≡ used gdt + slots d)
        × ((s' : SegmentSelector) (d' : Descriptor)
            → entry gdt s' ≡ some d'
            → entry gdt' s' ≡ some d')

module _ (S : Segmentation) where
  open S use {TaskStateSegment, GlobalDescriptorTable, SegmentSelector}

  -- `TSS`, on the address of its static `STACK`
  unfoldable pub tss : ℕ → Outcome TaskStateSegment
  tss stack_start = do
    stack_end ← S.offset stack_start stack_size
    ok (S.set_stack S.new_tss double_fault_ist_index stack_end)

  pub record Selectors : Type 0 where
    pub code_selector : SegmentSelector
    pub tss_selector : SegmentSelector

  -- `GDT`
  unfoldable pub gdt : TaskStateSegment → Outcome (GlobalDescriptorTable × Selectors)
  gdt state = do
    (code_selector, gdt1) ← S.add_entry S.new_gdt S.kernel_code_segment
    (tss_selector, gdt2) ← S.add_entry gdt1 (S.tss_segment state)
    ok (gdt2, record { code_selector = code_selector; tss_selector = tss_selector })

  -- The processor's registers for the table, the code segment and the task.
  pub record Registers : Type 0 where
    pub gdtr : Option GlobalDescriptorTable
    pub cs : SegmentSelector
    pub tr : Option SegmentSelector

  unfoldable pub init : ℕ → Registers → Outcome Registers
  init stack_start self = do
    state ← tss stack_start
    (table, selectors) ← gdt state
    ok (record {
      gdtr = some table;
      cs = selectors.code_selector;
      tr = some selectors.tss_selector;
    })
