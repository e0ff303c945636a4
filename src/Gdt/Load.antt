-- ===== src/Gdt/Load.antt =====
-- What the processor finds once the descriptor table is loaded.
use taijios.Common.{ℕ, ◌+◌, ◌^◌, ◌<◌, ◌≡◌, refl, arith, some, ok}
use taijios.Gdt.{Segmentation, tss, gdt, Registers, init, stack_size, double_fault_ist_index}

module _ (S : Segmentation) where
  open S use {TaskStateSegment, GlobalDescriptorTable, SegmentSelector}

  -- The registers stand on one table, with the kernel's code segment and a task state segment whose
  -- double fault stack starts at `top`.
  pub record Loaded (top : ℕ) (r : Registers S) : Type 0 where
    pub table : GlobalDescriptorTable
    pub code_selector : SegmentSelector
    pub tss_selector : SegmentSelector
    pub state : TaskStateSegment
    pub gdtr : r.gdtr ≡ some table
    pub cs : r.cs ≡ code_selector
    pub tr : r.tr ≡ some tss_selector
    pub code : S.entry table code_selector ≡ some S.kernel_code_segment
    pub task : S.entry table tss_selector ≡ some (S.tss_segment state)
    pub stack : S.stack state double_fault_ist_index ≡ some top

  -- Where the static stack lies in the lower half of the addresses: `init` does not panic, the code
  -- segment register selects the kernel's code segment, and the task register a task state segment
  -- whose double fault stack is the top address of the static one.
  pub init-Loaded :
      (stack_start : ℕ) (self : Registers S)
      → stack_start + stack_size < 2 ^ 47
      → (after : Registers S) × (init S stack_start self ≡ ok after)
        × Loaded (stack_start + stack_size) after
  unfolding init tss gdt
  init-Loaded stack_start self low =
      let top = S.offset_law stack_start stack_size low in
      let state = S.set_stack S.new_tss double_fault_ist_index (stack_start + stack_size) in
      let (code, gdt1, e1, at1, used1, _) =
        S.add_law S.new_gdt S.kernel_code_segment (omega (arith, S.new_law, S.code_slots)) in
      let (task, gdt2, e2, at2, _, kept) =
        S.add_law gdt1 (S.tss_segment state)
          (omega (arith, S.new_law, S.code_slots, used1, S.tss_slots state)) in
      (
        record { gdtr = some gdt2; cs = code; tr = some task },
        rw (top, e1, e2) refl,
        record {
          table = gdt2;
          code_selector = code;
          tss_selector = task;
          state = state;
          gdtr = refl;
          cs = refl;
          tr = refl;
          code = kept code S.kernel_code_segment at1;
          task = at2;
          stack =
              S.stack_law S.new_tss double_fault_ist_index (stack_start + stack_size) (omega arith);
        },
      )
