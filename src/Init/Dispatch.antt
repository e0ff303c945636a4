-- ===== src/Init/Dispatch.antt =====
-- Which handler the processor runs, and on which stack, once `init` is done.
use taijios.Common.{
  ℕ, ◌+◌, ◌-◌, ◌^◌, ◌≤◌, ◌<◌, ◌≡◌, ◌≢◌, ◌∙◌, refl, ap, arith, Bool, true, if◌then◌else◌, Option,
  none, some, ok,
}
use mathlib.Core.Option.{bind}
use mathlib.Core.Path.{subst}
use native.Mathlib.Decide.{dec_lt}
use taijios.Gdt.{Registers, stack_size, double_fault_ist_index}
use taijios.Gdt.Load.{Loaded, init-Loaded}
use taijios.Interrupts.Idt.{
  Handler, breakpoint_handler, page_fault_handler, double_fault_handler, timer_interrupt_handler,
  keyboard_interrupt_handler, breakpoint, page_fault, double_fault, gate, Entries, init_idt-Entries,
}
use taijios.Init.{Board, Cpu, pics, enable, load_tables, init}

-- What the processor does on a vector: it runs a handler, on the current stack or on the given one,
-- or it resets.
pub data Delivery : Type 0 where
  runs : Handler → Option ℕ → Delivery
  resets : Delivery

module _ (B : Board) where
  open B use {segmentation, descriptors, chained, remapping, stack_start}
  open segmentation use {TaskStateSegment, GlobalDescriptorTable, SegmentSelector}
  open descriptors use {InterruptDescriptorTable, entry}

  -- The stack that an entry names: the current one, or one of the task state segment that the task
  -- register selects in the loaded table.
  unfoldable pub stack_of : Registers segmentation → Option ℕ → Option (Option ℕ)
  stack_of self none = some none
  stack_of self (some index) = bind self.gdtr λ gdt. bind self.tr λ selector.
      bind (segmentation.entry gdt selector) λ segment.
        bind (segmentation.task_state segment)
          λ state. bind (segmentation.stack state index) λ addr. some (some addr)

  unfoldable pub in_code : Bool → Delivery → Option Delivery
  in_code is_code delivery = if is_code then some delivery else none

  -- The handler of an entry of the loaded table, where the entry is there, its selector is that of a
  -- code segment in the loaded descriptor table, and the stack that it names is there.
  unfoldable pub enter : Cpu B → ℕ → Option Delivery
  enter self vector = bind self.idtr λ table. bind (entry table vector) λ g.
      bind self.registers.gdtr λ gdt. bind (segmentation.entry gdt g.selector) λ segment.
        bind (stack_of self.registers g.stack_index)
          λ stack. in_code (segmentation.is_code segment) (runs g.handler stack)

  -- A vector that cannot be entered, with no handlers for that, raises a double fault. Where that
  -- cannot be entered either, the processor resets.
  unfoldable pub deliver : Cpu B → ℕ → Delivery
  deliver self vector = elim (enter self vector) [
    | some delivery ↦ delivery
    | none ↦ elim (enter self double_fault) [ some delivery ↦ delivery | none ↦ resets ]
  ]

  -- The top of the static stack.
  abbrev pub top : ℕ
  top = stack_start + stack_size

  -- What the processor has behind `init`: the tables, whose entries select the kernel's code segment,
  -- and the PICs' vectors.
  pub record Ready (self : Cpu B) : Type 0 where
    pub table : InterruptDescriptorTable
    pub segments : Loaded segmentation top self.registers
    pub idtr : self.idtr ≡ some table
    pub entries : Entries descriptors segments.code_selector table
    pub remapped : self.pics ≡ remapping.initialize (pics B)

  enabled-Ready : (self : Cpu B) → Ready self → Ready (record self { interrupts = true })
  enabled-Ready self h = record {
    table = h.table;
    segments = h.segments;
    idtr = h.idtr;
    entries = h.entries;
    remapped = h.remapped;
  }

  enter-present :
      (self : Cpu B) (h : Ready self) (vector : ℕ) (handler : Handler) (index stack : Option ℕ)
      → entry h.table vector ≡ some (gate handler h.segments.code_selector index)
      → stack_of self.registers index ≡ some stack
      → enter self vector ≡ some (runs handler stack)
  unfolding enter bind in_code
  enter-present self h vector handler index stack e f =
      rw (h.idtr, e, f, h.segments.gdtr, h.segments.code, segmentation.code_law) refl

  deliver-present :
      (self : Cpu B) (h : Ready self) (vector : ℕ) (handler : Handler) (index stack : Option ℕ)
      → entry h.table vector ≡ some (gate handler h.segments.code_selector index)
      → stack_of self.registers index ≡ some stack
      → deliver self vector ≡ runs handler stack
  unfolding deliver
  deliver-present self h vector handler index stack e f =
      rw (deliver, enter-present self h vector handler index stack e f) refl

  -- The stack of double faults.
  stack_of-double_fault :
      (self : Cpu B) (h : Ready self)
      → stack_of self.registers (some double_fault_ist_index) ≡ some (some top)
  unfolding stack_of bind
  stack_of-double_fault self h =
      rw
        (
          h.segments.gdtr,
          h.segments.tr,
          h.segments.task,
          segmentation.task_law h.segments.state,
          h.segments.stack,
        )
        refl

  deliver-absent :
      (self : Cpu B) (h : Ready self) (vector : ℕ)
      → entry h.table vector ≡ none
      → deliver self vector ≡ runs double_fault_handler (some top)
  unfolding deliver enter bind
  deliver-absent self h vector e =
      let away : enter self vector ≡ none = rw (enter, h.idtr, bind, e) refl in
      rw
        (
          deliver,
          away,
          enter-present self h double_fault double_fault_handler _ _ h.entries.at_double_fault
              (stack_of-double_fault self h),
        )
        refl

  -- The tables are loaded and the PICs have their vectors before interrupts are enabled.
  pub init-Ready :
      (self : Cpu B)
      → self.pics ≡ pics B
      → top < 2 ^ 47
      → (loaded : Cpu B) × (load_tables B self ≡ ok loaded)
        × (loaded.interrupts ≡ self.interrupts)
        × (init B self ≡ ok (record loaded { interrupts = true }))
        × Ready loaded
  unfolding init load_tables enable
  init-Ready self fresh low =
      let (registers, made, segments) = init-Loaded segmentation stack_start self.registers low in
      let (table, set_, entries) = init_idt-Entries descriptors registers.cs self.idtr in
      let both : load_tables B self
          ≡ ok (record self {
            registers = registers;
            idtr = some table;
            pics = remapping.initialize self.pics;
          }) =
        rw (made, set_) refl in
      (
        _,
        both,
        refl,
        rw both refl,
        record {
          table = table;
          segments = segments;
          idtr = refl;
          entries = subst (λ cs. Entries descriptors cs table) segments.cs entries;
          remapped = ap remapping.initialize fresh;
        },
      )

  -- Behind `init` a breakpoint, a page fault, the timer's line and the keyboard's run their own
  -- handlers on the current stack, and a double fault runs its handler from the top of its stack.
  deliver-known :
      (self : Cpu B) (h : Ready self)
      → (deliver self breakpoint ≡ runs breakpoint_handler none)
        × (deliver self page_fault ≡ runs page_fault_handler none)
        × (deliver self double_fault ≡ runs double_fault_handler (some top))
        × (deliver self (remapping.vector self.pics 0) ≡ runs timer_interrupt_handler none)
        × (deliver self (remapping.vector self.pics 1) ≡ runs keyboard_interrupt_handler none)
  unfolding stack_of pics
  deliver-known self h =
      let at = deliver-present self h in
      let line : (n : ℕ) → n < 8 → remapping.vector self.pics n ≡ 32 + n =
        λ n small. ap (λ p. remapping.vector p n) h.remapped ∙ remapping.first_law 32 40 n small in
      (
        at breakpoint _ none _ h.entries.at_breakpoint refl,
        at page_fault _ none _ h.entries.at_page_fault refl,
        at double_fault _ (some double_fault_ist_index) _ h.entries.at_double_fault
            (stack_of-double_fault self h),
        ap (deliver self) (line 0 (omega arith)) ∙ at 32 _ none _ h.entries.at_timer refl,
        ap (deliver self) (line 1 (omega arith)) ∙ at 33 _ none _ h.entries.at_keyboard refl,
      )

  -- Any other vector raises a double fault, whose handler then runs from the top of its stack.
  deliver-unknown :
      (self : Cpu B) (h : Ready self) (vector : ℕ)
      → vector ≢ breakpoint
      → vector ≢ page_fault
      → vector ≢ double_fault
      → vector ≢ 32
      → vector ≢ 33
      → deliver self vector ≡ runs double_fault_handler (some top)
  deliver-unknown self h vector a b c d e =
      deliver-absent self h vector (h.entries.at_others vector a b c d e)

  -- From any processor with fresh PICs, where the static stack lies in the lower half of the
  -- addresses, `init` does not panic, and enables interrupts only once everything else is done. Then
  -- a breakpoint, a page fault, the timer's line and the keyboard's run their own handlers on the
  -- current stack, in a code segment of the loaded table, and a double fault runs its handler from
  -- the top of the static stack.
  pub init-dispatches :
      (self : Cpu B)
      → self.pics ≡ pics B
      → top < 2 ^ 47
      → (loaded : Cpu B) × (load_tables B self ≡ ok loaded)
        × (loaded.interrupts ≡ self.interrupts)
        × (after : Cpu B) × (init B self ≡ ok after)
        × (after ≡ record loaded { interrupts = true })
        × (deliver after breakpoint ≡ runs breakpoint_handler none)
        × (deliver after page_fault ≡ runs page_fault_handler none)
        × (deliver after double_fault ≡ runs double_fault_handler (some top))
        × (deliver after (remapping.vector after.pics 0) ≡ runs timer_interrupt_handler none)
        × (deliver after (remapping.vector after.pics 1) ≡ runs keyboard_interrupt_handler none)
  init-dispatches self fresh low =
      let (loaded, made, same, done, ready) = init-Ready self fresh low in
      let after : Cpu B = record loaded { interrupts = true } in
      let (a, b, c, d, e) = deliver-known after (enabled-Ready loaded ready) in
      (loaded, made, same, after, done, refl, a, b, c, d, e)

  line_vector :
      (self : Cpu B) (line : ℕ)
      → Ready self
      → 2 ≤ line
      → line < 16
      → (33 < remapping.vector self.pics line) × (remapping.vector self.pics line < 48)
  unfolding pics
  line_vector self line h low high =
      let at = ap (λ p. remapping.vector p line) h.remapped in
      elim (dec_lt line 8) [
        | yes first ↦
            let e = remapping.first_law 32 40 line first in
            (omega (arith, at, e, low, first), omega (arith, at, e, low, first))
        | no second ↦
            let split : 8 + (line - 8) ≡ line = omega (arith, second) in
            let e = remapping.second_law 32 40 (line - 8) (omega (arith, second, high)) in
            let f =
              ap (λ n. remapping.vector (remapping.initialize (remapping.new 32 40)) n) split in
            (omega (arith, at, e, f), omega (arith, at, e, f, high))
      ]

  -- From any processor with fresh PICs, where the static stack lies in the lower half of the
  -- addresses, every line of the PICs but those of the timer and the keyboard raises a double fault
  -- behind `init`: its handler runs from the top of the static stack.
  pub init-other_lines :
      (self : Cpu B) (line : ℕ)
      → self.pics ≡ pics B
      → top < 2 ^ 47
      → 2 ≤ line
      → line < 16
      → (after : Cpu B) × (init B self ≡ ok after)
        × (deliver after (remapping.vector after.pics line) ≡ runs double_fault_handler (some top))
  init-other_lines self line fresh low two sixteen =
      let (loaded, _, _, done, ready) = init-Ready self fresh low in
      let after : Cpu B = record loaded { interrupts = true } in
      let (above, below) = line_vector loaded line ready two sixteen in
      (
        after,
        done,
        deliver-unknown after (enabled-Ready loaded ready) (remapping.vector after.pics line)
            (omega arith) (omega arith) (omega arith) (omega arith) (omega arith),
      )
