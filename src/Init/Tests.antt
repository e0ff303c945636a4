-- ===== src/Init/Tests.antt =====
-- Plain data for the tables, and a processor on which `init` runs.
use taijios.Common.{
  ℕ, zero, suc, ◌+◌, ◌-◌, ◌≡◌, ◌≢◌, ◌∙◌, refl, ap, arith, true, false, Option, none, some, List, [],
  ◌∷◌, ◌++◌, length, get_elem?, Outcome, ok, panic, leb, ltb, ◌==◌, if◌then◌else◌, le→leb, lt→ltb,
}
use taijios.Gdt.{Segmentation}
use taijios.Interrupts.{ChainedPics}
use taijios.Interrupts.Idt.{
  breakpoint_handler, page_fault_handler, double_fault_handler, timer_interrupt_handler,
  keyboard_interrupt_handler, breakpoint, page_fault, double_fault, Gate, gate, Descriptors,
}
use taijios.Init.{Remapping, Board, Cpu, pics, load_tables, init}
use taijios.Init.Dispatch.{deliver, runs, top, init-dispatches, init-other_lines}

-- The stacks of a task state segment.
abbrev Stacks : Type 0
Stacks = ℕ → Option ℕ

pub data Segment : Type 0 where
  code : Segment
  task : Stacks → Segment

abbrev slots_of : Segment → ℕ
slots_of code = 1
slots_of (task stacks) = 2

abbrev used_by : List Segment → ℕ
used_by [] = 1
used_by (d ∷ rest) = slots_of d + used_by rest

pub used_by-append :
    (l : List Segment) (d : Segment) → used_by (l ++ (d ∷ [])) ≡ used_by l + slots_of d
used_by-append [] d = omega arith
used_by-append (e ∷ l) d = omega (arith, used_by-append l d)

pub append-last : (l : List Segment) (d : Segment) → get_elem? (l ++ (d ∷ [])) (length l) ≡ some d
append-last [] d = refl
append-last (e ∷ l) d = append-last l d

pub append-kept :
    (l : List Segment) (d : Segment) (i : ℕ) (found : Segment)
    → get_elem? l i ≡ some found
    → get_elem? (l ++ (d ∷ [])) i ≡ some found
append-kept [] d i found e = absurd cc
append-kept (e ∷ l) d zero found f = f
append-kept (e ∷ l) d (suc i) found f = append-kept l d i found f

pub here : {A : Type 0} (v : ℕ) (a b : A) → (if v == v then a else b) ≡ a
here v a b = ground arith

pub away : {A : Type 0} (v w : ℕ) (a b : A) → v ≢ w → (if v == w then a else b) ≡ b
away v w a b ne = ground arith

pub second_line :
    (a b line : ℕ) → (if ltb (8 + line) 8 then a + (8 + line) else b + (8 + line - 8)) ≡ b + line
second_line a b line = ground arith

abbrev add : List Segment → Segment → Outcome (ℕ × List Segment)
add l d = if leb (used_by l + slots_of d) 8 then ok (length l, l ++ (d ∷ [])) else panic

abbrev plain_segments : Segmentation
plain_segments = record {
  TaskStateSegment = Stacks;
  GlobalDescriptorTable = List Segment;
  Descriptor = Segment;
  SegmentSelector = ℕ;
  new_tss = λ i. none;
  set_stack = λ stacks i addr j. if j == i then some addr else stacks j;
  stack = λ stacks i. stacks i;
  offset = λ addr n. ok (addr + n);
  new_gdt = [];
  kernel_code_segment = code;
  tss_segment = task;
  add_entry = add;
  used = used_by;
  slots = slots_of;
  entry = get_elem?;
  is_code = λ d. elim d [ code ↦ true | task stacks ↦ false ];
  task_state = λ d. elim d [ code ↦ none | task stacks ↦ some stacks ];
  code_law = refl;
  task_law = λ stacks. refl;
  stack_law = λ stacks i addr h. here i (some addr) (stacks i);
  offset_law = λ addr n h. refl;
  new_law = refl;
  code_slots = refl;
  tss_slots = λ stacks. refl;
  add_law = λ l d h. (
    length l,
    l ++ (d ∷ []),
    rw (le→leb _ _ h) refl,
    append-last l d,
    used_by-append l d,
    append-kept l d,
  );
}

abbrev Table : Type 0
Table = ℕ → Option (Gate ℕ)

abbrev on_stack : Option (Gate ℕ) → ℕ → Option (Gate ℕ)
on_stack none index = none
on_stack (some before) index = some (gate before.handler before.selector (some index))

abbrev plain_descriptors : Descriptors ℕ
plain_descriptors = record {
  InterruptDescriptorTable = Table;
  new = λ v. none;
  set_handler_fn = λ cs t v h i. if i == v then some (gate h cs none) else t i;
  set_stack_index = λ t v index i. if i == v then on_stack (t i) index else t i;
  index = λ v. ok v;
  entry = λ t v. t v;
  new_law = λ v. refl;
  set_law = λ cs t v h. here v (some (gate h cs none)) (t v);
  set_other = λ cs t v other h ne. away other v (some (gate h cs none)) (t other) ne;
  stack_law =
      λ t v index before e. here v (on_stack (t v) index) (t v) ∙ ap (λ x. on_stack x index) e;
  stack_other = λ t v other index ne. away other v (on_stack (t other) index) (t other) ne;
  index_law = λ v low high. refl;
}

-- The PICs as their offsets.
abbrev offset_pics : ChainedPics
offset_pics = record { Pics = ℕ × ℕ; notify_end_of_interrupt = λ p vector. p }

abbrev offsets : Remapping offset_pics
offsets = record {
  new = λ a b. (a, b);
  initialize = λ p. p;
  vector = λ p line. if ltb line 8 then p.0 + line else p.1 + (line - 8);
  first_law = λ a b line h. rw (lt→ltb _ _ h) refl;
  second_law = λ a b line h. second_line a b line;
}

abbrev pub board : Board
board = record {
  segmentation = plain_segments;
  descriptors = plain_descriptors;
  chained = offset_pics;
  remapping = offsets;
  stack_start = 0x20000;
}

-- The processor as the bootloader leaves it, with a code segment of its own.
abbrev pub booted : Cpu board
booted = record {
  registers = record { gdtr = none; cs = 7; tr = none };
  idtr = none;
  pics = (32, 40);
  interrupts = false;
}

pub booted-fresh : booted.pics ≡ pics board
unfolding pics
booted-fresh = refl

init-dispatches_example :
    (loaded : Cpu board) × (load_tables board booted ≡ ok loaded)
    × (loaded.interrupts ≡ false)
    × (after : Cpu board) × (init board booted ≡ ok after)
    × (after ≡ record loaded { interrupts = true })
    × (deliver board after breakpoint ≡ runs breakpoint_handler none)
    × (deliver board after page_fault ≡ runs page_fault_handler none)
    × (deliver board after double_fault ≡ runs double_fault_handler (some (top board)))
    × (deliver board after (offsets.vector after.pics 0) ≡ runs timer_interrupt_handler none)
    × (deliver board after (offsets.vector after.pics 1) ≡ runs keyboard_interrupt_handler none)
init-dispatches_example = init-dispatches board booted booted-fresh (omega arith)

-- The line of a serial port.
init-other_lines_example :
    (after : Cpu board) × (init board booted ≡ ok after)
    × (deliver board after (offsets.vector after.pics 4)
        ≡ runs double_fault_handler (some (top board)))
init-other_lines_example =
    init-other_lines board booted 4 booted-fresh (omega arith) (omega arith) (omega arith)
