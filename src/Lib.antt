-- ===== src/Lib.antt =====
-- TaijiOS, a small x86_64 kernel in Rust: what its components compute, and the theorems about
-- them.
--
-- Common holds what the components share: Boolean tests on the native numbers, lists indexed by
-- them, `Outcome` (a result or a panic) with the checked `usize` arithmetic of a build with
-- overflow checks, and masks as arithmetic.
--
-- Alloc models src/allocator.rs: `align_up` and the Dummy allocator; Alloc/InitHeap is its
-- `init_heap`, over a mapper, a frame allocator and an allocator as parameters. Alloc/Bump is
-- src/allocator/bump.rs, Alloc/LinkedList is src/allocator/linked_list.rs. A pointer is an address
-- and null is 0. `Locked` takes its lock for the whole of a trait method, so a method is one
-- transition from an allocator to a pointer and the next allocator. A free list, in the source a
-- chain of nodes that each own the next, is a list of regions. Alloc/Block counts in how many
-- blocks a byte lies, and disjointness says: in at most one. Alloc/Client states `GlobalAlloc` as
-- an interface of operations and laws, and follows a client through any sequence of calls in which
-- it gives back only what it holds, with the layout it asked for; each allocator's Global module
-- fills the interface. `Layout` belongs to the language's library, and follows its documentation:
-- a size and an alignment that is a power of two, where the size rounded up to the alignment is at
-- most 2^63 - 1. A request has nonzero size, which the trait demands of its callers; for the
-- linked-list and the fixed-size allocator it is a layout that stays one at the alignment of a
-- node, 8: its size and its alignment, or 8 if that is more, sum to at most 2^63. The clients of
-- these two make such requests only. The Answer modules say what `alloc` does with the other valid
-- layouts.
--
-- Alloc/FixedSize is src/allocator/fixed_size_block.rs, over `linked_list_allocator::Heap` as a
-- parameter with its contract (Contract); Fallback shows that the linked-list allocator of this
-- repository meets it. The free lists are lists of block addresses, and each free block and each
-- block that the client holds is an allocation of the fallback heap.
--
-- Vga models src/vga_buffer.rs: colour codes, and the writer whose loops copy and clear cells of
-- the text buffer; an index out of range panics. `Volatile` is a parameter, a cell that reads as
-- what was last written. `_print` holds the writer's lock with interrupts off, so a call is one
-- transition; its argument is the list of pieces that formatting hands to `write_str`. Vga/Screen
-- is the abstract view: a screen of rows without end on which bytes are typed, of which the buffer
-- shows the lowest 25.
--
-- Memory models the frame allocators of src/memory.rs, and Memory/Paging its mapper. `Machine` is
-- what they use of the crates bootloader and x86_64: the regions of a memory map, and frames with
-- the address that each starts at. The iterator of `usable_frames` is its list of addresses, and
-- `nth` makes the frames that it skips. Memory/Pages counts and numbers the pages of the usable
-- regions apart from it.
--
-- Task models task ids and tasks of src/task/mod.rs and the executor of
-- src/task/simple_executor.rs. Futures are a parameter: a poll yields a state, the future behind
-- it and the rest of the machine. The loop of `run` is on fuel, one unit for each poll; enough is
-- one more than a future's measure, summed over the tasks, where each poll that leaves a future
-- pending lowers it. Task/DummyWaker is the waker that it hands out.
--
-- Sync states what the code uses of the crates' shared values, as interfaces of operations and
-- laws: `ArrayQueue`, `AtomicWaker` and `OnceCell`. Their operations are atomic. Sync/Plain fills
-- them.
--
-- Task/Keyboard is the scancode queue of src/task/keyboard.rs. `poll_next` is a sequence of steps,
-- each with one access to a shared value; Race lets the interrupt handler, `add_scancode`, run
-- between any two of them; a history beside the state records what was accepted and delivered, and
-- whether a waker was woken.
--
-- Task/Executor is src/task/executor.rs. The maps are functions from ids, and the queue that the
-- wakers share is the executor's. A poll is given the task's waker, and yields the wakers that
-- were woken meanwhile, by the future or by interrupt handlers. The loop of `run_ready_tasks` is
-- on fuel, one unit for each id that is popped; enough is the number of ids queued and of wake-ups
-- to come. Sleep is the loop of `run` with the steps of `sleep_if_idle`, as a relation in which
-- interrupts come wherever they are enabled, with `enable_and_hlt` as one step.
--
-- Task/Keyboard/Keypresses is `print_keypresses`: one poll of it goes on until the stream is
-- pending, on fuel for the polls of the stream. The decoder of the crate pc-keyboard is a
-- parameter.
--
-- Interrupts models the handlers of src/interrupts.rs, which print, call `add_scancode` and
-- acknowledge. What the wake-up of `add_scancode` does is a parameter of the keyboard's handler,
-- which acknowledges only behind it. Kernel/Handler fills in the executor's wakers, whose wake-up
-- can panic; in the step relations of Race and Kernel/Interleaving a key press is a step where its
-- wake-up does not panic.
--
-- Kernel starts from the end of `kernel_main` of src/main.rs: its two tasks as futures, and the
-- executor that runs them, over one record of the crates that the kernel uses. A poll of the
-- keyboard task has fuel for the scancodes that wait and one more poll of the stream. Boot goes
-- from the new executor to the idle system, Keypress from there through a key press back to it,
-- and Keys through any number of them.
--
-- Kernel/Interleaving puts the loop of `run`, the steps of the keyboard task and the interrupt
-- handlers into one step relation, with any runtime of other tasks, whose futures do not use the
-- keyboard's statics. A turn of such a task is one step, so an interrupt during it counts as one
-- before or after it. What the turn prints is a parameter of Display, any function of the task and
-- the machine, and is printed in one piece. Invariant and Steps say what every step keeps, Drained
-- what this means where the processor sleeps; Display adds the decoder and the screen, with a log
-- of what was printed and by whom, and Prints, Shown and Answered follow them. Flood and Overflow
-- drive the relation into a full ready queue.
--
-- Gdt is src/gdt.rs and Interrupts/Idt the descriptor table of src/interrupts.rs, over the tables
-- of the crate x86_64 as parameters with their laws: eight slots in a descriptor table, one or two
-- for a segment, seven stacks in a task state segment. `set_handler_fn` takes the code segment
-- from the register CS, so an entry names the segment that was current when the table was made. A
-- static of lazy_static is made once, and passed on as a value. Init is `init` of src/lib.rs, and
-- its Dispatch states what a processor does on a vector, from its registers: it looks the entry up
-- in the loaded table, the entry's code segment and the task state segment in the loaded
-- descriptor table, and raises a double fault where one of them is not there.
--
-- Serial is src/serial.rs and Testing the test framework of src/lib.rs, with the start of
-- tests/basic_boot.rs. A function returns or panics, each with the machine that it leaves. Test
-- functions are a parameter, and do not use the serial port. Testing/Verdict is the reference: the
-- report of a list of tests.
--
-- The searches recur on the list of free regions and the loops of the writer on their bound, so no
-- other fuel is needed.
--
-- Not modelled: the crates (x86_64, bootloader, spin, volatile, crossbeam-queue, conquer-once,
-- futures-util, pc-keyboard, uart_16550, pic8259, linked_list_allocator), which are not part of
-- the repository; the start of `kernel_main` before the executor, which calls `init`, `init_heap`
-- and prints, and shows the heap; and what only calls the crates: the panic handlers and the
-- handler of allocation errors, which print and halt or panic, and the test functions. The loop
-- `hlt_loop` does nothing but wait, so a run ends where it begins.
pub mod Common
pub mod Alloc
pub mod Memory
pub mod Vga
pub mod Sync
pub mod Task
pub mod Gdt
pub mod Interrupts
pub mod Init
pub mod Kernel
pub mod Serial
pub mod Testing
