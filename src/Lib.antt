-- ===== src/Lib.antt =====
-- PrajnaOS, a hobby kernel for 32-bit x86 in C: paging of physical memory, a task scheduler that scores
-- tasks with a small neural network, Prajna (a supervisor that watches memory and tasks and may block a
-- task), a keyboard line editor, a shell, and a FAT32 file system on an ATA disk.
--
-- How the parts interact. The timer interrupt (kernel/pit.c) calls the scheduler's tick, drains the
-- scancode ring that the keyboard interrupt fills, and performs a pending switch. The tick runs
-- Prajna's cycle (kernel/ai_kernel.c), scores the tasks with the network (kernel/ml), and asks for a
-- switch; the switch itself swaps stacks in kernel/switch.asm. New tasks get their stack from the page
-- allocator (kernel/pmm.c), whose count of free pages Prajna reads too.
--
-- Files and code.
--   Pmm (kernel/pmm.c): the bitmap is the list of its bytes. `set_used`, `set_free`, `is_free`, `init`,
--     `alloc`, `free` and `free_pages` are the functions pmm_*; `scan_*`, `count_*`, `use_from` and
--     `clear_from` are their loops. Pmm.Owners states what clients may rely on: the set of held pages.
--   Task and Scheduler (kernel/scheduler.c): `Scheduler` is the task table with the static variables.
--     `scheduler_tick` is the whole tick, `choose_next` its part behind the two calls, `pick_from` and
--     `first_ready` its loops; `scheduler_do_pending_switch` is the bookkeeping of a switch and names the
--     two tasks of the call of context_switch. Scheduler.Context (kernel/switch.asm) has memory as words
--     and the registers that survive; Scheduler.Create has `task_create` and `scheduler_start`.
--   Ai (kernel/ai_kernel.c): `Prajna` is the static variables. Ai.Sense, Ai.Think and Ai.Act are ai_sense,
--     ai_think and ai_act, `ai_kernel_tick` their composition, with the task table passed through;
--     Ai.Memory and Ai.Log are the two ring buffers and their readers. What is printed is a list of
--     notices; Ai.Screen has their places on the screen.
--   Ml (kernel/ml/ml_math.c, kernel/ml/ml_infer.c, kernel/ml/ml_weights.c): vectors are lists, matrices are
--     lists row by row. Ml.Load reads the weights from their file, Ml.Format prints floats.
--     Float32 is the machine's `float`, a parameter of everything that computes with it.
--   Keyboard (kernel/isr.c): the ring of scancodes and the line editor `process_scancode`, which gives the
--     list of its calls of put_char and shell_handle.
--   Console (kernel/isr.c): the screen's cells and the cursor; the nested copying loops of scroll and the
--     clearing loops run over the cells in their order.
--   Fat (kernel/fat32.c): `Volume` is the globals. Fat holds the allocation table, Fat.Names the names in
--     entries, Fat.Dir the directory, Fat.File the contents, Fat.Listing the listing,
--     Fat.Mount the boot sector. Block is the interface to the sectors of
--     kernel/ata.c, which every function of the file system takes.
--   Ata (kernel/ata.c): the driver over the ports, which are a parameter. Ata.Drive says in the words of the
--     register protocol what a drive behind them does; Ata.Requests sets sequences of sector reads and
--     writes against the plain array of sectors of Ata.Sector, an instance of Block's interface.
--   Shell (kernel/shell.c): the words of the commands and the parsing of file names; Shell.Files,
--     Shell.Reports and Shell.Iris are the commands, Shell.Handle is shell_handle. What a command prints
--     is a list, with the clearing of the screen, halt and the reset as elements.
--   Timer (kernel/pit.c): Timer.Bar is the status bar, Timer.Handler is pit_handler on the state of all
--     components, with the shell and the file system below the line editor. After a switch the rest of
--     the handler runs when its task is resumed (`after_switch`).
--   Heap (kernel/heap.c): the linked list of blocks is a list in its order, with the page allocator below.
--     `first_fit` and `take_block` are the loop of kmalloc and the split, `release` and `merge_next` kfree.
--   Segments (kernel/gdt.c, kernel/idt.c): descriptors and the two tables; Segments.Decode reads them back.
--   Klib (kernel/klib.c): decimal printing, strings, memory, and `wait`.
--   Boot (kernel/kernel.c): `kernel_main` and the greeting on the state of all components. Boot.Greeting is
--     the kernel while the greeting is shown, Boot.Start what is handed over to the shell's task, Boot.Life
--     the kernels that interrupts lead to from there. Boot.Interrupt is key presses and a timer interrupt while
--     the greeting is shown.
--   Base holds arrays, tests, words, bits and C strings; Examples holds concrete states.
--
-- Numbers are natural numbers. The casts and wrap-arounds of uint8_t and uint32_t are written out where
-- the code can reach them. A read behind the end of an array gives a default and a write there does
-- nothing; C leaves both undefined.
--
-- Loops and fuel. Counted loops recurse on their rounds. `put_digits` and `swap_ends` take the number
-- and its count of digits as fuel, which they cannot use up, since every round divides by ten or brings
-- the ends together. The cluster loop of fat32_read_file stops itself after 129 rounds, which is its
-- recursion. The cluster loops of fat32_find_file, fat32_find_dir and fat32_file_delete may run forever
-- on a chain with a cycle: they take fuel, and none is the result where it does not suffice.
-- kmalloc calls itself after taking a page; its fuel counts the calls, and two are enough for a request
-- that fits a page.
--
-- The waits of kernel/ata.c stop after 100000 reads of the status, which is their recursion. The drain of
-- the scancode ring takes 16 rounds, one more than can wait. The shell passes its fuel on to the walks
-- along chains of clusters.
--
-- `wait` takes fuel for its readings of the clock, and what the interrupts between two readings do; the
-- greeting of kernel_main needs 501.
--
-- Not modelled: the start-up assembly and the floating-point set-up; the interrupt flag, so that an
-- interrupt while kernel_main runs comes only in the wait of the greeting; the probe of the drive in
-- `ata_init`, whose result kernel_main does not use; the end of interrupt; the wait for the keyboard
-- controller in `reboot`. Disk reads change nothing in the file system's view of the disk, and a failed
-- write leaves the disk as it was. What local variables hold before they are set is a parameter where the
-- code reads it.
pub mod Base
pub mod Pmm
pub mod Keyboard
pub mod Console
pub mod Segments
pub mod Heap
pub mod Klib
pub mod Float32
pub mod Ml
pub mod Task
pub mod Ai
pub mod Ata
pub mod Block
pub mod Fat
pub mod Scheduler
pub mod Shell
pub mod Timer
pub mod Boot
pub mod Examples
