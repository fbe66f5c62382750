-- ===== src/Lib.antt =====
-- MiniOS, a small kernel for 32-bit x86: a heap, a keyboard driver, a text-mode terminal, a file system
-- in memory, an editor and a shell. This library models those parts and what they promise each other.
--
-- The parts and their files. Each root file gives the state and the operations of one source file;
-- the files below it are named for what they prove, and Tests holds runs and instances.
--
--   Heap      kernel/memory.c, the allocator: heap_storage is a map from offsets to block headers, the
--             operations are memory_init, kmalloc, kfree and memory_print_stats. Blocks and Layout say
--             what a list of blocks that fills the arena is, Malloc, Free, Laws and Coalesce treat the
--             loops, and Service states the contract.
--   Text      kernel/memory.c, the string functions on buffers with a terminator, itoa, utoa, atoi and
--             the random numbers. The other parts use C strings as lists of bytes without terminator;
--             Text.Strings relates the two views.
--   Keyboard  kernel/keyboard.c: keyboard_irq_handler with its modifiers and tables, the ring buffer,
--             keyboard_getchar and keyboard_readline. Ring sees the buffer as a queue.
--   Screen    kernel/screen.c: VGA memory, cursor, scrolling, the history of lines and the view of it,
--             terminal_putchar and the writers. Printf formats terminal_printf's text. Output has the
--             calls that the other parts make of the terminal as a data type, and what performing them does:
--             Log for a text, Calls for a list of calls, Formats and Lines for the formats in use.
--   Fs        kernel/filesystem.c: the table of 32 entries. Lookup and Invariant see it as a map from
--             names to files; Files treats every operation against that map, Listing the listings,
--             Tree the directory tree that fs_print_tree prints (Ends, Sort).
--   Editor    kernel/editor.c: the key handlers, the input loop, loading and saving over Fs (Session),
--             and what it draws, as calls of the terminal (Drawing).
--   Shell     kernel/shell.c: resolve_path, arguments and the file commands (Paths, Copying), the
--             history (History), the to-do list (Todo), the text tools (Lines), the line editor
--             shell_readline (Readline), the calculator, the passwords and the clock (Tools), the
--             commands that read the keyboard: write, notes and fm (Typing), the table of commands
--             with what each does (Dispatch), the prompt, the commands that only print and the file
--             commands' texts as calls of the terminal (Messages; Files.Told says what they tell of the table),
--             and the loop of shell_run (Run):
--             Turns for one turn, Sessions for the whole loop, Commands for a typed command line, Written
--             for files that are written and shown.
--   Devices   kernel/timer.c and kernel/mouse.c: the ticks, the divisor, the packets of the mouse, the
--             waits for its controller, and the port writes that set the two devices up.
--   Pic       kernel/pic.c: the port writes of the interrupt controllers. The chips are a record of
--             operations and laws in Masks, which the theorems take as a parameter.
--   Idt, Gdt  kernel/idt.c and kernel/gdt.c: the tables, the handlers and the dispatchers.
--   Boot      kernel/kernel.c: the order in which kernel_main starts the parts (Interrupts), what it
--             prints (Banner), the shell on what kernel_main leaves (Prompt), and the
--             running machine as steps: an interrupt, a key read, a character printed (Machine).
--   Prelude   what all of them share.
--
-- How they interact: the interrupt handler of the keyboard fills the ring that keyboard_getchar empties
-- and scrolls the terminal's view; the shell and the editor read keys and change the table of files
-- through fs_create, fs_create_dir, fs_write and fs_delete only. The models pass that state along
-- explicitly; keys that will arrive are a list, and a call that would wait for more is `none`.
--
-- Fuel. kmalloc and kfree walk the block list with heap_size steps: blocks of 12 bytes at least fill
-- the arena, so a list has fewer blocks. The loop of a tab in terminal_putchar takes its fuel as an
-- argument, because it does not end from every state. The digit loop of utoa and itoa has 33 steps,
-- which a 32-bit word cannot use up in base 10 or 16. fs_print_tree has 64 levels: the path of a child is
-- longer than its directory's, and a path has at most 63 bytes.
--
-- Numbers. size_t, unsigned int and the words of int are natural numbers with the wrap at 2 ^ 32 written
-- out; a character is a byte.
--
-- The file manager has fuel for its rounds; each takes a key. shell_run has a number of turns; each takes
-- a key, so that more turns than keys are enough.
--
-- Tabs and overruns. terminal_putchar does not return from a tab in the last columns (Screen.Tab), and the
-- models of the readers and commands do not carry the cursor of the screen. So they follow no run past a
-- tab: keyboard_readline that echoes one gives `none`, and a command that may print one, because the file
-- that it shows or the table that it lists has one, has the outcome `tabs`. A command that writes behind a
-- buffer, whether for a path (path_overruns, mov_overruns), a task, an operand or the title of a note, has
-- the outcome `overruns`, and nothing is said of what follows. shell_readline and the editor echo no tab.
--
-- Not modelled: boot code and assembly, and what the processor does with the tables; the texts that the
-- shell's other commands print, whose place take constructors of result types. User bytes of heap blocks are not
-- part of the heap's state.
pub mod Boot
pub mod Devices
pub mod Editor
pub mod Fs
pub mod Gdt
pub mod Heap
pub mod Idt
pub mod Keyboard
pub mod Pic
pub mod Prelude
pub mod Screen
pub mod Shell
pub mod Text
