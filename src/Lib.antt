-- ===== src/Lib.antt =====
-- A model of the operating system of student-distrib, and what holds of it.
--
-- The kernel runs up to six processes on three text terminals of which one is shown. The keyboard's
-- interrupt types into one line buffer, `putc` draws on the terminal's page, and `terminal_read`
-- gives a finished line to the program that waits for it. Programs are loaded from a read-only file
-- system, reach files, directories, the clock and the terminal through eight file descriptors, and
-- are switched round robin by the timer's interrupt.
--
-- Numbers are natural numbers; an `int`, a pointer or a register is the pattern of its 32 bits, and
-- `add32`, `sub32` and `slt` of Common/Words are the machine's sum, difference and signed order. An
-- array is a list. A step that the code may spoil by an access outside an array, or through a null
-- pointer, has type `Option` and is `none` there. A call that waits in a loop for an interrupt is
-- one look at its condition (`Poll` of Rtc). The jumps of the inline assembly in execute.c, from
-- which the code does not return, are outcomes (`Outcome` of Process).
--
-- The files and the code:
-- - Common: names and lemmas that all files use; Common/Lists, Common/Tests, Common/Words,
--   Common/Bits, Common/Text and Common/Elements.
-- - Strings and Memory (student-distrib/lib.c): the C strings, `itoa`, and `memset`, `memcpy` and
--   `memmove` instruction by instruction. Printf (lib.c): `printf` and `puts`, as the characters
--   that are put out.
-- - Console (lib.c, types.h): the screen, the terminals and `clear`; Console/Putc: `putc`, with one
--   function for each branch. The memory of the video pages is a function of the address.
-- - Filesystem (filesystem.c): directory entries and file data; the image is data of the model.
-- - Pcb (types.h), Files (filesystem.c, syscall.c): process blocks, descriptors, `open` and `close`.
-- - Pic (i8259.c), Rtc (rtc.c), Paging (page.c), Timer (pit.c, cursor.c), Idt (idt.c): the devices.
--   A port keeps the sequence of the writes to it, and the two masks of the interrupt controller.
-- - KeyBuffer and Keyboard (keyboard.c), Terminal (terminal.c): lines and their terminals.
-- - Kernel: the globals of all files in one record, and `memory_switch` (execute.c).
-- - Process and Process/Switching (execute.c): commands, slots, `execute`, `halt`, `scheduler`.
-- - Syscall (syscall.c): the system calls on the descriptors of the running process.
-- - Boot (kernel.c, multiboot.h, x86_desc.h): `entry`. Segments has the descriptors, Multiboot the
--   information of the boot loader as it lies in memory, Report what is printed of it, Entering the
--   start of all parts up to the first shell. `Linked` has what only the linked kernel fixes:
--   addresses, what the memset of `terminal_init` over `display_buf` clears behind `terminal_list`
--   (`behind`), and what the memory of its local arrays, in which the lines of the terminals lie,
--   holds after its return (`stack`). Filesystem/Layout is the image in memory. Running is the step
--   relation of the started kernel: keys that type no backspace while the line has room, the whole
--   interrupt of the timer with its scheduler, the clock, lines that are read, text that is written,
--   and any other use of the memory in which the lines lie.
-- - Programs (syscalls, fish): the programs that the kernel runs. `Calls` is the record of the system
--   calls that they make, so that a program is a function of any system that has them; OnKernel fills
--   it with the calls of Syscall, and OnTerminal and Streams say what a program may rely on. Support is
--   ece391support.c; Cat, Ls, Shell, Hello (with testprint), Counter, Pingpong, Grep, Fish and Syserr are
--   the program of that name each.
-- - Examples: concrete machines that the theorems are applied to.
--
-- Loops recurse on their list or on the number of rounds they are given: `swap_loop` of `strrev`
-- has the length of the string as fuel and needs half of it, `read_blocks` of `read_data` the number
-- of blocks of the count plus one, the walk over the memory map in Boot/Report the length of the map,
-- of which each round takes four bytes at least; `put_digits` of `itoa` recurses on the buffer it fills.
--
-- The endless loops of the programs take the number of their rounds, and a program that would go on
-- behind them has no result: `cat` needs a round for each 1024 bytes of its file and one more, `ls` one
-- for each entry and one more, the lines of one read in `grep` one round for each of its bytes and one
-- more; the theorems on the pingpong and the counter hold for any number of rounds that they can count.
--
-- Not modelled: the assembly files, which load the tables and save registers; tests.c and debug.h;
-- the program image in memory after `execute` has read it; interrupts inside a system call; the
-- program sigtest; the trap of the program syserr with a number that is no call's; the emulation of
-- the system calls under Linux; blink.S, which the fish calls.
pub mod Boot
pub mod Common
pub mod Strings
pub mod Filesystem
pub mod Console
pub mod Pic
pub mod Paging
pub mod Pcb
pub mod Rtc
pub mod Kernel
pub mod KeyBuffer
pub mod Terminal
pub mod Keyboard
pub mod Printf
pub mod Files
pub mod Process
pub mod Syscall
pub mod Memory
pub mod Timer
pub mod Idt
pub mod Programs
pub mod Examples
