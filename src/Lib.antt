-- ===== src/Lib.antt =====
-- OSE is a small 32-bit x86 kernel. This library models the parts of it that compute: the memory
-- primitives and the two allocators of src/memmgnt.c, virtual memory, interrupts, the timer and the
-- ACPI tables, the formatted printing of src/console.c and its screen in src/drivers/vga, the PS/2
-- devices of src/drivers/ps2, and the scheduler and the processes of src/processes. A kernel
-- component is a state record and one function for each operation; a memory is a function from
-- addresses to bytes, and reads and writes of the code are reads and writes of that function. A
-- kernel panic ends a computation with `panic` in place of `ok`.
--
-- Prelude holds what the parts share: library names, lists over the native numbers, 8, 16 and 32
-- bit wrap-around (`u8`, `u16`, `u32`, `sub32`), the integers that C's `int` is read as, and
-- `Outcome`.
--
-- Memory models src/memmgnt.c. Memory/Bytes: `memmove`, `memset`, `memzero`, `strlen`, `memcmp`, a
-- definition for each. Memory/Words: the 32-bit little-endian loads and stores of the free list.
-- Memory/Immortal: `init_immortal_allocator`, `malloc_immortal` and `calloc_immortal` with the two
-- arenas. Memory/Pages: `malloc_page`, `calloc_page` and `free_page`; the state `Frames` is the
-- variables frame_edge and frame_free_list and the memory that the free pages link through.
--
-- Console/Printf models the vsnprintf family of src/console.c. `Sink` is the pointer pos and the
-- memory that bound_string_putchar writes to; Printf/Integer is bound_string_format_integer;
-- Printf/Directive is one conversion specification of vsnprintf (flags, width, precision,
-- qualifier, conversion), with the format string and the variable arguments as lists;
-- Printf/Vsnprintf is the loop of vsnprintf, its terminator, and vsprintf. The strings that
-- arguments of %s point to are a function from the argument to its characters, a parameter of the
-- model. The loop of vsnprintf runs on fuel, the length of the format and one more, which is shown
-- to be enough.
--
-- Ps2/Keys models src/drivers/ps2/ps2_keyboard_keys.h, the table of ps2_keyboard_keys.c and the
-- switch of send_make_key; Ps2/Queue the command queues of ps2_device_general.c; Ps2/Keyboard the
-- interrupt handler and the initial commands of ps2_keyboard.c. `World` is the static variables of
-- the handler, the two queues, the ports of the controller and the characters typed. The keyboard
-- uses the queues as the code does: ACK and RSD drive them from the handler, and a command goes to
-- its device over the ports, behind a 0xD4 for channel 1, unless the controller does not take it in
-- time. Ps2/Keyboard/Sends describes the polls of a controller that takes each byte in time.
-- Ps2/Devices is the reset and the detection of devices in ps2_device_general.c with
-- ps2_send_command of ps2_controller.c: what the polls of the ports will see is a list, a loop of
-- polls is a recursion on it, and `none` means that the list ended while the code was waiting.
-- Ps2/Controller is `init_ps2_controller` and the start of the devices in src/entry.c on the same
-- lists; Ps2/Startup is the whole of `init_ps2_keyboard`, with the interrupt gate, the masks and
-- the first byte sent. Ps2/Controller/Talk describes the polls of a controller that answers, as a
-- conversation of bytes sent and received.
--
-- Console/Vga models src/drivers/vga/vga.c: the screen at 0xB8000 and the buffer of the driver are
-- two areas of one memory, a cell is two bytes. Console/Ansi is the colour codes of escape
-- sequences. Console/Flush is the console of src/console.c: `cputc` and `cputs` collect characters,
-- `cflush` interprets and draws them. Its buffer is two lists, the characters below buffer_pos and
-- the old bytes behind them, because an escape sequence that is cut off is read on into the old
-- bytes; beyond the buffer the model reads zeros. The loop of cflush runs on fuel, one more than
-- the characters of the buffer, which is shown to be enough. Console/Print is `vcprintf`, which
-- puts the output of `vsnprintf` behind the buffer, and the functions that call it; the address of
-- the buffer is an argument. Console/Setup is `init_consoles`, which allocates the buffers.
--
-- Scheduler models src/processes/scheduler/scheduler.c: the state is the variables of the scheduler
-- and the fields next, prev and pid of the nodes, each a map from the address of a node;
-- `init_scheduler` takes its array from the immortal allocator of Memory. Scheduler/Ring is the
-- insertion of a process, Scheduler/Turns the switches, Scheduler/Capacity the size of the array.
--
-- Paging models src/paging.c on the frames of Memory/Pages: directories and page tables are words
-- in the memory of the pool, taken with `calloc_page`. Paging/Translate is how the processor reads
-- them, a definition of its own that the theorems on `mount_page`, `create_vas` and the growth of
-- the stack by the page fault handler are stated in. `IsSpace` says that a directory and its page
-- tables are frames of their own, `IsOwner` that the pages above the kernel are too; the supply of
-- a pool is the number of pages that it can still give. Paging/Frees, Paging/Owned, Paging/Members
-- and Paging/Release are about `free_VAS`: the list of the frames that it frees, and the pool that
-- it leaves. The loop of the page fault handler runs on fuel, one more than the pages that it goes
-- down, which is shown to be enough.
--
-- Interrupts models src/interrupts.c: the trampolines and gates as bytes in memory, the handler
-- table, and the initialisation, which takes its blocks from the immortal allocator.
-- Interrupts/Trampolines reads the trampolines as the processor runs them, Interrupts/Dispatch
-- follows an interrupt from its gate to its handler. Interrupts/Pic is the masks of the two
-- interrupt controllers, with the chips as their data sheet describes them. Timer models src/pit.c
-- and sets its gate through Interrupts. Acpi models src/acpi.c; the places of its string literals
-- are a parameter. The loops that search for the root pointer run on fuel, one more than the
-- candidates, which is shown to be enough.
--
-- Processes models src/processes/process.c on Scheduler and Paging, with the exit of src/syscalls.c
-- and the page fault handler of src/paging.c: the processes are a map from the addresses of their
-- nodes, a switch returns the directory and the context that the processor loads, the handler takes
-- the address of CR2 as an argument and returns the message that it prints. Processes/Start is the
-- first switch to a process, Processes/Ends the end of one, Processes/Faults the handler,
-- Processes/Life a process under any faults and exits, Processes/Boot the last part of
-- `kernel_entry` in src/entry.c with `register_syscalls`, Processes/Experiments the choice of that
-- process in src/experiments.c. The fuel of the handler is one more than the pages from 4 MB to 8
-- MB.
--
-- Not modelled: the instructions that load a context, the caches of the processor, messages of the
-- drivers and the assembly files; these are hardware access or state of the CPU. Of the entry of
-- the kernel, the start of the PS/2 devices and of the first process is modelled; the calls before
-- these are not put together, since the parts are modelled on memories of their own.

pub mod Prelude
pub mod Acpi
pub mod Console
pub mod Interrupts
pub mod Memory
pub mod Paging
pub mod Processes
pub mod Ps2
pub mod Scheduler
pub mod Timer
