-- ===== src/Lib.antt =====
-- The lkd kernel, a small 32-bit x86 kernel in C++: a model of its parts as functions on explicit
-- state, and what they are proved to do.
--
-- The parts, each with the file that models it and the source (paths from the repository's root):
--
--   Memory     src/includes/utils.hpp: bytes at addresses, words in them, and the direct map of
--              physical memory into the upper quarter (`V2P`, `P2V`).
--   Strings    src/utils/string.cpp: `memcpy`, `memset`, `memmove`, `strcmp`, `memcmp`.
--   Ports      src/includes/io.hpp: `inb` and `outb`.
--   Printing   src/outputs/serial.cpp and src/outputs/vga.cpp: strings, numbers and `kprintf`, which
--              the two devices write alike, over the device's `write_char`.
--   Serial     src/outputs/serial.cpp: the serial line.
--   Vga        src/outputs/vga.cpp: the text screen.
--   Keyboard   src/devices/keyboard.cpp: scancodes, modifier keys, the queue.
--   Timer      src/devices/timer.cpp: the interval timer.
--   Pic        src/interrupts/pic.cpp: the interrupt controllers.
--   Gdt        src/gdt/gdt.cpp: the segments and the task state.
--   Idt        src/interrupts/idt.cpp: the interrupt descriptor table.
--   Bitmap     src/utils/bitmap.cpp: a bitmap over bytes in memory.
--   Pmm        src/pmm/pmm.cpp: the frame allocator, over a bitmap; Pmm/Init has `init`, which reads
--              the boot loader's memory map; Pmm/Abstract says what the allocator promises.
--   Paging     src/vmm/paging.cpp: page entries and `map_page`, which takes its tables from the frame
--              allocator; Paging/Walk has the processor's view of them, and Paging/Access the
--              `memcpy` that goes through it.
--   Kmalloc    src/vmm/kmalloc_utils.cpp, src/vmm/bucket.cpp, src/vmm/kmalloc.cpp: where the heap puts
--              the blocks of a bucket, whose bits are a bitmap, and `malloc`, `free`, `realloc`
--              and `calloc`. The fields of a bucket, which begin its page, are kept beside the
--              memory. Kmalloc/Heap puts the heap and the frame allocator together.
--   Loader     src/loader/loader.cpp: `verify_header`, and `load` in Loader/Load.
--   Tar        src/utils/tar.cpp: the size of an entry, where the next header is, and in Tar/Parse the
--              list of `parse_tar`.
--   Process    src/userland/process.cpp: the switch between processes, in the timer's interrupt, and in
--              Process/Create `create_process`, over the frames, the paging, the loader and the heap.
--   Interrupts src/interrupts/handlers.cpp: `irq_handler`, which calls the timer, the processes, the
--              keyboard and the controllers, and in Interrupts/Exceptions `isr_handler`.
--   Syscalls   src/userland/syscalls.cpp: the table of system calls.
--   Kernel     the state that the parts share at boot: memory, frames, heap, processes, serial line.
--   Main       src/main.cpp: `kmain`, and `load_initrd` in Main/Initrd; Main/Lines and
--              Main/Stages follow the calls of Main/Boot.
--
-- Prelude and Bits are what the parts share: lists, tests and machine words over the native numbers,
-- and the laws of bits and bit fields. A child module of a part proves what its name says; the theorems
-- at concrete inputs are in the part's Tests.
--
-- The functions keep the names of the source's. A static member is a field of the part's record, which
-- an operation takes and returns. A fixed-width integer is a number whose wrap-around is written out.
-- Memory is one function from linear addresses to bytes. The hardware's answers, the addresses that the
-- linker gives and those of assembly stubs are parameters.
--
-- A loop over a range is recursion on the rounds left. The loops that wait or that may not end have
-- fuel: the polls of the serial line (a line that answers within the fuel is a named hypothesis),
-- `strcmp` (the length of the first string is enough) and `compute_power` (28 rounds are enough up to
-- 2^31). `none` is the end of the fuel, or a fault: of the printers' stack or arguments, of a
-- null block, or of a page that is not mapped; and in `free` a pointer into a page that is no bucket,
-- which the code takes for one. The bytes of a block are at its address and above, uncut, so a block that
-- runs past 4 GiB is not modelled.
--
-- The entries of an archive and the length of a name have fuel, too, since the code has no bound for
-- them. The kernel's own quarter of the address space is taken to be the direct map; what lies below it
-- is reached through the directory in `cr3`, where an address that is not mapped is a fault.
--
-- Not modelled: assembly and build files, which are not C++ of the kernel; the Multiboot header, a copy
-- of another project's, but for the fields that the kernel reads, which are definitions of Pmm/Init and
-- Main/Initrd; and what the compiler makes of an access that C++ leaves undefined.
pub mod Prelude
pub mod Bits
pub mod Memory
pub mod Strings
pub mod Printing
pub mod Ports
pub mod Serial
pub mod Vga
pub mod Keyboard
pub mod Pic
pub mod Timer
pub mod Gdt
pub mod Idt
pub mod Bitmap
pub mod Pmm
pub mod Paging
pub mod Kmalloc
pub mod Loader
pub mod Tar
pub mod Process
pub mod Interrupts
pub mod Kernel
pub mod Syscalls
pub mod Main
