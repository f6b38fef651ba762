-- ===== src/Lib.antt =====
-- A verification library for the MAVMM hypervisor: the kernel that boots below a guest system, hides
-- its own memory from it, and watches it.
--
-- The parts, and the files that model them:
--
-- - Alloc.antt: kernel/alloc.c, the bitmap of the host's pages (map_alloc, map_free,
--   allocated_in_map, is_free_contiguous_region, alloc_pages, alloc_host_pages). The static allocator
--   is passed in and returned. A bit is 1 where a page is taken.
-- - Multiboot.antt: include/multiboot.h, the records that the boot loader passes.
-- - E820.antt: kernel/e820.c, the kernel's own copy of these records (setup_memory_region,
--   get_nr_pages, get_max_pfn).
-- - Hide.antt: hide_memory of kernel/e820.c, which takes the host's region out of the boot loader's
--   records, in place. The uninitialised locals of its loop are an argument.
-- - Memmap.antt: setup_memory of kernel/setup.c and naive_memmap_init of kernel/alloc.c, which lay the
--   memory out and free the pages of the heap. They use Alloc and E820.
-- - Page.antt: the 2-MB page tables of kernel/page.c (pg_table_alloc, mmap_pml4,
--   linear2physical_legacy2mb), over memory as 64-bit words by byte address. New tables are pages of
--   Alloc.
-- - Legacy.antt: the 32-bit page tables of a guest in kernel/page.c (linear_2_physical, mmap_4mb),
--   over memory as 32-bit words by byte address.
-- - Segment.antt: kernel/segment.c and glogic_2_hphysic of kernel/intercept.c, from a logical address
--   of the guest to a linear one, and by Legacy to a physical one.
-- - Bytes.antt and CString.antt: kernel/string.c, on memory and on strings as lists of bytes.
-- - Tracking.antt: the tables of open files, of waiting threads and of tracked processes of
--   kernel/vm.c. A table has rows by index and a number of rows in use, and like the code does not ask
--   whether a row is in its page.
-- - Intercept.antt: vm_enable_intercept, vm_disable_intercept and the protection of page directories
--   of kernel/vm.c, and of kernel/intercept.c the step over one instruction. Intercept/Exits.antt: the
--   handlers of the exits that change interceptions, as a step relation.
-- - Vmexit.antt: kernel/intercept.c as a whole: handle_vmexit with the handlers of all exits
--   (Vmexit/Handlers.antt), the handlers of system calls (Vmexit/Calls) over the table of
--   include/syscall_ent.h, and the search for the current process and thread (Vmexit/Task.antt). A
--   handler takes the guest and what the host keeps of it, and returns both. What Intercept holds of
--   the guest is a part of its state, and Vmexit/Steps.antt shows that the handlers refine the steps
--   of Intercept/Exits.antt. Reports are kept as the calls of outf, with format and arguments.
-- - Nested.antt: the nested page tables that kernel/vm.c builds for the guest, by Page and Legacy.
-- - Consistency.antt: the checks of a control block in kernel/vmcb.c.
-- - Processor.antt: kernel/cpu.c, which identifies the processor; the instruction cpuid is an argument.
-- - Startup.antt: vm_create of kernel/vm.c, which makes the guest's tables by Tracking and Nested.
--   Startup/Block.antt and Startup/Amd.antt: kernel/svm.c, which sets up the control block that
--   Consistency checks, on the processor that Processor identifies, with pages of Alloc.
-- - Vmcs.antt: kernel/vmcs.c, the control structure of an Intel guest by the fields of include/vmcs.h,
--   and its areas (Vmcs/Entries.antt) and bitmap (Vmcs/Bitmap.antt) of registers. Vmcs/Init.antt: kernel/vmx.c, and vm_init of
--   kernel/vm.c, which calls Processor and then the set-up for AMD or for Intel.
-- - Screen.antt and Printf.antt: kernel/printf.c, the text screen and vsnprintf.
--
-- Base.antt holds what the parts share: machine words as numbers with every wrap-around written out,
-- bit-fields, memory as a function, and the results of code that can stop the machine (fatal), read
-- out of range (fault) or run out of fuel. A loop over a list or a counter is structural recursion.
-- Three loops have fuel: the search of alloc_pages, with a round for each page and one more, which is
-- enough for every positive alignment; the digits of number, of which 16 make 64 bits; and the lists
-- of execve, which end where the guest lets them, so that the fuel has to be above their length.
--
-- A read of the guest's memory takes the 32-bit word that starts at its address. Memory is total: that
-- kernel/boot.S maps only the first 256 MB for the host, so that a read behind them is a page fault,
-- is not modelled, but for the address -1, for which a failed translation stands: where a handler of
-- kernel/intercept.c reads there, it faults. What is said of a handler that returns is said of the
-- runs in which the memory that it reads elsewhere is mapped.
--
-- Not modelled: how outf sends its line, the serial line, the assembly files, functions that only
-- print, and the tools, the copied libraries and the test programs beside the kernel.
mod Base
mod Tests
pub mod Alloc
pub mod Multiboot
pub mod E820
pub mod Hide
pub mod Memmap
pub mod Page
pub mod Legacy
pub mod Segment
pub mod Bytes
pub mod CString
pub mod Tracking
pub mod Vmexit
pub mod Intercept
pub mod Nested
pub mod Processor
pub mod Startup
pub mod Vmcs
pub mod Consistency
pub mod Screen
pub mod Printf
