-- ===== src/Lib.antt =====
-- The neox kernel (a 32-bit x86 kernel in C): memory management, intrusive lists, scheduling and
-- synchronisation, files and the loading of programs, verified against the source.
--
-- The kernel keeps three allocators on top of one another. The physical memory manager
-- (kernel/mm/pmm.c) hands out page frames, the virtual address manager (kernel/mm/vam.c) hands
-- out pages of the kernel region and slots for kernel stacks, and the heap (kernel/mm/heap.c)
-- hands out bytes and grows by pages of the virtual memory manager (kernel/mm/vmm.c), which maps
-- frames of the first at the addresses that it is given.
--
-- - Base: the shared names; Base/Bits has the bit expressions of one byte, checked over all
--   bytes; Base/Memory has arrays in memory as functions from an offset to a byte, so that an
--   access outside an array is an access to what lies there, and the bit arrays on them (memset
--   is that of kernel/lib/string.c); Base/Result has the outcome of a call with the assertions of
--   kernel/include/assert.h.
-- - Layout: the constants of kernel/include/memory_layout.h.
-- - Pmm: the static variables of pmm.c as the record Pmm, with a function for each of bitmap_set,
--   bitmap_clear, bitmap_test, bitmap_set_range, bitmap_clear_range, pmm_alloc_page,
--   pmm_free_page and pmm_fail_next_allocations; Pmm/Init has pmm_init, whose arguments are what
--   the boot loader and the linker hand over. Pmm/Bitmap, Pmm/Inv, Pmm/Alloc, Pmm/Free,
--   Pmm/Trace, Pmm/Reserve and Pmm/Boot prove.
-- - Vam: the bitmaps of vam.c and a function for each of its functions but vam_dump. Vam/Ranges,
--   Vam/Pages, Vam/Stacks and Vam/Boot prove.
-- - Heap: the chain of struct heap_block of heap.c as the list of its blocks with their
--   addresses, and a function for each of heap_align, heap_find_block, heap_find_free,
--   heap_merge, heap_expand, kmalloc, kfree, heap_init and heap_validate (the debug build, which
--   the Makefile makes). The virtual memory manager is the interface Pages, of which one law is
--   assumed: the first page of the recursive paging window, which the kernel directory maps from
--   the start, is not granted. Heap/Chain, Heap/Merge, Heap/Expand, Heap/Fit, Heap/Loop,
--   Heap/Alloc, Heap/Live, Heap/Free, Heap/Cycle and Heap/Kept prove.
-- - Nodes: the two pointers of each struct list_node as functions from its address, and a
--   function for each operation of kernel/lib/list.c, which writes them in the order of the code.
--   The queues of the scheduler and of the wait queues are lists of this kind. Nodes/Ring says
--   which sequence of nodes a ring holds; Nodes/Splice, Nodes/Insert, Nodes/Remove, Nodes/Queue,
--   Nodes/Cycle and Nodes/Others prove. A null pointer that the code would follow is not a fault
--   but the cell at 0; the theorems are on rings, which hold no null pointer.
-- - Paging: the entries of the page directories and page tables of kernel/mm/paging.c as a
--   function from the address of a table and an index, with the physical memory manager,
--   kernel_directory and CR3, and a function for each function of paging.c but
--   paging_get_kernel_directory; Paging/Directory has paging_init and the creation and
--   destruction of directories, Paging/UserRange has paging_user_range_valid, Paging/UserString
--   has paging_user_string_valid, and Paging/Virtual has kernel/mm/vmm.c. Paging/Map,
--   Paging/NewTable, Paging/Unmap, Paging/Frames, Paging/Created, Paging/Returns and
--   Paging/UserString/Scan prove, over the bit facts of Paging/Bits.
-- - Task: the static variables of kernel/task/scheduler.c and kernel/task/reaper.c and the fields
--   of each struct thread as the record Kernel, in which the ready list, the wait queues and the
--   list of zombies are the sequences of threads that Nodes shows the rings to be.
--   Task/Scheduler, Task/Wait, Task/Thread and Task/Sync have a function for each operation. A
--   call that switches is followed to context_switch, and from there the thread that was chosen
--   goes on with the restoring of its own interrupt flag (the field saved), which ends its call;
--   condvar_wait goes on with condvar_relock. Calls are atomic: an interrupt between the
--   interrupt_restore and the thread_unblock of mutex_unlock is not modelled. Task/Valid,
--   Task/Wake, Task/WakeAll and Task/Sleep have the invariant and the lemmas on single steps,
--   Task/RoundRobin and Task/Fairness the rotation by the timer, Task/Handover, Task/Locking and
--   Task/Condvar the semaphores, mutexes and condition variables, Task/Ending and Task/Killing
--   the end of a thread, Task/Trace sequences of calls.
-- - Strings: memcpy, strlen and strcmp of kernel/lib/string.c on the memory of an address space,
--   a byte at each address. Strings/Copy and Strings/Compare prove.
-- - Fs: the static variables of kernel/fs/fs.c as the record Fs, with the format of
--   include/fs_format.h, and each of its functions. Fs/Mount and Fs/Find prove.
-- - Files: kernel/file/file.c, each of whose functions takes and returns the struct file, and
--   process_open, process_get_file, process_read and process_close of kernel/task/process.c on
--   the descriptors of a process. Files/Read, Files/Stream and Files/Slots prove.
-- - Machine: the interface of the memory, the paging and the heap that the loader, the arguments
--   and the stacks of a program work with, and its instance with the heap of Heap. Machine/Laws
--   has what its clients rely on, for any machine and for that instance, Machine/Owned has the
--   blocks that a client holds, and Machine/Example a small machine. The headers of the heap, the
--   tables and the memory are parts of the state of their own, so the laws are on what leaves the
--   heap alone: frames, pages of user mode, and copies into blocks in use.
-- - Multiboot: kernel/boot/multiboot2.c but its dumps and getters, on the boot information in
--   memory. Multiboot/Walk proves.
-- - Elf: elf_validate and elf_load of kernel/kernel/elf_loader.c, the latter over the interface
--   Machine; elf_load is cut where it tests what a call has returned, and its list of pages holds
--   the address of each page and of its node. Elf/Header and Elf/Content prove.
-- - Usermode: user_stack_alloc, user_stack_reserve, usermode_stack_release and
--   usermode_stack_create of kernel/arch/x86/usermode.c over the interface Machine, on the page
--   directory and the list of stacks of a process. Usermode/Slots, Usermode/Created and
--   Usermode/Released prove.
-- - Syscall: sys_write, sys_open, sys_read and sys_close of kernel/arch/x86/syscall.c; what is
--   written is a list of characters. Syscall/Read and Syscall/Open prove.
-- - Exec: exec_build_user_stack of kernel/arch/x86/syscall.c; Exec/Args has kernel/kernel/exec.c
--   over the interface Machine. Exec/Words, Exec/Sizes, Exec/Writes, Exec/Layout, Exec/Copies,
--   Exec/Copied and Exec/Quiet prove, the last for the heap of Heap.
--
-- A pointer is its address and NULL is 0; uint32_t and uint64_t arithmetic wraps where it is
-- written to (u32, u64). A loop over an index is a recursion on the rounds, either the state
-- after n rounds or the rest of a scan. Fuel is given to the loop of kmalloc, to the scans for
-- the end of a string, to paging_user_string_valid and to the walks over the tags. For kmalloc it
-- is the size divided by the page size, and three rounds more, which suffices since each round
-- adds a page to the free block at the end of the heap; a scan needs one round for each byte of
-- the string and one more, paging_user_string_valid two for each address, a walk one for each tag
-- and one more. A failed assertion ends the call with a result of its own. The interrupt flag,
-- which pmm_alloc_page and pmm_free_page save and restore, is a field of the state.
--
-- Not modelled: the TLB, the fault of an access beyond the direct mapping of the first 16 MiB
-- (the theorems on new page tables and directories assume memory below it), the headers of the
-- heap as bytes of a page that a mapping can replace, and so what elf_load as a whole leaves of
-- the heap, the creation, joining and destruction of threads and processes, the dispatch of
-- system calls, the change of the program of a process by sys_exec, the threads of user mode, the
-- drivers, all output, and the assembler code.
pub mod Base
pub mod Layout
pub mod Pmm
pub mod Vam
pub mod Heap
pub mod Nodes
pub mod Task
pub mod Paging
pub mod Strings
pub mod Fs
pub mod Multiboot
pub mod Files
pub mod Exec
pub mod Machine
pub mod Elf
pub mod Usermode
pub mod Syscall
