-- ===== src/Lib.antt =====
-- A verification library for the PKE kernel: the parts of the kernel that manage memory, processes
-- and files, as functions on explicit state, with the theorems that make them correct.
--
-- The parts and how they interact. The page allocator hands out the pages in which the other parts keep
-- their objects and counts the references to them. The string functions move bytes; the hash table
-- keeps the caches of the file layers in pages of the allocator. The RAM-disk file system stores files
-- and directories in blocks of a device and keeps a free map of them. The scheduler moves processes
-- between the ready queue, the waiting queues of the semaphores, and the harts; exit, wait, yield and
-- the timer tick use it. The virtual memory keeps its tables in pages of the allocator and counts a
-- reference to a page that it shares; the file system above the disk finds its dentries and vinodes in
-- hash tables. A fork allocates a process, copies its space and its open files, and puts it into the
-- ready queue. A call of a program goes from the user library through registers to the dispatch of the
-- kernel.
--
--   Pmm         kernel/pmm.c: ref_find, ref_insert, ref_erase, free_page, alloc_page,
--               create_freepage_list, pmm_init. The free list is the map of the words at the start of the
--               free pages; ref_list is a list of units.
--   Str         util/string.c, every function, over a memory of bytes by address.
--   HashTable   util/hash_table.c: put, get and erase are default_put, defalut_get and default_erase.
--   Rfs         kernel/ramdev.c (ramdisk_read, ramdisk_write) and kernel/rfs.c: blocks, disk inodes,
--               the free map and vnodes; Rfs.File has rfs_read, rfs_write, rfs_lseek and
--               rfs_disk_stat, Rfs.Dir the operations on directories, Rfs.Format the formatting and
--               mounting, Rfs.Readdir the directory streams.
--   Sched       kernel/sched.c, and of kernel/process.c the process pool, exit, wait and wake-up; rrsched of
--               kernel/strap.c and sys_user_yield of kernel/syscall.c. acquire and release are __acquire and
--               __release.
--   Vmm         kernel/vmm.c: page_walk, map_pages, lookup_pa, user_va_to_pa, user_vm_map, kern_vm_map,
--               user_vm_unmap, cow_vm_map, prot_to_type.
--   Vfs         kernel/vfs.c: the dentry and vinode caches on HashTable; Vfs.Objects has dentries, vinodes and
--               files by address and the table vinode_ops of kernel/vfs.h, Vfs.Paths the lookup of paths,
--               Vfs.Files, Vfs.Links and Vfs.Dirs the vfs_ functions, and Vfs.Ram the table rfs_i_ops of
--               kernel/rfs.c.
--   ProcFile    kernel/proc_file.c: the descriptors and the working directory of a process, on Vfs.
--   Space       kernel/process.c: alloc_process, the regions in do_fork (Space.Regions), exec_clean and
--               proc_clean_pagetable on the address space, and the store fault of kernel/strap.c, on Vmm.
--   Fork        kernel/process.c: alloc_process and do_fork as a whole, on Sched, Space and ProcFile.
--   Syscall     kernel/syscall.c: the dispatch of do_syscall, sys_user_allocate_page (allocate_page),
--               sys_user_free_page (free_user_page), sys_user_read and sys_user_write (user_read,
--               user_write in Syscall.Buffers, with their loop in transfer), on Space, ProcFile and Vmm.
--   Symbols     kernel/symbol.c: quickSort (quick_sort) and func_name_printer on the function symbols.
--   Elf         kernel/elf.c: elf_init and elf_load, on Vfs, Vmm and Space.
--   UserLib     user/deps/user_lib.c: the registers that each function loads, and the result of
--               do_user_call.
--   Heap        kernel/process.c: vm_malloc, vm_free and their helpers, on Vmm.
--   Common      shared names, tests, lists, integers, and the outcomes of a run.
--   Examples    the theorems at concrete inputs.
--
-- A run ends with a value, in the kernel's panic (or a failed assert), in a fault (a memory access
-- that C leaves undefined), or out of fuel. Fuel bounds three kinds of loop: the binary searches get
-- the length of the list and one, which the theorems on them show to be enough; the loops over a
-- string get a number above its length; the walk of a process queue gets NPROC steps, enough for a
-- queue of different processes. The loop of map_pages gets the number of pages and one. The sort and
-- the search of symbols get a number above that of the symbols. The walk of the parents of the
-- working directory gets a number above theirs, and the loops of the heap get fuel from their
-- caller; a heap that a child shares has at most 32 pages, and the loop over them gets one round
-- more. The loop over the pages of a buffer gets a number above that of the bytes.
--
-- Machine integers: addresses, sizes of heap blocks and counts wrap at 2 ^ 64 where the source computes
-- with them, an int in a
-- block is its four bytes, and the link count of an inode wraps at 2 ^ 32. Sizes and offsets of files are
-- natural numbers, and the seek offset is an integer. An int in a register of 64 bits is its sign-extended
-- value.
--
-- Not modelled: the locks (each operation is a step, but for the two steps of an insertion in
-- Sched.Race), printing, control registers and assembly, the emulator interface, the host file system,
-- the debug information of an image, and the set-up of the kernel's own space. What a page or a
-- stack variable held before it is written is a parameter of the operations that read it.
pub mod Common
pub mod Elf
pub mod Examples
pub mod Fork
pub mod HashTable
pub mod Heap
pub mod Pmm
pub mod ProcFile
pub mod Rfs
pub mod Sched
pub mod Space
pub mod Str
pub mod Symbols
pub mod Syscall
pub mod UserLib
pub mod Vfs
pub mod Vmm
