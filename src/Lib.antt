-- ===== src/Lib.antt =====
-- A verification library for valerioedx, a small Unix-like kernel for AArch64 with its user library.
--
-- Parts of the program and where they are modelled. Paths are from the repository's root; functions
-- have the names that they have in C.
--   Pmm.antt        kernel/mm/pmm.c: the stack of free physical frames and the reference
--                   counts of all frames. pmm_init, pmm_alloc_frame, pmm_free_frame and the
--                   calls on regions and counts are functions of the state.
--   Vma.antt        kernel/mm/vma.c: the areas of an address space, ordered by address: vma_insert,
--                   vma_find, vma_unmap, vma_allocate, vma_allocate_file, vma_expand_stack. The page
--                   tables of kernel/mm/vmm.c are a map from page numbers to entries.
--   Files.antt      kernel/fs/file.c, kernel/syscalls/dup.c, sys_close of kernel/syscalls/open.c, and
--                   vfs_open and vfs_close of kernel/fs/vfs.c: descriptors, files, inodes and their
--                   reference counts. Files/Attributes.antt: the calls on owner, mode and flags in
--                   kernel/syscalls/getuid.c.
--   Processes.antt  pid_hash of kernel/threading/sched.c. Processes/Ids.antt: users, groups, sessions
--                   and process groups of kernel/syscalls/getuid.c.
--   Sched.antt      kernel/threading/sched.c: run queues, choice of the next task, sleep and waking.
--   Pipe.antt       kernel/syscalls/pipe.c: the ring of bytes, its readers and writers.
--   Signals.antt    kernel/syscalls/kill.c: pending and blocked signals, actions, delivery.
--   PageTables.antt kernel/mm/vmm.c: the tree of translation tables, its walks, vmm_map_page
--                   and vmm_map_region; PageTables/Leaf.antt says what each bit of an entry is for.
--   Heap.antt       kernel/mm/heap.c: the pages of the kernel heap, taken by first fit. Heap/Slabs.antt:
--                   the slabs of objects of one size, kmalloc and kfree; Heap/Init.antt: heap_init;
--                   Heap/Realloc.antt: kcalloc and krealloc.
--   Sync.antt       kernel/threading/sync.c: semaphores (Sync/Semaphores.antt) and mutexes
--                   (Sync/Mutexes.antt), with tasks that call them in any order.
--   Malloc.antt     user/src/stdlib.c: malloc and free of the user library.
--   Environ.antt    user/src/stdlib.c: getenv, setenv and unsetenv.
--   Numbers.antt    user/src/stdlib.c: strtoul, over lists of bytes; Numbers/Texts.antt describes the texts
--                   of numbers without its code.
--   Fat32.antt      kernel/fs/fat32.c: the FAT and the chains of clusters in it, on a device of bytes.
--                   Fat32/Dates.antt: dates and times; Fat32/Files.antt and Fat32/Files/Writing.antt:
--                   fat32_read_file and fat32_write_file; Fat32/Names.antt: long names. Fat32/Volume.antt says which volumes
--                   the theorems are about.
--   Strings.antt    lib/src/string.c, and the functions of user/src/string.c that differ from it
--                   (Strings/User.antt): copies, fills and comparisons of memory; Strings/Text.antt: texts.
--   Base.antt       shared names: tests on numbers, lists, C integers, counting.
-- How the parts interact: vma_unmap gives frames back to the frames' counts; new tables
-- are cleared frames that the frames' allocator returns; a pipe's ends are inodes
-- behind files, and its readers and writers sleep and are woken by the scheduler; pipe_write sends
-- SIGPIPE; SIGCONT makes the stopped threads of a process ready.
--
-- Conventions. A module has the state of its part as a record, the C function as a function from the
-- state to the result and the new state, and its theorems in child modules named for what they
-- prove. Addresses are numbers with 0 for NULL; arrays are functions from the index; a linked list is the
-- list of its elements. What memory allocation and copies from and to user memory answer is an
-- argument of the function. Unsigned words of w bits keep their wrap-around where the code can reach
-- it; int is an integer. A function that may sleep is modelled as passes: a pass ends where the task
-- sleeps or the call returns. Spin locks are not modelled: a function that holds its lock throughout is one
-- step.
--
-- Rounds. A loop is recursion on the rounds left: one for each frame in pmm.c, for each page of a range
-- in vma.c, for each of the 1024 descriptors in fd_alloc, for each byte copied in pipe.c, for each of the
-- 32 bits of active_priorities, and for each of the 32 signals in signal_dequeue. signal_check_pending has
-- 33 rounds, since a signal that is taken lies above those taken before; a run out of rounds is an
-- outcome of its own. Copies and fills run for the number of bytes or of vectors; a walk along a text
-- needs one round more than the text has bytes. Walks along linked lists are recursion on lists.
-- Reading and writing of files on FAT32 have a round for each byte asked for, the release of a chain one for
-- each cluster, the search for a year one for each 365 days, and the search for pages of the kernel heap
-- one for each page.
--
-- Not modelled: the AArch64 and x64 boot code and drivers, the switch of contexts, the handling of
-- page faults, the entries of directories, the short names and the
-- mounting of FAT32, the page cache, the terminal, the loading of programs, the creation of processes,
-- the user programs, and of the C library what is not named above: calloc, realloc, atoi, character
-- classes, buffered files and the searches for spans. The frame that a handler runs on is left out of
-- the signals, and so is the search for the receivers of kill.
pub mod Base
pub mod Pmm
pub mod Vma
pub mod Files
pub mod Processes
pub mod Pipe
pub mod Signals
pub mod Sched
pub mod Heap
pub mod Sync
pub mod Fat32
pub mod Strings
pub mod Malloc
pub mod Environ
pub mod Numbers
pub mod PageTables
