-- ===== src/Lib.antt =====
-- A verification library for the kernel of TG11-OS, a 64-bit hobby operating system in C. The
-- kernel boots from multiboot2, takes its memory from the boot loader's map, runs up to eight
-- kernel tasks and one user program at a time, and keeps files in a table in memory. Its parts
-- are modelled here one by one, as pure functions on an explicit state:
--
--   Prelude     C's tests, arrays, machine words and bit operators, and lists of distinct slots.
--     Actions     functions that change a state and can fail, and how they are put in sequence.
--   Block       include/blockdev.h, the drive under a file system, and what is asked of it.
--     Ram         a drive in memory that does what is asked.
--   Fat32       kernel/fat32.c, the state, the caches of sectors, a read and a write of a sector.
--     Bytes       numbers out of and into the bytes of a sector.
--     Table       the allocation table: fat32_next_cluster, fat32_set_cluster_value,
--                 fat32_free_chain, fat32_alloc_cluster, fat32_get_free_bytes.
--     Mount       boot_is_fat32, fat32_mount and fat32_unmount.
--     Names       the names of eleven bytes and the parts of a path.
--     Sectors     the entries of a directory, and reads of several sectors.
--     Directory   the search of a directory, and the paths: fat32_resolve_dir_cluster and others.
--     Listing     fat32_ls_path, fat32_read_file_path, fat32_stat_path, fat32_get_attr_path.
--     Files       fat32_touch_file_path, fat32_write_file_path, fat32_mkdir_path,
--                 fat32_remove_path, fat32_set_attr_path.
--     Cached, Table/Copies, Table/Entries, Table/Freeing, Table/Claiming, Table/Space,
--     Sectors/Fields, Sectors/Reads, Directory/Search, Directory/Walk, Listing/Contents,
--     Mount/Geometry, Mount/Layout, Safety and the files under it: proofs.
--   Memory      kernel/memory.c, the physical pages: the bitmap, phys_alloc_pages, phys_free_pages.
--     Init        memory_init over the boot loader's tags, release_region, reserve_region.
--     Paging      the four-level page tables: paging_map_page and the functions beside it.
--     Virt        the kernel's address range, virt_alloc_pages, virt_free_pages, kmalloc, kfree.
--     Bitmap, Runs, Counts, Phys, Release, Init/Regions, Init/Safety, Walk, Reserve: proofs.
--   Task        kernel/task.c, the scheduler: the task table, the ring through it, the walks.
--     Ops         task_create, task_yield, task_preempt_tick, task_exit, task_kill and the others.
--     Ring, Walks, Sound, Drop, Create, Switch, Yield, Calls, Runs: proofs.
--   UserHeap    kernel/task.c, the heap of the user program: task_user_heap_brk; Break: proofs.
--   Fs          kernel/fs.c, the table of nodes and the lists of children.
--     Paths       resolve_path and split_parent_and_name.
--     Ops         fs_mkdir, fs_write_file, fs_rm, fs_mv and the others.
--     Chain, Tree, Grow, Unlink, Detach, Shrink, Above, Move: the tree invariant.
--     Children, Resolve, Split, Files, Keep, Remove, Runs, Space: what the operations do.
--   Ksym        kernel/ksym.c, the lookup of a symbol by its address; Search: proofs.
--
-- How the model follows the code. A struct is a record and a static variable a field of the
-- state; a pointer into a table is the index of its slot, and an index of -1 or a null pointer
-- is none. A function that changes state takes the state and returns it beside its result.
-- unsigned long is a natural number with its wrap-around at 2^64 written out where the code can
-- reach it. In Memory, physical memory is a function from addresses to 64-bit words, which page
-- tables live in; the first gigabytes are mapped one to one, as the kernel sets them up. In
-- Task, what a task runs on when it is switched to is a field of the task, since it is the
-- return address on its stack; an operation is one step. Most operations switch interrupts off,
-- so that a tick waits for their end; task_yield, task_exit and task_create do not, and are
-- modelled as they run when no tick falls inside them, also not between the update of
-- current_task and task_switch. Task.Tests runs a case where one does. UserHeap uses Memory's
-- state, and Task takes virt_alloc_pages and virt_free_pages as a parameter, so that its
-- theorems hold for every allocator. In Fat32, a function that returns -1 is an action that has
-- failed, in the state it has left behind, and a caller that goes on after a failure says so
-- with attempt. A drive is a record of functions on a state of its own, each of which may be
-- missing, as in the struct; Block states what the theorems ask of them, and they may fail at
-- any call. A sector is a function from the offset to the byte. Of struct fat32_state,
-- alloc_hint_cluster is kept apart, since it is the only field that changes while a volume is
-- mounted. A path or a name is the list of its characters before the zero, and a buffer in the
-- caller's memory is the result. The boot loader's tags, the linker's symbols and the generated
-- symbol table are parameters.
--
-- Fuel and bounds. The walks round the ring of tasks have fuel 8, the number of slots, and
-- running out of it is the fault that Task.Runs rules out. The walks along a list of children
-- have fuel 256, the number of nodes, which the tree invariant shows to be enough. The loops
-- over a path have the length of the path, the loop of the binary search the size of the table,
-- and the loops that map the user heap the number of its pages; theorems show that more fuel
-- changes nothing. memory_init has fuel for the number of boot tags, and ends on a chain that is
-- shorter. The loop of resolve_path tells running out of fuel from its return value. In Fat32,
-- running out of fuel is an outcome of its own, stuck. fat32_free_chain has fuel for the number
-- of the last cluster and three rounds more, and Table.Freeing shows that this is enough on
-- every table. The search of a directory, the listing and the read of a file follow a chain that
-- may be a circle on a damaged disk, where the C loops have no end; their fuel is an argument.
--
-- Not modelled: the drivers, the registry of drives, the shell and its terminal, the network
-- stack, the ELF loader, the BASIC interpreter, system calls, interrupt and segment tables, and
-- assembly but for task_switch. In fat32.c, the older functions that work on names in the root
-- directory (fat32_ls_root, fat32_read_file_root, fat32_touch_file_root, fat32_write_file_root,
-- fat32_delete_file_root and the searches that only they use), which the repository does not
-- call, and the getters are left out. In fs.c, fs_get_pwd and the ELF images that fs_init writes
-- are left out; in task.c, what prints, the log of events, the entry into ring 3, and a timer
-- tick inside task_yield, task_exit or task_create.
mod Prelude
pub mod Block
pub mod Fat32
pub mod Fs
pub mod Ksym
pub mod Memory
pub mod Task
pub mod UserHeap
