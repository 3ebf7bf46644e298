-- ===== src/Lib.antt =====
-- rCore-Tutorial-v3 for arm64: a teaching kernel (os), its file system (easy-fs) and its user library.
-- The kernel runs tasks on one CPU, round robin. System calls reach the synchronisation objects, the
-- pipes, the signals and, through an inode layer, the file system; those block and wake tasks through
-- the scheduler. The memory side gives out frames from a free-list allocator, from which the page
-- tables take theirs. Processes form a tree, and timers wake sleeping tasks. The file system stands on
-- a cache of 16 blocks over a block device.
--
-- Files and the code they model:
--   Base            lists, tests, words and integers that all parts share; `Run` is code that may panic
--   Allocator       os/src/utils/allocator.rs: FreeListAllocator init, alloc, dealloc, available_space
--   Mm/Address      os/src/mm/address.rs: alignment and the two address spaces
--   Mm/Frame        os/src/mm/frame_allocator.rs: PhysFrame alloc, alloc_zero, zero, drop
--   Mm/Entry        os/src/mm/page_table.rs: descriptor attributes and table entries, with the flags of
--                   os/src/mm/mod.rs
--   Mm/PageTable    os/src/mm/page_table.rs: PageTable new, map, unmap, query
--   Mm/Area         os/src/mm/memory_set.rs: MapArea new_offset, new_framed, map, unmap, write_data
--   Mm/Access       os/src/mm/uaccess.rs: uaccess_ok, check, copy_from_user, copy_from_user_str,
--                   read_str
--   Task            os/src/task/manager.rs and schedule.rs, the task states of os/src/task/structs.rs:
--                   spawn, resched, yield_current, block_current, exit_current, resume, exit
--   Sync            os/src/sync/semaphore.rs, user_mutex.rs and condvar.rs, over Task
--   Signal          os/src/task/signal.rs, the signal part of os/src/task/structs.rs and
--                   os/src/syscall/signal.rs: delivery, return, kill, sigaction, sigprocmask; the
--                   system call path of os/src/trap/mod.rs in Signal/Trap
--   Process         os/src/task/structs.rs: Process new_fork, add_child, stop, exit, task_exit, waitpid,
--                   waittid, user_stack, and the ends of tasks; sys_fork
--   Syscall         os/src/syscall/fs.rs and sync.rs: descriptors, sys_write, and the tables of
--                   synchronisation objects, with alloc_fd of os/src/task/structs.rs and the
--                   read_array of os/src/mm/uaccess.rs; Stdout and Stdin of os/src/fs/stdio.rs
--   Timer           os/src/timer.rs: add_timer, remove_timer, check_timer; sys_sleep
--   Pipe            os/src/fs/pipe.rs: the ring buffer, and the loops of `read` and `write`
--   EasyFs/Cache    easy-fs/src/block_cache.rs: get_block_cache, modify, sync, block_cache_sync_all
--   EasyFs/Bitmap   easy-fs/src/bitmap.rs: alloc, dealloc, maximum
--   EasyFs/Areas    easy-fs/src/efs.rs: create, open, inode places, alloc and dealloc of inodes and data
--   EasyFs/Layout   easy-fs/src/layout.rs: SuperBlock, DiskInode, get_block_id, clear_size, read_at;
--                   Layout/Increase: increase_size, Layout/Write: write_at
--   EasyFs/Entry    easy-fs/src/layout.rs: DirEntry new, empty, name, as_bytes
-- A function has its source's name; where two files have the same, the module tells them apart.
--
-- Machine arithmetic is that of a checked build: a sum that does not fit, a difference below zero, a
-- failed assertion, an `unwrap` of `None` and an index out of range are a panic, which is a value of
-- `Run`. A theorem that says that code does not panic so covers the wrapping build as well. Where a
-- sum is left plain, its operands are lengths and offsets of objects in memory or on disk.
--
-- Loops over a range are structural. The loops of the pipe ends are on fuel, one unit for each round, and
-- the theorems say after how many rounds a call returns, or that no number of rounds is enough. The
-- loops of `read_at` and `write_data` have as much fuel as there are bytes to copy, that of `write_at`
-- one more, and their theorems say that this is enough, as each round copies at least one; so it is
-- with the loop of `sys_write`, and with that of `increase_size` over the blocks of data. The loop of
-- `check_timer` has a round for each timer.
--
-- Locks are left out: each function that holds one for its whole body is one step, and where a body
-- releases it in between (the pipe ends, the condition variable) the model has one step for each part.
-- Parameters of the model: the block device is the function from block numbers to contents, which
-- `read_block` reads and `write_block` updates; the pipe asks a function whether the other end is
-- alive; `waitpid` takes the number of references to a process; `sys_write` takes what a file does with
-- a chunk, of which nothing is assumed (a write that waits for ever is not a result, and the memory of
-- the user is the same during a call), and the standard output takes `from_utf8`; the frame allocator
-- takes the address of the end of the kernel image.
--
-- Abstractions: reference counts are left out, with the two assertions on them in `switch_to`; a step
-- ends at the switch, so that the `unreachable!` behind it in `exit_current` has no counterpart; the
-- exit codes of tasks are natural numbers (`i32` in the source); `new_fork` keeps whether there is a
-- memory set, not its copy, which panics where frames run out.
--
-- Not modelled: walking and printing a page table, the memory sets but for their areas, the accesses
-- to user memory but strings and values, `exec` and the remaining system calls, the directory layer
-- of easy-fs (`vfs.rs`); the assembly and the drivers, which only move registers; the user programs
-- and their library, which are wrappers round system calls; formatting and logging.
pub mod Base
pub mod Allocator
pub mod Mm
pub mod Task
pub mod Sync
pub mod Signal
pub mod Process
pub mod Syscall
pub mod Timer
pub mod Pipe
pub mod EasyFs
