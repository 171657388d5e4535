-- ===== src/Lib.antt =====
-- Verification library of the kernel in xv6-public/: a teaching kernel for the x86 with a scheduler by
-- priorities. It models the C code below as functions and step relations, and proves what is listed at
-- the end.
--
-- Parts of the program, and the files that model them:
--   proc.c, proc.h, param.h   Proc (the table, `struct proc`), Proc/Sleep (`sched`, `yield`, `sleep`,
--     `wakeup1`, `wakeup`, `kill`, `change_prio`), Proc/Alloc (`allocproc`, `userinit`, `growproc`,
--     `fork`, `set_prio`), Proc/Exit (`exit`), Proc/Wait (`wait`, `wait2`, `wait3`), Proc/Sched
--     (`scheduler`, `scheduler_original`). Proc/Outcome has the panics and the locks that a CPU holds,
--     Proc/Env the calls into memory and file code as a record of operations.
--   proc.c with several CPUs   System: each CPU scans in `scheduler` or runs a process; a step is one
--     section under the lock of the process table, in any interleaving.
--   trap.c                     Trap (`trap`), Trap/Slice (the time slice).
--   syscall.c, sysproc.c       Syscall (arguments, the table), Syscall/Calls (the calls on processes).
--   pipe.c                     Pipe, with the bytes of its ring as a list in Pipe/Ring.
--   kalloc.c                   Kalloc. Its list is threaded through the pages: Kalloc/FreeList.
--   log.c                      Log: the disk with its crash points, `commit`, recovery, `begin_op` etc. Log/Space
--     has calls in any interleaving: the tests of `log_write` come before its lock, as a step of their own.
--   spinlock.c                 Spinlock: one lock, a shared access at a time, any number of CPUs.
--   bio.c, sleeplock.c         Bio: the cache as a list, most recently used first.
--   file.c                     File: the table of open files, reads and writes.
--   fs.c, fs.h                 Fs (the state, and actions that end with a result, in a panic, asleep or out
--     of fuel), Fs/Blocks (`balloc`, `bfree`), Fs/Inodes (`iget` to `iunlockput`, `bmap`, `itrunc`),
--     Fs/Content (`readi`, `writei`), Fs/Names (`dirlookup` to `nameiparent`).
--   sysfile.c, fcntl.h         Sysfile, Sysfile/Unlink, Sysfile/Create, with `pipealloc` of pipe.c.
--   vm.c                       Vm (`walkpgdir`, `mappages`, on the memory of Kalloc), Vm/Spaces (`setupkvm`,
--     `allocuvm`, `deallocuvm`, `freevm`, `copyuvm`), Vm/User (`inituvm`, `loaduvm`, `uva2ka`,
--     `copyout`). A read through the null result of `walkpgdir` reads word 0 of the memory.
--   console.c                  Console: the input line, `consoleread`, `consolewrite`; Console/Editor is what they
--     promise. Console/Screen: `cgaputc`, `consputc`, `printint`, `cprintf`.
--   printf.c, ulib.c           Ulib: `printf`, `atoi`.
--   grep.c                     Grep: the matcher, and `grep` on what its reads give.
--   string.c                   Memory: memory as bytes by address.
-- Base has what they share: Boolean tests, C arrays as lists, searches, 32-bit words.
--
-- How the parts interact. `fork` and `exit` call memory and file code through Proc/Env. System uses the
-- functions of Proc for its steps, with `dispatch` and `switch_back` for the two halves of a turn of
-- `scheduler`. Trap counts down the slice that `start_running` sets. Syscall/Calls calls Proc with
-- the arguments that Syscall reads. Log has its own view of the cache that Bio models by its list. Fs
-- sees the disk through that cache: a read of a block gives its bytes, and a lock of an inode is the
-- sleep lock of Bio. Sysfile calls Fs, and File for the table of open files; `begin_op` and `end_op` are
-- counted there, and done by Log. Vm takes and gives back pages by `kalloc` and `kfree` of Kalloc.
--
-- Conventions. A pointer into a table is the index of the slot. An `int` is its 32-bit pattern, and
-- arithmetic on it wraps around. A function that sleeps or switches away is cut there: the part up to
-- the switch, and what is left to do. A panic is `none` or a value of `Panic`; a null result is `none`.
--
-- Fuel. `freerange` takes one unit for each page of 4096 bytes and one to stop, `filewrite` one for each
-- round, of at least one byte, and one to stop. `balloc` takes one for each block of the bitmap and one to
-- stop, `readi` and `writei` one for each round, of at least one byte, a scan of a directory one for each
-- entry and two more, `namex` one for each byte of the path and one more. The loops of vm.c take one for each page up to the
-- end and two more. `printint` takes one for each digit,
-- and there are eleven at most. `strlen` looks at as many bytes as it has fuel for. All
-- other loops follow a list or a counter.
--
-- Not modelled: exec.c, segments and control registers, more than one disk, devices, boot
-- code, assembly, and the other user programs. Hardware memory ordering is sequential. Debugging aids
-- (`procdump`, `getcallerpcs`, lock names) are left out.
pub mod Base
pub mod Proc
pub mod System
pub mod Pipe
pub mod Kalloc
pub mod Log
pub mod Spinlock
pub mod Bio
pub mod Console
pub mod File
pub mod Fs
pub mod Grep
pub mod Memory
pub mod Syscall
pub mod Sysfile
pub mod Trap
pub mod Ulib
pub mod Vm
