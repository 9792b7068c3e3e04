-- ===== src/Lib.antt =====
-- PinkyOS is a kernel for Arm v8 in the tradition of xv6. This library models parts of its C code
-- as functions and proves properties of them. Paths are from the repository's root.
--
-- The parts and how they interact. Processes (src/proc.c) run kernel code on several CPUs; spin
-- locks (src/spinlock.c), which nest the masking of interrupts (src/arm.c), protect shared state,
-- and a process that must wait sleeps on a channel until another wakes it. A pipe (src/pipe.c) joins
-- a writer and a reader. The disk (src/memide.c) is an image in memory; the buffer cache (src/bio.c)
-- holds copies of its sectors, and the log (src/log.c) makes several writes of sectors take effect
-- as one, also across a crash. The page tables of address spaces (src/vm.c) map pages of the heap
-- (src/buddy.c). The console (src/console.c) collects typed lines, which processes read. All parts use
-- the byte and string routines of src/lib/string.c.
--
-- The files, each with modules of lemmas and a module of tests below it:
--   Prelude   library names, Boolean tests, lists indexed by native numbers
--   Int       C's `int` results as integers
--   Outcome   a result, a panic, or waiting: what a kernel routine comes to
--   Strings   src/lib/string.c: strncmp, memcmp, strlen, strnlen, strncpy, safestrcpy, memmove,
--             memset and strtoul; memory is a function from addresses to bytes
--   Lock      src/arm.c (pushcli, popcli) and src/spinlock.c (acquire, release, holding) on one CPU;
--             Lock/Smp has the accesses of any number of CPUs, interleaved, with the variable cpu of
--             src/main.c that they share
--   Pipe      src/pipe.c: pipewrite, piperead, pipeclose; a call runs until it returns or sleeps, and
--             Pipe/Traffic interleaves the calls of a writer and a reader
--   Ide       src/memide.c: iderw and its panics
--   Bio       src/bio.c: binit, bget, bread, bwrite, brelse; the ring of buffers is a list of slots,
--             most recently used first
--   Ints      the little-endian words that casts of a buffer's bytes read and write
--   Log       src/log.c: install_trans, read_head, write_head, recover_from_log, begin_trans,
--             commit_trans, log_write and initlog; a crash stops a commit between two of its writes
--             of the disk, and recovery starts from an empty cache; Log/Atomic has whole transactions
--   Proc      src/proc.c: allocproc, fork, exit, wait, sleep, wakeup, kill, yield, sched and the
--             scheduler, each from taking ptable.lock to giving it up
--   Buddy     src/buddy.c: kmem_init2, kmalloc, kfree, get_order; the marks of each order are kept apart,
--             which Buddy/Areas justifies by their places in memory; Buddy/History has the calls of all
--             users of the heap, one after another
--   Fs        src/fs.c: the bitmap (balloc, bfree), the inodes on the disk and in the cache (ialloc,
--             iupdate, iget, idup, ilock, iunlock, iput), their content (bmap, itrunc, readi,
--             writei), directories (dirlookup, dirlink) and path names (skipelem, namex); Fs/Alloc and
--             Fs/Free run balloc, bfree and iupdate in an open transaction of the log
--   Vm        src/vm.c: the tables as 64-bit words at the kernel's addresses, the bytes of pages as a
--             memory of its own (no page is taken to overlap a table); kpt_alloc, kpt_free,
--             walkpgdir, mappages; Vm/User has inituvm, loaduvm, allocuvm, deallocuvm, freevm,
--             copyuvm, clearpteu, uva2ka and copyout, over Buddy and the readi of Fs
--   Console   src/console.c: consoleintr at the keys that getc gives, consoleread, consolewrite;
--             Console/Print has printint and cprintf, with the text at an address as an argument;
--             what the UART is sent is a list of bytes
--   Usr       src/usr: Usr/Grep has the matcher of src/usr/grep.c, Usr/Grep/Lines the loop of grep over
--             the bytes that its reads give
--   File      src/file.c: the counts of holders of open files (filealloc, filedup, fileclose)
--   Syscall   src/syscall.c and src/sysfile.c: the checks of arguments (fetchint, fetchstr, argint,
--             argptr, argstr, argfd) and fdalloc
--
-- Numbers. C's unsigned fields are natural numbers with the wrap-around of their width written out
-- where the code computes with them. Every loop is a recursion on the number of rounds that its
-- bounds give it, or on the list or text that it walks, so each ends. The loop of namex is the
-- exception: it gets one round more than the path has bytes, and each round leaves a shorter path.
-- The loop of printint gets 64 rounds, since each at least halves a number of 64 bits.
--
-- What callers or the machine supply is an argument: the page for a kernel stack, the copy of an
-- address space, the contents of memory, the functions of device drivers (devsw). A spinning or
-- sleeping routine is `waits` or a stop value, and goes on by another call.
--
-- Not modelled: the reading and writing of files (src/file.c), the bodies of system calls
-- (src/sysproc.c, src/sysfile.c), src/kalloc.c, the navigation of pages (src/kernel) and program
-- loading (src/exec.c), which build on the parts above; the switch of page tables (switchuvm), the
-- map of the kernel (paging_init), traps, boot code and device drivers, which are hardware access; the
-- other programs of src/usr and the tool of src/tools.
pub mod Prelude
pub mod Int
pub mod Outcome
pub mod Strings
pub mod Lock
pub mod Pipe
pub mod Ide
pub mod Bio
pub mod Ints
pub mod Log
pub mod Proc
pub mod File
pub mod Syscall
pub mod Buddy
pub mod Fs
pub mod Vm
pub mod Console
pub mod Usr
