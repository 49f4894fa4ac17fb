-- ===== src/Lib.antt =====
-- A model of the kernel in antt, and of its user library and grep: the code of kernel/ and user/ that
-- carries its own logic, as functions over explicit state, and the theorems that make it correct.
--
-- Conventions. A C struct is a record with the struct's fields, an array a list or a function of the
-- index, a pointer into a kernel table an index, any other pointer an address (0 is the null
-- pointer). A `uint` keeps its wrap (add32 and sub32 of Base); other numbers are natural numbers. A
-- function that may panic returns an Option, `none` being the panic; where C returns -1 the model
-- says so at the function. A spinlock makes the code between `acquire` and `release` one step, and a
-- call of `sleep` ends a step: the function says where it sleeps, and a later step goes on from
-- there. Loops over tables and counted loops are structural recursion; no theorem about a loop on
-- fuel leaves the fuel open.
--
-- The parts, and the files that model them:
--   Base        shared names, C's tests, arrays as lists, machine words.
--   Kalloc      kernel/kalloc.c, the page allocator: kfree, kalloc, freerange and kinit over a memory
--               of 64-bit words. freerange runs on fuel PHYSTOP / 4096 + 1, one more than the pages.
--   Strings     kernel/string.c over memories of bytes.
--   Proc        kernel/proc.c and proc.h: the process table, wakeup, kill, reparent, sleep, yield and
--               the scheduler's choice; Proc/Life has allocproc and freeproc, Proc/Life/Family has
--               fork, exit and wait. They take what they call of memory, files and the log as the
--               record Services. Proc/System is the whole as a step relation.
--   Pipe        kernel/pipe.c: pipewrite, piperead and pipeclose, with the process table for the
--               wakeups, over the user memory of the caller as the record UserSpace; Pipe/Alloc has
--               pipealloc, over the file table and the page allocator.
--   Console     kernel/console.c: the line editor of consoleintr, consoleread and consolewrite.
--   File        kernel/file.c: reference counts, and reads and writes by a file's type, over the record
--               FileOps of the calls to pipes, devices, inodes and the log. filewrite's loop runs on
--               fuel n, a turn for each byte.
--   Vm          kernel/vm.c: walk, mappages and uvmunmap over the memory of Kalloc; Vm/User has what is
--               built on them, Vm/Copy copyin and copyout, Vm/Either the copies of proc.c that choose
--               between them and memmove, Vm/Through the user's memory seen through its table, and
--               Vm/Instr copyinstr. mappages runs on fuel MAXVA / 4096 + 1, with which a loop that passes
--               its last page meets the panic of walk; the copies run on fuel len, copyinstr on max,
--               and freewalk on the three levels of a table.
--   Bio         kernel/bio.c: the cache's buffers as a list in the order of use, whose links
--               Bio/Links and Bio/Order relate to the source's pointers; Bio/Get has bget.
--   Fs          kernel/fs.c: balloc and bfree over the bytes of the bitmap; Fs/Icache has the entries
--               of the inode cache, Fs/Inode the inodes on the disk and the blocks of a file,
--               Fs/Contents readi and writei, Fs/Dirs directories as arrays of entries, and Fs/Paths
--               skipelem and namex over paths as lists of characters. readi and writei run on fuel n,
--               the scans of a directory on its size + 1, and namex on the length of its path.
--   Locks       kernel/spinlock.c and sleeplock.c; Locks/Mutex has several CPUs that take turns.
--   Log         kernel/log.c: the write-ahead log. Functions return the disk writes that they make,
--               so that a crash is a prefix of them. bread returns the contents that the buffer cache
--               shows, and the count of references to the buffer of each block is kept.
--   Print       kernel/printf.c as the characters that it prints, and Print/User user/printf.c. The
--               loop of a number's digits runs on fuel x + 1 for the number x.
--   Syscall     kernel/syscall.c and sysproc.c: the arguments, the dispatch, growproc, sbrk, sleep and
--               rename.
--   Sysfile     kernel/sysfile.c: Sysfile/Fd has the descriptors and sys_pipe, Sysfile/Inodes
--               link, unlink, create, mkdir, mknod, chdir and open.
--   Virtio      kernel/virtio_disk.c: the descriptors and their chains, a request, and the interrupt.
--               free_chain runs on fuel 8, since the ninth descriptor would be a free one, which is a
--               panic; the interrupt's loop runs on a fuel that is given, of which 8 is enough.
--   Uart        kernel/uart.c: the transmit buffer and the interrupt.
--   Ulib        user/ulib.c over strings as lists of characters.
--   Grep        user/grep.c: the matcher of regular expressions.
--
-- Not modelled: the hardware's start (start.c, main.c, plic.c, uartinit, virtio_disk_init and the
-- assembly), traps, exec and sys_exec, and the wrappers of system calls that only pass on; the
-- shell, user/umalloc.c and the other user programs, mkfs and the tests; the text of panics. A
-- process's lock and the order of locks are not part of the state, since every step holds the locks
-- that its source holds; so `exit` reads a parent and locks it in one step, and a re-parenting between
-- the two is not in the model.
pub mod Base
pub mod Bio
pub mod Console
pub mod File
pub mod Fs
pub mod Grep
pub mod Kalloc
pub mod Locks
pub mod Log
pub mod Pipe
pub mod Print
pub mod Proc
pub mod Strings
pub mod Syscall
pub mod Sysfile
pub mod Uart
pub mod Ulib
pub mod Virtio
pub mod Vm
