-- ===== src/Lib.antt =====
-- MOS with swapping: a model of the kernel under kern/, of the file system server under fs/, of the
-- printing in lib/, of the pipes in user/lib/, the parser of the shell and the image of the disk,
-- and what is proved of them.
--
-- The program is a small MIPS kernel. kern/pmap.c owns the physical pages, the two-level page
-- tables and the swapping of pages to a second disk; kern/env.c owns the environments (processes)
-- with their identifiers and address spaces; kern/sched.c picks the environment that runs;
-- kern/tlbex.c answers TLB misses and allocates pages on demand; kern/syscall_all.c is what user
-- programs call. An allocation may swap pages out, a lookup of a swapped entry swaps it back in,
-- and a system call may end in the scheduler. fs/fs.c is the file system server, a user program: it
-- caches the disk's blocks in its own pages and keeps a bitmap, files and directories in them.
-- fs/serv.c answers the requests of its clients, and tools/fsformat.c writes the image that it
-- starts with. user/lib/pipe.c moves bytes between programs through a page that they share, and
-- user/sh.c is the shell.
--
-- Files:
-- Mmu: the constants and macros of include/mmu.h. Kernel: the structs and global variables of
--   include/env.h, include/trap.h, include/swap.h and include/pmap.h, and how kernel code ends.
-- Pmap.Sdisk, Pmap.Swap, Pmap.SwapBack, Pmap.Pages, Pmap.Table: kern/pmap.c, and `va2pa` and the TLB
--   refill of kern/tlbex.c, in the order in which its functions call each other.
-- Pmap.TlbMod: `do_tlb_mod` of kern/tlbex.c. Boot: the allocator of kern/pmap.c that runs at boot.
-- Pmap.Driver: the register driver of the swap disk in kern/pmap.c, over a device that is a parameter.
-- Fs: the constants of user/include/fs.h and fs/serv.h and the server's state. Fs.Cache: the block
--   cache and the bitmap of fs/fs.c. Fs.Files: the blocks of a file. Fs.Dirs: directories and paths.
--   Fs.Start: `fs_init`. Serv: fs/serv.c, which answers requests with the routines of Fs.
-- Fsformat: tools/fsformat.c up to a file and its blocks. Fsformat.Trees: directories and `main`.
-- Print: lib/print.c. Print.Format: its `vprintfmt`.
-- ElfLoader: `elf_load_seg` of lib/elfloader.c, over the `map_page` of its caller.
-- User.Pipe: the loops of user/lib/pipe.c. User.Fd: user/lib/fd.c, and `pipe` and `pipe_close`.
-- User.Shell: `_gettoken` and `gettoken` of user/sh.c, with `strchr` of lib/string.c.
--   User.Shell.Parse: `parsecmd`, over the calls that it makes, which are a record of functions.
-- Strings: `memcpy` and `memset` of lib/string.c, on memory as bytes.
-- Env.Asid, Env.Ids, Env.Life: kern/env.c. Sched: kern/sched.c and `env_destroy`.
-- Syscall.Range, Syscall.Memory, Syscall.Process, Syscall.Ipc, Syscall.Dispatch:
--   kern/syscall_all.c. Modules below these hold the proofs, and Tests examples.
-- Prelude: lists, bits of words, and bitmaps in arrays of words.
--
-- How the state is modelled. A kseg0 pointer is the physical address it stands for, a page is its
-- number and an environment its index. The intrusive lists of include/queue.h are lists. A removal
-- from `env_sched_list` of an environment that is off it goes through the links that it has kept,
-- of its last removal: without any it writes through NULL; where its old neighbours are still next
-- to each other it changes nothing; else it may cut other elements off, which is an outcome of its
-- own, `stale`, where the model ends. From the other lists the code removes what is on them. A page
-- is linked in `page_swap_queue` exactly where one of its links is not NULL, since the code clears
-- both at each removal. The `SwapInfo`s are interchangeable, so the free ones are a count. Memory
-- is read and written by aligned 32-bit words, and the swap disk holds blocks of words; there the
-- transfer of a page is one step that ends, and only Pmap.Driver has the polling loop. The TLB is a
-- log of the arguments of `tlb_out`. Code that panics or reads through NULL ends in an outcome of
-- its own. `env_pop_tf` leaves the kernel, so a run ends there. Arithmetic on 32-bit words is
-- written with its wrap-around, and on the 16-bit `pp_ref` too.
--
-- The file system server has its own state: memory by words, which pages of the block cache are
-- mapped and which are dirty, and a disk of blocks of words. A file is the address of its `struct
-- File`, so that two names for the same words share them. `syscall_mem_alloc` succeeds or not as a
-- sequence of answers in the state says; the other system calls of the server do not fail, since
-- they are on pages that are mapped. `ide_read` and `ide_write` move one whole block. A text is the
-- list of its character codes, without the zero. What goes to the `out` callback of lib/print.c is
-- one list; a call that reads an argument that is not there is undefined. `int` and `long` have 32
-- bits. A pipe is a shared record and two processes that take one access to it at a time, in any
-- order; the answer of `_pipe_is_closed` is part of the order. A program with descriptors has a
-- mapping of its pages and the words of physical pages, so that shared pages are shared; the
-- devices of `devtab` are records of operations, and a descriptor's number is not negative. `readn`
-- counts without a bound; its `int tot` is compared as a u_int, and its result is that count for
-- less than 2^31 bytes.
--
-- The requests of fs/serv.c come in as a list. `pageref` is a function of the page that comes with
-- each request, since clients map and unmap the pages of open files in between; a request's page is
-- a record of the fields that the handlers read; `ipc_send` adds to a log. The shell's line is in
-- memory by byte, and the pointers of `gettoken` are addresses in it.
--
-- The image of tools/fsformat.c is blocks of words. What the host gives is data: for a file its
-- size and what each `read` makes of a block, for a directory its entries. `basename` is a
-- parameter.
--
-- Fuel: the digits of `print_num` get 32, as many as a 32-bit number has in base 2. `vprintfmt` and
-- `walk_path` get the length of their text, and every round takes a character. `readn` gets one
-- round for each byte asked for and one more, the loops of `elf_load_seg` the sizes that they count
-- to. The clock of `swap` gets the length of the queue and 101 rounds: a round clears the flag of a
-- queued page or lowers the count that starts at 100. The retry loop of `_do_tlb_refill` and the
-- polling of the disk take fuel as an argument; one round is enough for a disk that is never busy.
-- The loops of the shell over a text take the length of the text, or more; `parsecmd` takes a round
-- for each token and one more.
--
-- Not modelled: the assembly, device registers and console output; the fields of user memory that a
-- system call reads are arguments of the model; the rest of lib/; the disk registers of fs/ide.c;
-- of user/, all but the pipes (with one reader and one writer), the descriptors and the parser of
-- the shell; `dup`, `fstat` and `stat`; of tools/, all but fsformat.c; the copies of the swapping
-- code in kern/swap.c and kern/sdisk.c, which are not in use.
pub mod Prelude
pub mod Mmu
pub mod Kernel
pub mod Pmap
pub mod Env
pub mod Sched
pub mod Syscall
pub mod Strings
pub mod Boot
pub mod ElfLoader
pub mod Fs
pub mod Fsformat
pub mod Print
pub mod Serv
pub mod Tests
pub mod User
