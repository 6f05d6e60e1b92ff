-- ===== src/Lib.antt =====
-- xv6, a small Unix kernel: blocks, inodes and the log of its file system, its processes, pipes and pages.
--
-- The parts and how they interact. System calls that write the file system bracket their block
-- updates by begin_trans and commit_trans (log.c). log_write copies each changed block to a log on
-- the disk and keeps it in the buffer cache; the commit writes a header that names the blocks, copies
-- them home and erases the header. After a crash recover_from_log does the copying again. The log
-- works through the buffer cache (bio.c), which keeps NBUF blocks and calls iderw of the disk below
-- it (memide.c). fs.c allocates blocks and inodes in such transactions and keeps the inodes in use in
-- a cache of its own. Processes (proc.c) are created by fork, end by exit and are collected by wait;
-- they take pages, open files and inodes from the other parts. Pipes (pipe.c) are byte queues in
-- memory between two processes. fs.c keeps a table of the processes that have given the password of a
-- protected inode; fork and exit change it. System calls
-- (sysfile.c) fetch their arguments by syscall.c, follow paths through the directories of fs.c, and take and give
-- back locks of inodes and references to them. spinlock.c has the locks between processors. kalloc.c gives out the pages of memory for all of them,
-- and string.c moves and compares their bytes.
--
-- The files. Base: Boolean tests, lists, arrays as functions, bounded searches, little-endian words
-- (Base/Words) and the outcome of kernel code (Base/Outcome): it returns, panics or sleeps.
-- Bio: bio.c, struct buf of buf.h and iderw of memide.c. A cache holds the buffers by index, the list
-- through prev and next as a list of indices from the most recently used on, and the disk. Bio/Inv has
-- the invariant, Bio/Slots the searches of bget, Bio/Bread and Bio/Release the operations, Bio/Init
-- binit, Bio/Store what a sequence of operations leaves on the disk.
-- Log: log.c, and readsb of fs.c as initlog uses it. `update_block` is the use of log_write that its
-- comment describes, `transaction` a system call. Log/Header is about the header block, Log/Recoverable
-- says what contents a disk stands for, Log/Install, Log/Loop and Log/Recovery are about the way back
-- from a disk with a committed log, Log/Open, Log/Write and Log/Transaction about a transaction, and
-- Log/Crash puts both together.
-- Fs: the block allocator of fs.c (readsb, bzero, balloc, bfree) over the record of Fs/Store, which says
-- what fs.c uses of the blocks; Log/Visit fills it with log.c and bio.c. Fs/Bitmap is about bits of a
-- block, Fs/Alloc about balloc, Fs/Undo about bfree. Fs/Dinode has the inode as bytes of a block (struct
-- dinode of fs.h), Fs/Inode the inode cache (iget, idup, ilock, iunlock, iupdate, ialloc).
-- Fs/Contents has the contents of an inode (bmap, readi, writei, itrunc, iput) over the record of
-- Fs/Contents/Services; Fs/Contents/Buffers fills what readi uses of it with bio.c. Fs/Contents/Reading is about
-- bmap and readi.
-- File: the file table, file.c, over the record of File/Services, with File/Holders about its reference
-- counts, File/Rounds, File/Whole and File/Shadow about filewrite, and File/Passwords the passwords of files.
-- Dirs: directories in fs.c (namecmp, dirlookup, dirlink) over the record of Dirs/Services, with Dirs/Entries
-- about the bytes of the entries and Dirs/Contents about the two functions. Dirs/Buffers fills the record with the
-- inode cache and readi of fs.c over bio.c.
-- Paths: paths in fs.c, with Paths/Elements about skipelem and Paths/Settled about namex, over the record of
-- Paths/Services.
-- Syscall: the arguments of system calls, syscall.c, with Syscall/Args about their checks. Sysfile: sysfile.c.
-- Sysfile itself has the calls on descriptors, with Sysfile/Descriptors about the references that these are,
-- Sysfile/Linking and Sysfile/Creating those on paths, over the records of File/Services and
-- Sysfile/Services. Sysfile/Ledger says what such a call holds and what each service does to it, and the two
-- Balance modules follow it through the calls. Sysfile/Books keeps that ledger beside the state of any services,
-- and Sysfile/Settled states what the books say at the end. File/Shadow and Paths/Settled keep books likewise, so
-- that nothing is assumed of what the services do.
-- Proc: proc.c. Proc itself has the process table, sleep, wakeup, kill, yield and a round of the
-- scheduler, Proc/Calls fork, exit, wait and growproc over the record of Proc/Services, which says
-- what they use of memory, files and inodes. Proc/Valid has the invariant of the table, Proc/Calls/Steps
-- the steps of the processes as a relation, Proc/Rounds is about the scheduler, Proc/Killing about kill.
-- Pipe: pipe.c. Pipe/Fifo says which bytes a pipe holds, Pipe/Calls treats single calls, Pipe/Stream
-- sequences of calls. Unlocked: the table of fs.c, with Unlocked/Table about its operations.
-- Kalloc: kalloc.c, with memory as 4-byte words; Kalloc/Pages says which pages are free, Kalloc/Start is
-- about the first ones, Kalloc/Owners has the steps of a kernel that uses only its own pages.
-- Spinlock: spinlock.c, with Spinlock/Exclusion about the steps of several processors in any order.
-- Strings: string.c, with Strings/Move, Strings/Copy and Strings/Compare about its functions.
-- Each Tests module runs the code at concrete inputs.
--
-- Correspondence. Functions and fields have the names of the source. A function of the source that
-- changes shared state takes it and returns it. A part that holds a lock throughout is one step; a
-- sleep ends a step (`asleep` where nothing has changed yet, and the rest of the call for pipes and
-- wait). fork, exit and growproc are whole calls, in which no other process runs, although proc.c does not hold
-- ptable.lock throughout them. A call that one part makes of another through a record of services is the whole call, with the
-- sleeps in it.
-- uint arithmetic is modulo 2^32 where the code can wrap: the counters of a pipe, header words, the
-- start of the log and the offset of a file. nextpid is taken not to overflow, so that pids are numbers. Array indices are as in
-- the source; the table of unlocked inodes is read at inode numbers below NINODES, which is the number
-- of inodes that mkfs.c makes. log.size counts blocks and is not negative. `history` of a cache is no part
-- of the program: it records each state of the disk after a write, the newest first, so that a crash can
-- be put at any of them. Each loop has the bound that it has in the source, NBUF = 10, LOGSIZE = 10,
-- NINODE = 50, NINODES = 200, NPROC = 64, NFILE = 100 or the numbers of the superblock, or runs along the
-- bytes given; a loop that sleeps goes on only when it is called again. Only strlen has fuel, the number of
-- bytes looked at: more bytes than the string is long are enough. The loops of filewrite, readi and
-- writei have as many rounds as there are bytes, which is enough since each round moves one at least, that of
-- namex as many as the path has bytes, each of which takes one away, and those over the entries of a directory as
-- many as its size has entries, for a locked directory keeps its size.
--
-- Not modelled: of proc.c the switch between processes (sched,
-- forkret), the first process (userinit), register_handler, procdump and is_inode_open; of fs.c
-- stati and paths through symbolic links (filereadlink, filereadlinki); page tables (vm.c); of the system
-- calls the table of syscall.c, exec, pipe, readlink and the calls on passwords of sysfile.c, sysproc.c
-- and exec.c; device and start-up code, and the user programs. Device code
-- has no state that these parts read; the others do not change what is modelled here but by the
-- operations above.
pub mod Base
pub mod Bio
pub mod File
pub mod Fs
pub mod Kalloc
pub mod Log
pub mod Dirs
pub mod Paths
pub mod Pipe
pub mod Proc
pub mod Spinlock
pub mod Strings
pub mod Syscall
pub mod Sysfile
pub mod Unlocked
