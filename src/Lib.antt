-- ===== src/Lib.antt =====
-- MagicBox, a small kernel for 32-bit x86: its core data structures and system calls, modelled as
-- functions and step relations, with the theorems that make them correct.
--
-- The kernel keeps physical pages in two pools of a buddy allocator (mm/buddy.c). Pipes and named
-- pipes (fs/pipe.c, fs/fifo.c) pass bytes through a character ring (device/ioqueue.c), which
-- terminals use too. The areas of an address space (mm/vma.c) say what a process has mapped.
-- A process is interrupted by signals (kernel/signal.c), and its end (userprog/wait_exit.c) sends
-- one to its parent, which waits for it. Bitmaps (lib/kernel/bitmap.c) record which disk blocks and
-- inodes are in use. Disk blocks go through a write-back cache (device/block/ide_buffer.c).
--
-- The files:
--   * Prelude: the shared names, lists, Boolean tests and the laws of bit operations;
--   * Bitmap: lib/kernel/bitmap.c, one function for each function of the file;
--   * IoQueue: device/ioqueue.c; IoQueue/Queue is what a queue stands for;
--   * Pipe: fs/pipe.c and fs/fifo.c; the theorems use IoQueue by what its operations promise
--     (IoQueue/Refine), and Pipe/Stream puts the rounds of any number of calls together;
--   * Files: fs/file_table.c and with it `sys_pipe`;
--   * Buddy: mm/buddy.c; Buddy/Owned is its invariant, Buddy/Moves its elementary changes,
--     Buddy/Merging a merge of two blocks and Buddy/Merged the block that a release leaves;
--   * Vma: mm/vma.c; Vma/Sorted is the order of a list, Vma/View what its areas map, Vma/Offset which
--     bytes of a file the page fault of mm/swap.c shows in them;
--   * Signal: kernel/signal.c; Signal/Sets is the sets, Signal/Frame the saved registers, Signal/Deliver
--     the choice of the signal;
--   * Sync: thread/sync.c; Sync/Exclusion is the steps of any number of tasks;
--   * BlockCache: device/block/ide_buffer.c; BlockCache/Transfer and BlockCache/Flush are its reads, writes
--     and the sync thread, BlockCache/Coherent the invariant and what the cache stands for;
--   * Processes: the end of a process and the wait for it in userprog/wait_exit.c; Processes/Groups is
--     the signals to processes and groups;
--   * Timers: device/timer.c, on the tasks of Scheduler; Timers/Ascends is the order of its lists;
--   * Scheduler: the choice of the next task in thread/thread.c.
--
-- A 32-bit number is a natural number with its wrap-around written out. A loop runs on fuel or on
-- the number of rounds that remain: `bitmap_scan` on the bytes of the map, `buddy_init` on the pages
-- of the pool, the eviction of the cache on its buffers, `palloc_pages` and `pfree_pages` on the
-- orders that are left. The invariants are proved of the results of these runs,
-- so the fuel is enough. A failed `ASSERT` is a result of its own.
-- Outside the block cache, interrupts are off from the first statement to the last of each modelled
-- function or round, or the lock of its data is held, so that these are single steps. The functions
-- of the cache release its lock while a disk is read or written, and are taken one after the other.
--
-- Not modelled: the creation of threads and processes, access to ports and page tables, start-up,
-- the programs and tests, the file systems, and most calls on open files.
pub mod Bitmap
pub mod BlockCache
pub mod Buddy
pub mod Files
pub mod IoQueue
pub mod Pipe
pub mod Prelude
pub mod Processes
pub mod Scheduler
pub mod Signal
pub mod Sync
pub mod Timers
pub mod Vma
