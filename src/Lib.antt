-- ===== src/Lib.antt =====
-- Verification of Junction, a library OS that runs Linux programs in user space over caladan.
--
-- Each part of the program is a module with the state as a record and the operations as functions
-- from a state to a result and the next state. A lock is taken around an operation, so one
-- operation is one step; where an operation may wait, how the wait ends is an argument. In Pipe and
-- Futex the threads interleave: a step is one access without the lock, or a part of a section with
-- it. Poll.Epoll.Torn and MessageChannel.Torn are about a thread that comes in the middle of an
-- operation whose parts hold different locks, or none. Calls of the host kernel are arguments too.
-- Words of 64 bits are natural numbers with the wrap-around written out.
--
--   Prelude       library names, tests, 64-bit words (add64, sub64), error values (base/error.h),
--                 tabulated lists, integers
--   IntervalSet   junction/base/interval_set.h, ExclusiveIntervalSet. The std::map is the list of
--                 its items in the order of their ends. Specified by the partial function from
--                 addresses to attributes (Valid.view). IntervalData is the interface of an item and
--                 IntervalLaws what the class relies on; SimpleInterval (Simple) and VMArea (Mm)
--                 implement it. Children: Clear, Insert, Modify, FreeRange, Spec
--   Bits          junction/base/bits.h and the page helpers of junction/base/arch.h
--   Mm            junction/kernel/mm.h, VMArea; Map is MemoryMap of junction/kernel/mm.cc: SetBreak,
--                 MProtect, MUnmap, MunmapCheck, over IntervalSet
--   ByteChannel   junction/base/byte_channel.h, a ring of bytes with free-running indices; Vectored has
--                 Readv, Writev, save and load
--   MessageChannel  junction/base/message_channel.h, a ring of messages with auxiliary data (Fifo:
--                 as a bounded queue)
--   Io            junction/base/io.h and io.cc: GenericCopyv, WritevFull, ReadFull, WriteFull and the
--                 buffered reader and writer, over any reader or writer that keeps the laws of Io.Transfer
--                 and Io.Buffered; Io.Channel is the instance of a byte channel
--   Pipe          junction/fs/pipe.h, WaitableChannel over a byte channel: Threads has one reader and one
--                 writer as a step relation, with the lock, the wakers, signals and closing
--   Futex         junction/kernel/futex.h and futex.cc: Threads has any number of threads that wait and
--                 wake as a step relation, with the locks of the buckets
--   AdvisoryLock  junction/fs/advisory_lock.h and advisory_lock.cc, the record locks of an inode
--   EventFd       junction/fs/eventfd.cc, the counter of an event file and its poll bits
--   SignalQueue   junction/kernel/signal.h and signal.cc, the pending signals
--   Signals       junction/kernel/signal.h and signal.cc, the actions of a process and the masks,
--                 notification and next signal of a thread (Steps: histories; Calls: system calls)
--   Lowest        __builtin_ffsl, for SignalQueue and Bitmap
--   MemFile       junction/fs/memfs/memfs.h and memfs.cc, a file in memory
--   FileTable     junction/fs/file.h and file.cc, descriptors and close-on-exec bits;
--                 Calls has the system calls on descriptors alone
--   Time          junction/base/time.h, conversions and wrapping arithmetic
--   Itimer        junction/kernel/itimer.h and itimer.cc, the real interval timer
--   Bitmap        junction/base/bitmap.h, dynamic_bitmap and find_next over 64-bit words
--   Poll          junction/fs/poll.h and poll.cc: Epoll has the observers of epoll files in a store, with the
--                 lists of the sources and of the ready ones (Steps: histories; Calls: epoll_ctl and
--                 epoll_wait), Request is poll(), Select is select()
--
-- Memory maps use the interval set for their mappings and for the regions of all maps. Pipes run over
-- byte channels, and the vectored calls of both channels over the copy of Io. The other parts stand
-- alone; Signals has two queues of SignalQueue. Loops are structural recursion; std::bit_ceil takes
-- 64 doublings, which reach 2 ^ 64; find_next has fuel for one word more than the bitmap has, the
-- vector copy for one round more than there are buffers, the choice of a signal for one round more
-- than the queues have entries, and a transfer for one call per byte, or one more for a vector. Runs
-- on concrete data stand in the Tests modules.
--
-- Not modelled: the caladan runtime, serialization (cereal), the host kernel, page access tracing,
-- the effects of closing a file on its inode and on procfs; of the memory map also MMap, MAdvise and
-- the fault handler; of pipes those of messages and several writers; of Io the stream buffers; of
-- Poll the wakers, the masks of signals, PollSourceSet and the closing of an epoll file; of signals
-- the frames on the stack, user interrupts, page faults and kill; of the files in memory mapping and
-- directories. Processes, path lookup, the other file systems and sockets are not modelled either.
pub mod Prelude
pub mod IntervalSet
pub mod Bits
pub mod Mm
pub mod ByteChannel
pub mod AdvisoryLock
pub mod EventFd
pub mod Lowest
pub mod SignalQueue
pub mod FileTable
pub mod Time
pub mod Bitmap
pub mod Futex
pub mod Pipe
pub mod Io
pub mod MessageChannel
pub mod Itimer
pub mod Poll
pub mod Signals
pub mod MemFile
