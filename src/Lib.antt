-- ===== src/Lib.antt =====
-- The core of UME, an engine that records the memory events of a program in a journal, replays
-- them, and keeps statistics of what is allocated in which tier of memory.
--
-- Events of 128 bytes are appended to a journal: numbered segments, memory-mapped files with a
-- checksummed header and checksummed records. A replay reads the journal in order and hands each
-- event to a dispatcher, which calls the subscribers whose filter matches. One of them is the
-- analyzer, which rebuilds the table of active allocations and drives the statistics collector.
-- The scheduler picks a tier for an allocation from the statistics, the digital twin rates the
-- tiers that are candidates, and the placement engine queues such decisions. What objects are accessed
-- feeds three more engines: the learning engine keeps a pattern of each object, from which the
-- prediction engine forecasts its tier; the prefetch engine finds strides and asks for what comes
-- next; the optimizer ages the objects and moves the cold and the hot ones. The last two hand their
-- requests to the placement engine, each from a thread of its own. The advisor puts the statistics
-- into words. Beside them stand the lock-free queues that threads pass work through, the
-- hazard pointers and the epochs that guard shared nodes, the string interner, and the settings.
--
-- Where each part is modelled (paths from the root of the repository):
--   Status, Types   core/include/ume/status.h, types.h, event/event_types.h
--   Config          core/include/ume/config.h, core/src/config.cpp
--   Event           core/include/ume/event/event.h; Event.Codec is its layout in bytes
--   Crc, Serializer core/src/event/event_serializer.cpp
--   Mmap            core/src/platform/mmap.cpp (POSIX): descriptors and mappings
--   Journal         Journal.Disk: what mmap.cpp does to files; Journal.Writer:
--                   core/src/event/journal_writer.cpp; Journal.Reader: journal_reader.cpp;
--                   Journal.Paths: the paths of segments, and the order that the reader sorts them in
--   Replay          core/src/event/replay_engine.cpp, with damaged records in Replay.Damage, and
--                   with the analyzer behind it in Replay.Recovery
--   Dispatcher      core/src/event/event_dispatcher.cpp
--   Statistics      core/src/event/memory_statistics.cpp
--   Analyzer        core/src/event/event_analyzer.cpp
--   Scheduler       core/src/event/memory_scheduler.cpp
--   Placement       core/src/event/memory_placement.cpp
--   Learning        core/src/event/pattern_learning.cpp; Learning.Format is the file of patterns
--   Prediction      core/src/event/prediction_engine.cpp: the cache; Prediction.Hybrid is the predictor,
--                   and Prediction.Expiry how long a prediction is served
--   Prefetch        core/src/event/prefetch_engine.cpp; Prefetch.Worker has its threads
--   Optimizer       core/src/event/memory_optimizer.cpp; Optimizer.Pass is optimize_pass
--   Advisor         core/src/event/memory_advisor.cpp
--   Spsc, Hazard    core/include/ume/concurrency/spsc_queue.h, hazard_pointers.h
--   Mpsc            core/include/ume/concurrency/mpsc_queue.h
--   Twin            core/src/event/digital_twin.cpp
--   Interner        core/src/concurrency/string_interner.cpp
--   Epoch           core/src/concurrency/epoch_rcu.cpp
--
-- Definitions have the names of the functions they model (open is open_writer, since open is
-- reserved in this language). The state of a class is a record with a field for each member; a
-- method takes the state and returns the new one beside its result. Enumerations that are read
-- from buffers are numbers, so that a foreign value is a value. Numbers are natural; arithmetic
-- that can wrap says so (add64, sub64).
--
-- Bytes of files are functions from offsets, so that segments of any size are cheap. The disk is a
-- list of files named by segment number, and a shared mapping is the name of its file. What the
-- system calls answer, what the clock reads, and the listing of a directory are parameters;
-- operations on doubles (Floating) and the conversions between numbers and texts are parameters too,
-- with the laws that a result uses as its hypotheses.
--
-- Loops that the source leaves unbounded take fuel and answer none when it is used up: the loop of
-- read_next, and the loop of a replay. For a journal of n appends, fuel above n is enough for
-- the second, and for the first above n and the number of records that are skipped, since every round
-- either returns, or skips a record, or leaves a segment for the next one. The paths of segments are
-- sorted as texts, which is the order of their numbers up to a million segments. A call of the epochs'
-- reclaim takes twice the number of slots and seven steps. Bounds on the number of steps keep the
-- counters of 64 bits from wrapping, in Epoch and Mpsc.
--
-- The journal's writer is modelled one call at a time down to the bytes, and with its threads
-- interleaved down to the places of the records (Journal.Appends). The SPSC queue is modelled with
-- its two threads interleaved at every access to shared memory, in one order that both see, and the
-- epochs and the MPSC queue likewise with any number of threads. The prefetch engine and its worker
-- are interleaved where they let go of the lock.
--
-- Not modelled: weaker memory orders, the Windows branches, the wrappers of clock, threads and
-- dynamic libraries, the user interface and the benchmarks.
pub mod Prelude
pub mod Status
pub mod Types
pub mod Bits
pub mod Bytes
pub mod Crc
pub mod Event
pub mod Serializer
pub mod Mmap
pub mod Journal
pub mod Dispatcher
pub mod Replay
pub mod Statistics
pub mod Analyzer
pub mod Spsc
pub mod Floating
pub mod Hazard
pub mod Placement
pub mod Scheduler
pub mod Learning
pub mod Advisor
pub mod Optimizer
pub mod Prediction
pub mod Prefetch
pub mod Config
pub mod Interner
pub mod Twin
pub mod Epoch
pub mod Mpsc
