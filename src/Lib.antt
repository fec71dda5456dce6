-- ===== src/Lib.antt =====
-- A model of the storage layer of TreeLine (page_grouping/, wal/, bufmgr/,
-- record_cache/, util/), and what makes it correct.
--
-- TreeLine keeps records in segments of 1, 2, 4, 8 or 16 pages on disk. The segment builder cuts a sorted
-- stream of records into segments. The segment index maps the lower bound of a segment to where it lies,
-- its id. The lock manager locks segments, for readers, writers and reorganisations, and the pages of a
-- segment. The free list keeps the places of segments that were rewritten, for the next segments of that
-- size. The page buffer hands out memory for the pages that a scan prefetches. The write-ahead log keeps
-- entries of any size in blocks of a fixed one, and gives them back when it is read; its manager keeps a
-- log file for each generation of records, and replays them after a restart. The buffer manager of the
-- earlier engine keeps pages in frames, and evicts those that are not fixed. The record cache keeps records
-- in front of the segments; the database checks what is loaded and merges what the cache and the segments
-- have.
--
-- The parts, and the files that model them:
-- - Prelude: Boolean tests on numbers, lists measured by native numbers.
-- - Locks (page_grouping/lock_manager.{h,cc}): Locks/Modes has the modes, the counters and the closures
--   that run under a bucket's lock; Locks/Table the interface of the concurrent hash map; Locks/Segments
--   and Locks/Pages the operations on segments and pages (TryAcquireSegmentLock is try_acquire_segment_lock,
--   and so on). Locks/Holders and Locks/Pages/Holders are the specification: the list of the holders of a
--   lock, and the tables of compatible modes. Locks/Tracks relates counters and holders, and Locks/History,
--   Locks/Exclusion, Locks/Upgrade and Locks/Pages/History state what histories of calls do.
--   Locks/Pages/Ids is about the ids of page locks.
-- - Segments (page_grouping/persist/segment_id.{h,cc}, page_grouping/segment_info.h): the packed id of a
--   segment (Segments/Packing) and the overflow flag in it (Segments/Flags).
-- - SegmentIndex (page_grouping/segment_index.cc): SegmentIndex/OrderedMap is the interface of the map,
--   SegmentIndex/Lookup has the lookups, SegmentIndex/Locking and SegmentIndex/Rewrite
--   those that lock what they find, SegmentIndex/Tiling how the segments cover the keys,
--   SegmentIndex/Current what is locked.
-- - FreeList (page_grouping/free_list.{h,cc}): FreeList/Queues is its view as one queue for each size.
-- - PageBuffer (page_grouping/circular_page_buffer.h): PageBuffer/Window is the list of allocated pages,
--   PageBuffer/Order the operations on it.
-- - Manager (page_grouping/manager.cc): Manager/Store has the pages on disk and GetWithPages, over interfaces
--   for pages and locks; Manager/Write has WriteToSegment, Manager/PutBatch the loop of PutBatchImpl.
--   Manager/Allocate is about new overflow pages; Manager/Chains, Manager/Changes and Manager/Link say what a
--   page and its overflow page read as when one is written or linked, Manager/Sound, Manager/Steps and
--   Manager/Record go through the steps for one record, Manager/Batch, Manager/Split and Manager/Puts are about
--   a batch, Manager/Stale about a lost update.
-- - Builder (page_grouping/segment_builder.{h,cc}): Builder/Model has the operations, Builder/Records what
--   the builder holds, Builder/Conserve is about Offer, Builder/Finish about Finish, Builder/Dataset about
--   BuildFromDataset.
-- - Coding (util/coding.{h,cc}): Coding/Fixed, Coding/Varint and Coding/Prefixed are about its three codes.
-- - Wal (wal/format.h, wal/writer.cc, wal/reader.cc, util/crc32c.h): Wal/Format has the record types and the
--   masked checksum, Wal/Writer the writer, Wal/Reader the reader of physical records and Wal/Entries that of
--   entries (read_all is the loop of a caller that reads until ReadEntry returns false). Wal/Ends is about
--   any log; Wal/Parse, Wal/Place, Wal/Collect, Wal/Fragments, Wal/RoundTrip and Wal/Logs lead from one
--   record to a whole log.
-- - Wal/Manager (wal/manager.{h,cc}, db/format.h): Wal/Manager.antt has the records, the versions and the
--   operations in write mode, Wal/Manager/Replay the replay, over the state that the callback keeps.
--   Wal/Manager/Spec is the specification, a log as generations of records, and Wal/Manager/Generations what
--   files such a log has; Wal/Manager/Serial is about the form of a record, Wal/Manager/Versions about the
--   order of the versions, Wal/Manager/Writes about LogWrite, Wal/Manager/History about histories of calls,
--   Wal/Manager/Restart about a replay after them.
-- - Buffers (util/hash_queue.h, bufmgr/): Buffers/HashQueue has the queue, Buffers/Queues and Buffers/Calls
--   are about it; Buffers/Frames has the frames and the eviction strategies, Buffers/Strategy is about the
--   two queues; Buffers/Pool has the buffer manager, Buffers/Sound the invariant, and Buffers/Start,
--   Buffers/Fix, Buffers/Unfix, Buffers/Evict, Buffers/Load and Buffers/Misses go through its operations.
-- - RecordCache (record_cache/): RecordCache.antt has the metadata byte of an entry and the clock of
--   SelectForEviction; RecordCache/Metadata is about the byte, RecordCache/Priorities and RecordCache/Clock
--   about the clock, RecordCache/Put about the metadata that Put leaves. RecordCache/Cache has the entries, the
--   tree, the store behind them, WriteOutDirty and Put; RecordCache/Coherent, RecordCache/Install,
--   RecordCache/WriteOne, RecordCache/Scan, RecordCache/ReadWrite and RecordCache/Refines lead to what Put does
--   to the map that they are read as, and RecordCache/Flush to what WriteOutDirty does to the store.
-- - PageDb (page_grouping/pg_db_impl.cc): PageDb.antt has the checks of BulkLoad (PageDb/Load) and GetRange
--   (PageDb/Scan) with its merge (PageDb/Merge).
-- - Tests: concrete tables for the interfaces, and runs.
--
-- State is passed explicitly: an operation takes the state and returns the next one. A failed check, an
-- assertion that fails or an access out of bounds is `none`. Counters are 16 bits and wrap; keys and ids
-- are 64 bits. A blocking call takes the list of what the other threads do during its waits, one entry for
-- each wait, and `none` is a caller that still waits when that list ends.
--
-- Fuel: Offer and Finish re-offer the records that are left when a segment is cut, and so call themselves.
-- Each cut segment takes one record at least, so one unit more than the records kept is enough. The loops
-- of the varint codes run nine rounds at most, since 2 ^ 64 is below 2 * 128 ^ 9. The writer of the log uses
-- a round for each byte of an entry at most, and one more at the end of a block, and twice the length and
-- two is more than that. The reader uses a byte at least in each round.
--
-- A round of PutBatchImpl writes a record or is one of at most a thousand attempts, and so a thousand rounds for
-- each record and a thousand more are enough.
--
-- The clock takes one off the priority of an entry in each round that does not end, and so seven rounds for
-- each entry and one more are enough.
--
-- A replay reads each file with a round for each record and one for the end, and so the rounds and the fuel
-- have to be more than the records of a file and what the longest of them takes.
--
-- The block size of the log is a parameter; it is 32768 in the source.
--
-- Parameters: the concurrent hash map (libcuckoo), the ordered map (tlx::btree_map) and the crc32c checksum
-- are interfaces with their documented behaviour. So are two parts of the repository that are not modelled. The
-- piecewise linear regression (page_grouping/plr/) works on floats; its laws are about one line of a stream of
-- points that starts at (0, 0) and ascends, as the segment builder offers it, and so the builder's theorems
-- are about keys that ascend. They also need pages of a record at least, and of half as many as the
-- error bound, which the builder's constructor does not check. The bytes of a page (page_grouping/persist/) are
-- behind `PageOps`; its laws are about keys within the boundaries of the page, since a page keeps its keys
-- without their common prefix.
--
-- Not modelled: files, memory, threads and the mutexes around the index and the free list, whose operations
-- are taken to be atomic; failing reads and writes inside the log's reader and writer; names of log files
-- that are no numbers; shrinking the buffer pool, and what other threads do while one call of the buffer
-- manager runs; other threads, the queue policy, scans, and ClearCache and ExtractDirty of the record cache; the
-- rewrites, scans and loading of the manager of segments, its background threads, the bytes of pages, the other
-- operations of the page-grouped database, and the rest of the earlier database engine.
pub mod Prelude
pub mod Locks
pub mod Segments
pub mod PageBuffer
pub mod FreeList
pub mod SegmentIndex
pub mod Coding
pub mod Builder
pub mod Wal
pub mod Tests
pub mod Buffers
pub mod RecordCache
pub mod Manager
pub mod PageDb
