-- ===== src/Lib.antt =====
-- A verification library for the storage engine of todb, a row store that keeps its data in
-- sorted string tables (SSTs) and its recent writes in a write-ahead log.
--
-- The storage crate (crates/storage/src) keeps the recent writes of a store in a memtable over a
-- skip list. A full memtable is set aside and later flushed to an SST, which `SstBuilder` makes
-- of data blocks under a tree of index blocks: `DataBlockBuilder` and `IndexBlockBuilder` lay out
-- entries behind two tables of offsets. A tower of iterators reads them back: `NormalBlockIter`
-- over the bytes of a block, `DataEntryDecodeIter` over its values, `IndexTreeIter` and `SstIter`
-- over a file, `MergeIter` and `TwoMergeIter` over all the memtables and files of a store, and a
-- scan that cuts the result to its bounds. The log (wal/) writes checksummed frames to segments,
-- each with an index and a header that is kept twice.
--
-- Files, and the code that they model:
--   Prelude       numbers, lists, Boolean tests; errors.rs as `StorageError`, and `Run`, what a
--                 call does: it returns, returns an error, or panics
--   Bytes         slices and fixed-width integers of the standard library; row_key.rs (Order)
--   Builder       builder/data_block.rs (DataBlock), builder/index_block.rs (IndexBlock), the
--                 offset tables that both write (Layout), and the SST of builder/sst.rs (Sst)
--                 with its footer (Footer)
--   Block         blocks in memory of block.rs, and builder/sst_writer.rs over them
--   Iterators     iterators/storage_iter.rs (Traits), iterators/block_iter.rs (BlockIter),
--                 iterators/data_entry_decode_iter.rs (DataEntryDecode),
--                 iterators/index_entry_decode_iter.rs (IndexEntryDecode),
--                 iterators/two_merge_iter.rs (TwoMerge), iterators/concat_iter.rs (Concat),
--                 iterators/merge_iter.rs (Merge), iterators/index_tree_iter.rs (IndexTree),
--                 iterators/sst_iter.rs (Sst), and the loop that reads an iterator to its end in
--                 lsm_store.rs (Drain)
--   Memtable      memtable.rs and iterators/map_iter.rs, over a skip list (SkipList)
--   Lsm           lsm_iter.rs (Range), write_batch.rs (Batch), lsm_state.rs (State),
--                 disk_manager.rs (Disk), and lsm_store.rs: writes and flushes (Store), and scans
--                 (Read)
--   Wal           wal/error.rs (Error), wal/frame.rs (Frame), wal/index.rs (Index), the header
--                 file of wal/segment.rs (Segment), wal/buffer.rs (Buffer), wal/config.rs
--                 (Config), the cache of wal/disk.rs (Clock) and its reads (Disk),
--                 wal/odirect_writer.rs (IndexWriter), and wal/iter.rs (Iter)
--   Examples      the theorems at concrete inputs
--
-- The parts meet at one interface: `Iter` holds the methods of an iterator in one direction, and
-- `Scans ops ahead all` says that an iterator scans the list `all` in the order `ahead`. A block
-- iterator, the decoders over any such iterator, a merge of two and a chain of many keep it, so
-- what holds of a list of entries carries over to the bytes of a block, and from the memtables
-- and the files of a store to a scan of it. The forward and the reverse methods of a merge and of
-- a scan differ in the order alone, which is a parameter.
--
-- Parameters. The skip list of the crate `crossbeam_skiplist` is a record of its operations
-- (`SkipMap`), and `Laws` says what its documentation does: the entries are in key order without
-- repetition, an insertion replaces, and the bounds and neighbours of a key are those in the list.
-- The append of the log is a function that may fail. A binary heap is a list whose top is the first
-- in the order of the iterators. A scan opens the SSTs of all levels; what it reads is stated for a
-- store without SSTs, since `SstIter` does not keep the promises of an iterator on a second seek
-- (Iterators/Sst/Stale).
--
-- Conventions. An operation takes the state and returns the new one. The text of an error is
-- dropped, and so is the state after an error. `usize` is an unbounded number, but for the
-- counters of the log's buffer and the size of a memtable, which wrap at 2^64; a cast to `u32` is
-- written as a remainder, and lengths that reach one are bounded by hypotheses. Bytes are
-- numbers; no theorem needs them below 256 but where an integer is encoded, which has its own
-- bound. The checksum of the crate `crc32fast` is a parameter.
--
-- Loops. The binary search takes one round more than there are entries, which is proved to be
-- enough. The loop that skips equal keys in a merge, and the loop of a client, take fuel, and the
-- theorems on them state that a round per entry and one more are enough. An entry of an SST under
-- construction moves up at most two levels beyond those that there are, so the calls between
-- levels have that many rounds; a descent of the index has as many as its height, the climb as
-- many as the level it starts from and one more, and a reverse seek in an SST one per byte of the
-- file.
--
-- Concurrency. The buffer of the log is shared by writers, and each atomic operation is one step
-- of a relation, so a theorem on the relation holds for every interleaving of the steps.
--
-- Not modelled: files and system calls, except that a crash leaves one copy of a segment header
-- in any state and that a read stops at the end of a file; readers of
-- the log's cache that run at the same time, so that a record is put together from blocks that are
-- given; the threads of a store, which write and flush at the same time; the shards
-- of the engine and its metadata; the log's append, flush and truncation, and the opening of its
-- sealed segments; the SQL catalog, the server and the support crates, which pass calls on to
-- third-party libraries.
pub mod Prelude
pub mod Bytes
pub mod Builder
pub mod Block
pub mod Iterators
pub mod Memtable
pub mod Lsm
pub mod Wal
pub mod Examples
