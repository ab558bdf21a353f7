-- ===== src/Iterators.antt =====
-- crates/storage/src/iterators
pub mod Traits
pub mod BlockIter
pub mod Drain
pub mod TwoMerge
pub mod DataEntryDecode
pub mod DataBlockRoundTrip
pub mod IndexEntryDecode
pub mod Merge
pub mod IndexTree
pub mod Sst
pub mod Concat
pub mod IndexBlockRoundTrip
