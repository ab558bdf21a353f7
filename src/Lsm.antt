-- ===== src/Lsm.antt =====
-- crates/storage/src: the LSM store
pub mod Range
pub mod Batch
pub mod State
pub mod Disk
pub mod Store
pub mod Read
