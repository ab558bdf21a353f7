-- ===== src/Wal.antt =====
-- crates/storage/src/wal
pub mod Error
pub mod Frame
pub mod Config
pub mod Index
pub mod Segment
pub mod Buffer
pub mod Clock
pub mod IndexWriter
pub mod Iter
pub mod Disk
