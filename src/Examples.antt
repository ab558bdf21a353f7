-- ===== src/Examples.antt =====
-- The theorems, applied to small blocks, frames and headers.
pub mod Blocks
pub mod Log
pub mod Buffer
pub mod Tables
pub mod Cache
pub mod SortedList
pub mod Store
pub mod Sst
pub mod Stored
pub mod Files
pub mod Records
