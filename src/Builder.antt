-- ===== src/Builder.antt =====
-- crates/storage/src/builder: the encoders of data blocks and index blocks.
pub mod Layout
pub mod DataBlock
pub mod IndexBlock
pub mod Footer
pub mod Sst
