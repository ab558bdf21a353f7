-- ===== src/Wal/Segment.antt =====
-- crates/storage/src/wal/segment.rs: the header of a segment's `.meta` file, in two copies. The
-- file is the two blocks; a write that succeeds replaces the block, and a crash in the middle of
-- one leaves what `Crashed` says there. The system calls do not fail here.
pub mod Recovery
use todb.Prelude.{ℕ, ltb, if◌then◌else◌, ok}
use todb.Bytes.{Bytes, resize}
use todb.Wal.Error.{WalRun, done, crash}
use todb.Wal.Index.{IdxHeader, serialize, select_valid_header, idx_header_len, deserialize}

pub record MetaFile : Type 0 where
  pub copy_a : Bytes
  pub copy_b : Bytes

-- a zeroed block that starts with the header
unfoldable pub header_block : ℕ → IdxHeader → Bytes
header_block block_size header = resize block_size (serialize header)

unfoldable pub write_meta_header_double : ℕ → IdxHeader → MetaFile → WalRun MetaFile
write_meta_header_double block_size header file =
    if ltb block_size idx_header_len
    then crash
    else (let block = header_block block_size header in
        let first : MetaFile = record { copy_a = block; copy_b = file.copy_b } in
        done (record { copy_a = first.copy_a; copy_b = block }))

-- what the disk can hold when the call does not return: each copy is written whole or not at all,
-- or is in the middle of its write, with the second not begun before the first is synced
pub data Crashed (block_size : ℕ) (header : IdxHeader) (file : MetaFile) : MetaFile → Type 0 where
  not_begun : Crashed block_size header file file
  in_copy_a :
      (torn : Bytes)
      → Crashed block_size header file (record { copy_a = torn; copy_b = file.copy_b })
  in_copy_b :
      (torn : Bytes)
      → Crashed block_size header file
          (record { copy_a = header_block block_size header; copy_b = torn })

module _ (crc32 : Bytes → ℕ) where
  unfoldable pub read_meta_header : MetaFile → WalRun IdxHeader
  read_meta_header file = select_valid_header crc32 file.copy_a file.copy_b
