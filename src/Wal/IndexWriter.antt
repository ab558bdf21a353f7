-- ===== src/Wal/IndexWriter.antt =====
-- crates/storage/src/wal/odirect_writer.rs: the writer of a segment's index file, which writes
-- whole blocks. The file is the bytes that were written; the system calls do not fail here.
pub mod Footer
use todb.Prelude.{
  ℕ, ◌+◌, ◌-◌, Bool, ◌&&◌, ◌++◌, [], length, leb, ◌==◌, take, drop, replicate, Run, ok, panic,
  assert, ◌>>=◌, ◌>>◌, if◌then◌else◌,
}
use todb.Bytes.{Bytes, slice, slice_from}
use todb.Builder.IndexBlock.{Position}
use todb.Builder.Footer.{SstFooter, encode}

pub record SegmentIndexBlockWriter : Type 0 where
  pub file : Bytes
  pub block_size : ℕ
  pub next_offset : ℕ

-- `dst[off..off + src.len()].copy_from_slice(src)`, which panics out of range
unfoldable pub copy_at : Bytes → ℕ → Bytes → Run Bytes
copy_at dst off src =
    if leb (off + length src) (length dst)
    then ok (take off dst ++ (src ++ drop (off + length src) dst))
    else panic

-- it panics unless the block is a whole one
unfoldable pub write_block :
    SegmentIndexBlockWriter → Bytes → Run (Position × SegmentIndexBlockWriter)
write_block w block = do
  assert (length block == w.block_size)
  ok (
    record { offset = w.next_offset },
    record w { file = w.file ++ block; next_offset = w.next_offset + w.block_size },
  )

-- the footer's block: body, padding, trailer
unfoldable pub footer_block : ℕ → Bytes → Run Bytes
footer_block block_size encoded = do
  assert (leb 4 (length encoded) && leb (length encoded) block_size)
  let body_len = length encoded - 4
  body ← slice encoded 0 body_len
  with_body ← copy_at (replicate block_size 0) 0 body
  trailer ← slice_from encoded body_len
  copy_at with_body (block_size - 4) trailer

unfoldable pub write_footer :
    SegmentIndexBlockWriter → SstFooter → Run (Position × SegmentIndexBlockWriter)
write_footer w footer = do block ← footer_block w.block_size (encode footer); write_block w block
