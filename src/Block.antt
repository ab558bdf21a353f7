-- ===== src/Block.antt =====
-- crates/storage/src/block.rs: the writer and the reader of blocks in memory; and
-- crates/storage/src/builder/sst_writer.rs over such a writer.
pub mod Written
use todb.Prelude.{
  ℕ, ◌+◌, min, Bool, ◌++◌, [], length, ltb, ◌==◌, if◌then◌else◌, Run, ok, err, invalid_key, assert,
  ◌>>=◌, ◌>>◌,
}
use todb.Bytes.{Bytes, slice}
use todb.Builder.DataBlock.{SstOption}
use todb.Builder.IndexBlock.{Position}
use todb.Builder.Footer.{SstFooter, encode}

pub record InMemoryBlockWriter : Type 0 where
  pub buf : Bytes
  pub next_offset : ℕ

abbrev pub new : InMemoryBlockWriter
new = record { buf = []; next_offset = 0 }

unfoldable pub write_block : InMemoryBlockWriter → Bytes → Position × InMemoryBlockWriter
write_block w block = (
  record { offset = w.next_offset },
  record { buf = w.buf ++ block; next_offset = w.next_offset + length block },
)

pub record InMemoryBlockReader : Type 0 where
  pub buf : Bytes
  pub block_size : ℕ

unfoldable pub read_block : InMemoryBlockReader → Position → Run Bytes
read_block r position =
    let start = position.offset in
    if ltb (length r.buf) start
    then err invalid_key
    else slice r.buf start (min (start + r.block_size) (length r.buf))

pub record DefaultSstWriter : Type 0 where
  pub inner : InMemoryBlockWriter
  pub option : SstOption

-- it panics in a debug build unless the block is a whole one
unfoldable pub sst_write_block : DefaultSstWriter → Bytes → Run (Position × DefaultSstWriter)
sst_write_block w block = do
  assert (length block == w.option.block_size)
  ok ((write_block w.inner block).0, record w { inner = (write_block w.inner block).1 })

-- the footer has any length
unfoldable pub sst_write_footer : DefaultSstWriter → SstFooter → Position × DefaultSstWriter
sst_write_footer w footer = (
  (write_block w.inner (encode footer)).0,
  record w { inner = (write_block w.inner (encode footer)).1 },
)
