-- ===== src/Block/Written.antt =====
-- A block that was written is read at the position that the writer returned.
use todb.Prelude.{
  ◌+◌, ◌≡◌, refl, sym, ◌++◌, length, min, ok, arith, le→ltb_false, ==_iff, append_assoc,
  length-append,
}
use todb.Bytes.{Bytes, slice-append}
use todb.Builder.IndexBlock.{Position}
use todb.Block.{InMemoryBlockWriter, DefaultSstWriter, write_block, read_block, sst_write_block}

-- the next offset is the length of what was written
abbrev pub IsAtEnd : InMemoryBlockWriter → Type 0
IsAtEnd w = w.next_offset ≡ length w.buf

read_middle :
    (pre block post : Bytes) (p : Position)
    → p.offset ≡ length pre
    → read_block (record { buf = pre ++ (block ++ post); block_size = length block }) p ≡ ok block
unfolding read_block
read_middle pre block post p e =
    let size : length (pre ++ (block ++ post)) ≡ length pre + length block + length post =
      omega (arith, length-append pre (block ++ post), length-append block post) in
    rw (le→ltb_false (length (pre ++ (block ++ post))) p.offset (omega (arith, size, e))) (
      slice-append pre block post p.offset
        (min (p.offset + length block) (length (pre ++ (block ++ post)))) e
        (omega (arith, size, e)))

-- A whole block is accepted and can be read back from then on: `write_block` of the SST writer
-- returns a position at which a reader finds the block, whatever was written after it, and leaves
-- the writer at its end.
pub sst_write_block-read_block :
    (w : DefaultSstWriter) (block more : Bytes)
    → IsAtEnd w.inner
    → length block ≡ w.option.block_size
    → (p : Position) × (after : DefaultSstWriter) × (sst_write_block w block ≡ ok (p, after))
      × IsAtEnd after.inner
      × (read_block (record { buf = after.inner.buf ++ more; block_size = w.option.block_size }) p
          ≡ ok block)
unfolding sst_write_block write_block
sst_write_block-read_block w block more at size = (
  record { offset = w.inner.next_offset },
  record w {
    inner = record { buf = w.inner.buf ++ block; next_offset = w.inner.next_offset + length block };
  },
  rw ((==_iff (length block) w.option.block_size).1 size) refl,
  omega (arith, length-append w.inner.buf block),
  rw (append_assoc w.inner.buf block more, sym size)
      (read_middle w.inner.buf block more (record { offset = w.inner.next_offset }) at),
)
