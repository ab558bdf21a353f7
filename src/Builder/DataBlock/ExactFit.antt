-- ===== src/Builder/DataBlock/ExactFit.antt =====
-- An entry that fills a block to the last byte.
use todb.Prelude.{◌+◌, ◌≡◌, refl, false, length, panic, arith, le→ltb_false}
use todb.Bytes.{Bytes}
use todb.Builder.DataBlock.{
  SstOption, new, add, would_exceed, block_fixed_header_size, per_entry_offset_table_bytes,
  data_entry_header_len,
}

-- The two size checks of the data block builder disagree at one size: an entry that with the fixed
-- header takes exactly the bytes of a block is not denied by `would_exceed` on an empty builder,
-- and `add` panics on it.
pub would_exceed-add_exact :
    (opt : SstOption) (key value : Bytes)
    → block_fixed_header_size
        + (length key + length value + per_entry_offset_table_bytes + data_entry_header_len)
      ≡ opt.block_size
    → (would_exceed (new opt) key value ≡ false) × (add (new opt) key value ≡ panic)
unfolding would_exceed add
would_exceed-add_exact opt key value e = (
  le→ltb_false opt.block_size
      (block_fixed_header_size
        + 0
        + (length key + length value + per_entry_offset_table_bytes + data_entry_header_len))
      (omega arith),
  rw
      (le→ltb_false
        (block_fixed_header_size
          + (length key + length value + per_entry_offset_table_bytes + data_entry_header_len))
        opt.block_size (omega arith))
      refl,
)
