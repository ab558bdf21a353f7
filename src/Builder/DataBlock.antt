-- ===== src/Builder/DataBlock.antt =====
-- crates/storage/src/builder/data_block.rs: `BlockEntry` and `DataBlockBuilder`.
pub mod Size
pub mod ExactFit
use todb.Prelude.{
  ℕ, ◌+◌, ◌*◌, ◌-◌, Bool, not, List, [], ◌∷◌, ◌++◌, length, map, is_empty, get_last?, Option, ltb,
  Run, ok, assert, ◌>>=◌, ◌>>◌,
}
use mathlib.Core.Option
use todb.Bytes.{Bytes, as_u32, be_bytes, resize}
use todb.Builder.Layout.{push_offsets, advance_offset, extend_u32s, extend_all}

-- `SstOption` of crates/storage/src/builder/sst.rs
pub record SstOption : Type 0 where
  pub block_size : ℕ

abbrev pub block_fixed_header_size : ℕ
block_fixed_header_size = 12

abbrev pub data_entry_version : ℕ
data_entry_version = 1

abbrev pub data_entry_header_len : ℕ
data_entry_header_len = 2

abbrev pub per_entry_offset_table_bytes : ℕ
per_entry_offset_table_bytes = 8

abbrev pub kind_put : ℕ
kind_put = 0

abbrev pub kind_delete : ℕ
kind_delete = 1

pub data BlockEntry : Type 0 where
  put : Bytes → Bytes → BlockEntry
  delete : Bytes → BlockEntry

abbrev pub entry_key : BlockEntry → Bytes
entry_key (put k v) = k
entry_key (delete k) = k

abbrev pub value_len : BlockEntry → ℕ
value_len (put k v) = length v
value_len (delete k) = 0

abbrev pub kind_byte : BlockEntry → ℕ
kind_byte (put k v) = kind_put
kind_byte (delete k) = kind_delete

abbrev pub entry_value : BlockEntry → Bytes
entry_value (put k v) = v
entry_value (delete k) = []

pub record DataBlockBuilder : Type 0 where
  pub option : SstOption
  pub entries : List BlockEntry
  pub estimated_size : ℕ

abbrev pub new : SstOption → DataBlockBuilder
new opt = record { option = opt; entries = []; estimated_size = 0 }

-- `add`: it panics unless the entry fits in a block of its own with a byte to spare.
unfoldable pub add : DataBlockBuilder → Bytes → Bytes → Run DataBlockBuilder
add b key value = do
  let entry_size = length key + length value + per_entry_offset_table_bytes + data_entry_header_len
  assert (ltb (block_fixed_header_size + entry_size) b.option.block_size)
  ok (record b {
    estimated_size = b.estimated_size + entry_size;
    entries = b.entries ++ put key value ∷ [];
  })

unfoldable pub add_delete : DataBlockBuilder → Bytes → Run DataBlockBuilder
add_delete b key = do
  let entry_size = length key + per_entry_offset_table_bytes + data_entry_header_len
  assert (ltb (block_fixed_header_size + entry_size) b.option.block_size)
  ok (record b {
    estimated_size = b.estimated_size + entry_size;
    entries = b.entries ++ delete key ∷ [];
  })

unfoldable pub would_exceed : DataBlockBuilder → Bytes → Bytes → Bool
would_exceed b key value =
    let next_entry_size =
      length key + length value + per_entry_offset_table_bytes + data_entry_header_len in
    ltb b.option.block_size (block_fixed_header_size + b.estimated_size + next_entry_size)

abbrev pub entry_count : DataBlockBuilder → ℕ
entry_count b = length b.entries

abbrev pub last_key : DataBlockBuilder → Option Bytes
last_key b = Option.map entry_key (get_last? b.entries)

-- `reset`
abbrev pub reset : DataBlockBuilder → DataBlockBuilder
reset b = record b { entries = []; estimated_size = 0 }

-- the encoded value of an entry: version, kind and payload
abbrev pub envelope : BlockEntry → Bytes
envelope e = data_entry_version ∷ kind_byte e ∷ entry_value e

-- the length that `finish` reserves for that value
abbrev pub envelope_len : BlockEntry → ℕ
envelope_len e = data_entry_header_len + value_len e

-- `buf` in `finish`, before it is resized
unfoldable pub encode : List BlockEntry → Bytes
encode entries =
    let header_size = 4 + (length entries + 1) * 8 in
    let key_lens = map (λ (e : BlockEntry). length (entry_key e)) entries in
    let val_lens = map envelope_len entries in
    let key_offsets = push_offsets key_lens header_size in
    let val_offsets = push_offsets val_lens (advance_offset key_lens header_size) in
    be_bytes 4 (as_u32 (length entries))
    ++ (extend_u32s key_offsets
        ++ (extend_u32s val_offsets
            ++ (extend_all (map entry_key entries) ++ extend_all (map envelope entries))))

-- `finish`: the block, and the builder after its `reset`
unfoldable pub finish : DataBlockBuilder → Bytes × DataBlockBuilder
finish b = (resize b.option.block_size (encode b.entries), reset b)
