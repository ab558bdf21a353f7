-- ===== src/Builder/IndexBlock.antt =====
-- crates/storage/src/builder/index_block.rs: `IndexEntry` and `IndexBlockBuilder`.
use todb.Prelude.{
  ℕ, ◌+◌, ◌*◌, Bool, List, [], ◌∷◌, ◌++◌, length, map, get_last?, Option, ltb, Run, ok, assert,
  ◌>>◌,
}
use todb.Bytes.{Bytes, as_u32, be_bytes, resize}
use todb.Builder.Layout.{push_offsets, advance_offset, extend_u32s, extend_all}
use todb.Builder.DataBlock.{SstOption, block_fixed_header_size}

-- `Position` of crates/storage/src/block.rs
pub record Position : Type 0 where
  pub offset : ℕ

abbrev pub index_value_version : ℕ
index_value_version = 1

abbrev pub index_value_len : ℕ
index_value_len = 9

pub record IndexEntry : Type 0 where
  pub end_key : Bytes
  pub child : Position

pub record IndexBlockBuilder : Type 0 where
  pub option : SstOption
  pub entries : List IndexEntry
  pub estimated_size : ℕ

abbrev pub new : SstOption → IndexBlockBuilder
new opt = record { option = opt; entries = []; estimated_size = 0 }

unfoldable pub add : IndexBlockBuilder → Bytes → Position → Run IndexBlockBuilder
add b end_key child = do
  assert (ltb (block_fixed_header_size + length end_key + 17) b.option.block_size)
  ok (record b {
    estimated_size = b.estimated_size + (length end_key + 17);
    entries = b.entries ++ record { end_key = end_key; child = child } ∷ [];
  })

unfoldable pub would_exceed : IndexBlockBuilder → Bytes → Position → Bool
would_exceed b end_key _ =
    ltb b.option.block_size (block_fixed_header_size + b.estimated_size + length end_key + 17)

abbrev pub entry_count : IndexBlockBuilder → ℕ
entry_count b = length b.entries

abbrev pub last_entry : IndexBlockBuilder → Option IndexEntry
last_entry b = get_last? b.entries

abbrev pub reset : IndexBlockBuilder → IndexBlockBuilder
reset b = record b { entries = []; estimated_size = 0 }

-- the encoded value of an entry: version and child offset
abbrev pub index_value : IndexEntry → Bytes
index_value e = index_value_version ∷ be_bytes 8 e.child.offset

unfoldable pub encode : List IndexEntry → Bytes
encode entries =
    let header_size = 4 + (length entries + 1) * 8 in
    let key_lens = map (λ (e : IndexEntry). length e.end_key) entries in
    let val_lens = map (λ (e : IndexEntry). index_value_len) entries in
    let key_offsets = push_offsets key_lens header_size in
    let val_offsets = push_offsets val_lens (advance_offset key_lens header_size) in
    be_bytes 4 (as_u32 (length entries))
    ++ (extend_u32s key_offsets
        ++ (extend_u32s val_offsets
            ++ (extend_all (map (λ (e : IndexEntry). e.end_key) entries)
                ++ extend_all (map index_value entries))))

unfoldable pub finish : IndexBlockBuilder → Bytes × IndexBlockBuilder
finish b = (resize b.option.block_size (encode b.entries), reset b)
