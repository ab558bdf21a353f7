-- ===== src/Builder/Footer.antt =====
-- crates/storage/src/builder/sst.rs: `SstFooter`.
pub mod RoundTrip
use todb.Prelude.{
  ℕ, ◌+◌, ◌-◌, Bool, not, ◌++◌, length, ltb, ◌==◌, if◌then◌else◌, Run, ok, err, invalid_value,
  ◌>>=◌,
}
use todb.Bytes.{Bytes, as_u32, be_bytes, from_be, slice, slice_from}
use todb.Builder.IndexBlock.{Position}

pub record SstFooter : Type 0 where
  pub root_index_block_position : Position
  pub tree_height : ℕ
  pub first_key : Bytes
  pub last_key : Bytes

-- `body` in `encode`
unfoldable pub footer_body : SstFooter → Bytes
footer_body f =
    be_bytes 8 f.root_index_block_position.offset
    ++ (be_bytes 4 f.tree_height
        ++ (be_bytes 4 (as_u32 (length f.first_key))
            ++ (be_bytes 4 (as_u32 (length f.last_key)) ++ (f.first_key ++ f.last_key))))

unfoldable pub encode : SstFooter → Bytes
encode f = footer_body f ++ be_bytes 4 (as_u32 (length (footer_body f)))

-- the keys behind the fixed fields, whose lengths are known
unfoldable pub decode_keys : Bytes → ℕ → ℕ → ℕ → ℕ → ℕ → Run SstFooter
decode_keys body body_len root_offset tree_height first_key_len last_key_len =
    if not (20 + first_key_len + last_key_len == body_len) then err invalid_value else do
      first_key ← slice body 20 (20 + first_key_len)
      last_key ← slice body (20 + first_key_len) (20 + first_key_len + last_key_len)
      ok (record {
        root_index_block_position = record { offset = root_offset };
        tree_height = tree_height;
        first_key = first_key;
        last_key = last_key;
      })

-- the fixed fields of a body
unfoldable pub decode_body : Bytes → ℕ → Run SstFooter
decode_body body body_len = if ltb (length body) 20 then err invalid_value else do
  root_offset ← slice body 0 8
  tree_height ← slice body 8 12
  first_key_len ← slice body 12 16
  last_key_len ← slice body 16 20
  decode_keys body body_len (from_be root_offset) (from_be tree_height) (from_be first_key_len)
      (from_be last_key_len)

unfoldable pub decode : Bytes → Run SstFooter
decode buf = if ltb (length buf) 4 then err invalid_value else do
  trailer ← slice_from buf (length buf - 4)
  let body_len = from_be trailer
  if ltb (length buf) (body_len + 4)
      then err invalid_value
      else do body ← slice buf 0 body_len; decode_body body body_len
