-- ===== src/Wal/Index/Keys.antt =====
-- The keys of the index are in the order of the numbers they stand for, and keys and values are
-- read back.
use todb.Prelude.{ℕ, ◌≡◌, ◌<◌, refl, ok, ltb, ◌++◌, [], arith, append_assoc}
use todb.Bytes.{
  Bytes, u32_mod, u64_mod, be_bytes, le_bytes, slice-append, length-be_bytes, length-le_bytes,
  from_be-be_bytes, from_le-le_bytes,
}
use todb.Bytes.Order.{lt_bytes}
use todb.Bytes.Numeric.{lt_bytes-be_bytes}
use todb.Wal.Index.{lsn_to_key, key_to_lsn, encode_offset_len, decode_offset_len}

-- The index of a segment is searched by key bytes, and finds what a search by number would: the
-- bytes of one number are before those of another exactly when the number is below it. Numbers
-- are 64-bit words.
pub lsn_to_key-order :
    (a b : ℕ) → a < u64_mod → b < u64_mod → lt_bytes (lsn_to_key a) (lsn_to_key b) ≡ ltb a b
unfolding lsn_to_key
lsn_to_key-order a b h k = lt_bytes-be_bytes 8 a b (omega arith) (omega arith)

-- A key and a value of the index, with any bytes after them, are read back as what they were
-- made from: a 64-bit number, and a 64-bit offset with a 32-bit length.
pub index_entry-roundtrip :
    (lsn offset len : ℕ) (rest : Bytes)
    → lsn < u64_mod
    → offset < u64_mod
    → len < u32_mod
    → (key_to_lsn (lsn_to_key lsn ++ rest) ≡ ok lsn)
      × (decode_offset_len (encode_offset_len offset len ++ rest) ≡ ok (offset, len))
unfolding lsn_to_key key_to_lsn encode_offset_len decode_offset_len
index_entry-roundtrip lsn offset len rest h o l = (
  rw
      (
        slice-append [] (be_bytes 8 lsn) rest 0 8 refl (omega (arith, length-be_bytes 8 lsn)),
        from_be-be_bytes 8 lsn (omega arith),
      )
      refl,
  rw
      (
        append_assoc (le_bytes 8 offset) (le_bytes 4 len) rest,
        slice-append [] (le_bytes 8 offset) (le_bytes 4 len ++ rest) 0 8 refl
            (omega (arith, length-le_bytes 8 offset)),
        slice-append (le_bytes 8 offset) (le_bytes 4 len) rest 8 12
            (omega (arith, length-le_bytes 8 offset))
            (omega (arith, length-le_bytes 8 offset, length-le_bytes 4 len)),
        from_le-le_bytes 8 offset (omega arith),
        from_le-le_bytes 4 len (omega arith),
      )
      refl,
)
