-- ===== src/Examples/Log.antt =====
-- A frame and two headers, with the sum of the bytes for a checksum.
use todb.Prelude.{
  ℕ, ◌+◌, ◌<◌, ◌≡◌, ◌≢◌, ◌⊎◌, inl, refl, true, [], ◌∷◌, ◌++◌, length, take, none, some, ok, arith,
  ◌%◌,
}
use todb.Bytes.{Bytes, u32_mod, slice, le_bytes}
use todb.Bytes.Order.{lt_bytes}
use todb.Wal.Config.{default, validate}
use todb.Wal.Config.Accepted.{IsSound, validate-IsSound}
use todb.Wal.Error.{invalid_config, done, fail, crc_mismatch}
use todb.Wal.Frame.{crc32_of, encode, decode_at}
use todb.Wal.Frame.RoundTrip.{decode_at-encode, decode_at-encode_damaged, decode_at-encode_torn}
use todb.Wal.Index.{
  lsn_to_key, key_to_lsn, encode_offset_len, decode_offset_len, IdxHeader, new, serialize_fields,
  deserialize,
}
use todb.Wal.Index.Keys.{lsn_to_key-order, index_entry-roundtrip}
use todb.Wal.Index.Header.{WellFormed}
use todb.Wal.Segment.{MetaFile, header_block, write_meta_header_double, in_copy_a, read_meta_header}
use todb.Wal.Segment.Recovery.{
  write-read_meta_header, crash-read_meta_header, deserialize-header_block,
}

-- a checksum for the examples
abbrev pub sum_bytes : Bytes → ℕ
sum_bytes [] = 0
sum_bytes (b ∷ bs) = (b + sum_bytes bs) % 1000

abbrev pub payload : Bytes
payload = 5 ∷ 6 ∷ []

pub crc_small : crc32_of sum_bytes 9 payload < u32_mod
unfolding crc32_of le_bytes
crc_small = omega arith

decode_at-encode_example :
    (decode_at sum_bytes ((1 ∷ []) ++ (encode sum_bytes 9 payload ++ (2 ∷ []))) 1
      ≡ done (some (record { lsn = 9; total_len = length (encode sum_bytes 9 payload) })))
    × (slice
          ((1 ∷ []) ++ (encode sum_bytes 9 payload ++ (2 ∷ [])))
          (1 + 16)
          (1 + length (encode sum_bytes 9 payload))
        ≡ ok payload)
decode_at-encode_example =
    decode_at-encode sum_bytes (1 ∷ []) (2 ∷ []) 9 payload (omega arith) crc_small (omega arith)

other_crc : crc32_of sum_bytes 9 (5 ∷ 7 ∷ []) ≢ crc32_of sum_bytes 9 payload
unfolding crc32_of le_bytes
other_crc = λ e. omega (arith, e)

decode_at-encode_damaged_example :
    decode_at sum_bytes
      ((1 ∷ []) ++ ((take 16 (encode sum_bytes 9 payload) ++ (5 ∷ 7 ∷ [])) ++ (2 ∷ [])))
      1
    ≡ fail (crc_mismatch 9 1)
decode_at-encode_damaged_example =
    decode_at-encode_damaged sum_bytes (1 ∷ []) (2 ∷ []) 9 payload (5 ∷ 7 ∷ []) (omega arith)
      crc_small (omega arith) refl other_crc

kept_less : 17 < length (encode sum_bytes 9 payload)
unfolding encode le_bytes
kept_less = omega arith

decode_at-encode_torn_example :
    decode_at sum_bytes ((1 ∷ []) ++ take 17 (encode sum_bytes 9 payload)) 1 ≡ done none
decode_at-encode_torn_example =
    decode_at-encode_torn sum_bytes (1 ∷ []) 9 payload 17 (omega arith) crc_small (omega arith)
      kept_less

lsn_to_key-order_example : lt_bytes (lsn_to_key 255) (lsn_to_key 256) ≡ true
lsn_to_key-order_example = lsn_to_key-order 255 256 (omega arith) (omega arith)

index_entry-roundtrip_example :
    (key_to_lsn (lsn_to_key 300 ++ (1 ∷ [])) ≡ ok 300)
    × (decode_offset_len (encode_offset_len 4096 77 ++ (1 ∷ [])) ≡ ok (4096, 77))
index_entry-roundtrip_example =
    index_entry-roundtrip 300 4096 77 (1 ∷ []) (omega arith) (omega arith) (omega arith)

abbrev sealed : IdxHeader
sealed = new sum_bytes 3 10 20 11

abbrev active : IdxHeader
active = new sum_bytes 3 10 10 0

sealed-WellFormed : WellFormed sum_bytes sealed
unfolding new serialize_fields le_bytes
sealed-WellFormed =
    (refl, omega arith, omega arith, omega arith, omega arith, omega arith, omega arith, refl)

active-WellFormed : WellFormed sum_bytes active
unfolding new serialize_fields le_bytes
active-WellFormed =
    (refl, omega arith, omega arith, omega arith, omega arith, omega arith, omega arith, refl)

abbrev file : MetaFile
file = record { copy_a = header_block 64 active; copy_b = header_block 64 active }

damaged : deserialize sum_bytes (1 ∷ []) ≡ ok none
unfolding deserialize
damaged = refl

write-read_meta_header_example :
    (written : MetaFile) × (write_meta_header_double 64 sealed file ≡ done written)
    × (read_meta_header sum_bytes written ≡ done sealed)
    × (read_meta_header sum_bytes (record { copy_a = 1 ∷ []; copy_b = written.copy_b })
        ≡ done sealed)
    × (read_meta_header sum_bytes (record { copy_a = written.copy_a; copy_b = 2 ∷ [] })
        ≡ done sealed)
write-read_meta_header_example =
    write-read_meta_header sum_bytes 64 (omega arith) sealed file (1 ∷ []) (2 ∷ [])
      sealed-WellFormed damaged

active_held : deserialize sum_bytes (header_block 64 active) ≡ ok (some active)
active_held = deserialize-header_block sum_bytes 64 (omega arith) active active-WellFormed

crash-read_meta_header_example :
    (read_meta_header sum_bytes (record { copy_a = 1 ∷ []; copy_b = header_block 64 active })
      ≡ done active)
    ⊎ (read_meta_header sum_bytes (record { copy_a = 1 ∷ []; copy_b = header_block 64 active })
        ≡ done sealed)
crash-read_meta_header_example =
    crash-read_meta_header sum_bytes 64 (omega arith) active sealed file
      (record { copy_a = 1 ∷ []; copy_b = header_block 64 active }) sealed-WellFormed active_held
      active_held (in_copy_a (1 ∷ [])) (inl damaged)

validate-IsSound_example :
    ((validate default ≡ done tt) × IsSound default) ⊎ (validate default ≡ fail invalid_config)
validate-IsSound_example = validate-IsSound default
