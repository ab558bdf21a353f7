-- ===== src/Examples/Records.antt =====
-- A record in blocks of four bytes, and a read across two blocks.
use todb.Prelude.{ℕ, ◌≡◌, refl, [], ◌∷◌, ◌++◌, arith}
use todb.Bytes.{Bytes}
use todb.Examples.Log.{sum_bytes, payload, crc_small}
use todb.Wal.Error.{done, and_then}
use todb.Wal.Frame.{encode}
use todb.Wal.Iter.{block_range, decode_guards, payload_at, raw_read}
use todb.Wal.Iter.Blocks.{blocks_from, raw_read-within}
use todb.Wal.Iter.Loads.{decode_guards-encode, entry_of}

-- a cache whose frames hold other bytes
abbrev frames : ℕ → Bytes
frames i = 7 ∷ 7 ∷ 7 ∷ 7 ∷ []

abbrev log : Bytes
log = (1 ∷ []) ++ (encode sum_bytes 9 payload ++ (2 ∷ []))

decode_guards-encode_example :
    (range : ℕ × ℕ) × (block_range 4 (entry_of sum_bytes 3 9 (1 ∷ []) payload (2 ∷ []))
      ≡ done range)
    × (and_then
          (decode_guards sum_bytes 4
            (entry_of sum_bytes 3 9 (1 ∷ []) payload (2 ∷ []))
            (blocks_from frames log range.0 range.1))
          payload_at
        ≡ done payload)
decode_guards-encode_example =
    decode_guards-encode sum_bytes 4 frames 3 9 (1 ∷ []) payload (2 ∷ []) (omega arith) (λ i. refl)
      (omega arith) crc_small (omega arith)

raw_read-within_example : raw_read 4 (1 ∷ 2 ∷ 3 ∷ 4 ∷ 5 ∷ 6 ∷ []) 3 3 ≡ done (4 ∷ 5 ∷ 6 ∷ [])
raw_read-within_example =
    raw_read-within 4 (omega arith) (1 ∷ 2 ∷ 3 ∷ 4 ∷ 5 ∷ 6 ∷ []) 3 3 (omega arith)
