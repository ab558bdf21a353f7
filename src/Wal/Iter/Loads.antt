-- ===== src/Wal/Iter/Loads.antt =====
-- The record that an index entry points to.
use todb.Prelude.{
  ℕ, ◌+◌, ◌-◌, ◌≤◌, ◌<◌, ◌≡◌, refl, ap, ◌∙◌, ◌++◌, [], length, take, drop, Option, some, ok,
  length-append, append-nil, arith, take-append_length, drop-append_length,
}
use todb.Bytes.{Bytes, slice, as_u32, le_bytes, length-le_bytes, u32_mod, u64_mod}
use todb.Iterators.Traits.{Iter}
use todb.Wal.Error.{done, and_then}
use todb.Wal.Frame.{header_len, encode, crc32_of, decode_at}
use todb.Wal.Frame.RoundTrip.{decode_at-encode}
use todb.Wal.Index.{encode_offset_len}
use todb.Wal.Index.Keys.{index_entry-roundtrip}
use todb.Wal.Iter.{
  SegmentIndexIter, segment_index_iter, value_at, entry_at, IndexEntry, block_range, decode_guards,
  payload_at,
}
use todb.Wal.Iter.Blocks.{blocks_from, assemble-blocks_from}

encoded_bytes :
    (crc32 : Bytes → ℕ) (pre post payload : Bytes) (lsn : ℕ)
    → take
        (length (encode crc32 lsn payload))
        (drop (length pre) (pre ++ (encode crc32 lsn payload ++ post)))
      ≡ encode crc32 lsn payload
encoded_bytes crc32 pre post payload lsn =
    let enc = encode crc32 lsn payload in
    ap (take (length enc)) (drop-append_length pre (enc ++ post) (length pre) refl)
    ∙ take-append_length enc post (length enc) refl

decoded :
    (crc32 : Bytes → ℕ) (payload : Bytes) (lsn : ℕ)
    → length payload < u32_mod
    → crc32_of crc32 lsn payload < u32_mod
    → lsn < u64_mod
    → (decode_at crc32 (encode crc32 lsn payload) 0
        ≡ done (some (record { lsn = lsn; total_len = length (encode crc32 lsn payload) })))
      × (slice (encode crc32 lsn payload) header_len (length (encode crc32 lsn payload))
          ≡ ok payload)
decoded crc32 payload lsn h c l =
    let whole = append-nil (encode crc32 lsn payload) in
    let (d, p) = decode_at-encode crc32 [] [] lsn payload h c l in
    let none_before : 0 + length (encode crc32 lsn payload) ≡ length (encode crc32 lsn payload) =
      omega arith in
    let from_start = rw none_before at p in (rw whole at d, rw whole at from_start)

-- the index entry of a frame in a log
abbrev pub entry_of : (Bytes → ℕ) → ℕ → ℕ → Bytes → Bytes → Bytes → IndexEntry
entry_of crc32 seg_id lsn pre payload post = record {
  segment = record { seg_id = seg_id; log = pre ++ (encode crc32 lsn payload ++ post) };
  offset = length pre;
  len = length (encode crc32 lsn payload);
}

encode-long :
    (crc32 : Bytes → ℕ) (payload : Bytes) (lsn : ℕ) → 16 ≤ length (encode crc32 lsn payload)
unfolding encode
encode-long crc32 payload lsn =
    let len = le_bytes 4 (as_u32 (length payload)) in
    let crc = le_bytes 4 (crc32_of crc32 lsn payload) in
    omega (
      arith,
      length-append len (crc ++ (le_bytes 8 lsn ++ payload)),
      length-append crc (le_bytes 8 lsn ++ payload),
      length-append (le_bytes 8 lsn) payload,
      length-le_bytes 4 (as_u32 (length payload)),
      length-le_bytes 4 (crc32_of crc32 lsn payload),
      length-le_bytes 8 lsn,
    )

-- A record of the log is put together from blocks wherever its frame stands: from the blocks that
-- `load_current_frame` asks for by the offset and the length of the frame, with the bytes of the
-- log in them and any bytes past its end, the copies of the blocks' parts give the frame, which is
-- decoded, and its payload is the one that was written, whatever the frame's position in its blocks.
-- A block has at least one byte; the payload is shorter than 2^32, the checksum is a 32-bit and the
-- number a 64-bit word.
pub decode_guards-encode :
    (crc32 : Bytes → ℕ) (block_size : ℕ) (frames : ℕ → Bytes) (seg_id lsn : ℕ)
    (pre payload post : Bytes)
    → 0 < block_size
    → ((i : ℕ) → length (frames i) ≡ block_size)
    → length payload < u32_mod
    → crc32_of crc32 lsn payload < u32_mod
    → lsn < u64_mod
    → (range : ℕ × ℕ) × (block_range block_size (entry_of crc32 seg_id lsn pre payload post)
        ≡ done range)
      × (and_then
            (decode_guards crc32 block_size
              (entry_of crc32 seg_id lsn pre payload post)
              (blocks_from frames (pre ++ (encode crc32 lsn payload ++ post)) range.0 range.1))
            payload_at
          ≡ done payload)
unfolding decode_guards payload_at
decode_guards-encode crc32 block_size frames seg_id lsn pre payload post positive sized h c l =
    let enc = encode crc32 lsn payload in
    let (d, p) = decoded crc32 payload lsn h c l in
    let long : 16 ≤ length enc = encode-long crc32 payload lsn in
    let room : length pre + length enc ≤ length (pre ++ (enc ++ post)) =
      omega (arith, length-append pre (enc ++ post), length-append enc post) in
    let size : header_len + (length enc - header_len) ≡ length enc = omega (arith, long) in
    let (range, r, whole) =
      assemble-blocks_from block_size positive frames sized (pre ++ (enc ++ post))
        (record { seg_id = seg_id; log = pre ++ (enc ++ post) }) (length pre) (length enc)
        (omega (arith, long)) room in
    (
      range,
      r,
      rw whole (rw (encoded_bytes crc32 pre post payload lsn) (rw d (rw size (rw p refl)))),
    )

-- what the index holds of a frame comes out of the index iterator, from a memtable or from an SST
pub segment_index_iter-value :
    {I V : Type 0} (ops : Iter I V) (bytes : V → Option Bytes) (s : SegmentIndexIter I) (v : V)
    (offset len : ℕ)
    → ops.value s.inner ≡ ok (some v)
    → bytes v ≡ some (encode_offset_len offset len)
    → offset < u64_mod
    → len < u32_mod
    → (segment_index_iter ops bytes).value s
      ≡ ok (some (record { segment = s.segment; offset = offset; len = len }))
unfolding value_at entry_at
segment_index_iter-value ops bytes s v offset len e b o l =
    let stored = (index_entry-roundtrip 0 offset len [] (omega arith) o l).1 in
    let plain = append-nil (encode_offset_len offset len) in
    rw e (rw b (rw (rw plain at stored) refl))
