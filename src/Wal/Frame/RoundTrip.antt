-- ===== src/Wal/Frame/RoundTrip.antt =====
-- Frames that are decoded where they were encoded, whole or torn, and in any buffer.
use todb.Prelude.{
  ℕ, ◌+◌, ◌-◌, ◌≤◌, ◌<◌, ◌≡◌, ◌≢◌, refl, sym, ap, ◌∙◌, ◌==◌, ◌++◌, length, take, ok, none, some,
  arith, if◌then◌else◌, le→ltb_false, length-append, append_assoc, append-nil, [],
  take-append_length, take-append_past, lt→ltb, ==_refl, ==_false, dec_lt, length-take,
}
use native.Mathlib.Nat.{add_assoc}
use todb.Bytes.{
  Bytes, as_u32, slice, le_bytes, u32_mod, u64_mod, slice-append, length-le_bytes, from_le-le_bytes,
}
use todb.Wal.Error.{done, fail, crc_mismatch}
use todb.Wal.Frame.{header_len, crc32_of, check_payload, encode, decode_at}

-- a frame by its header fields, whatever checksum it carries
frame : ℕ → ℕ → ℕ → Bytes → Bytes
frame len crc lsn payload = le_bytes 4 len ++ (le_bytes 4 crc ++ (le_bytes 8 lsn ++ payload))

length-frame :
    (len crc lsn : ℕ) (payload : Bytes) → length (frame len crc lsn payload) ≡ 16 + length payload
unfolding frame
length-frame len crc lsn payload = omega (
  arith,
  length-append (le_bytes 4 len) (le_bytes 4 crc ++ (le_bytes 8 lsn ++ payload)),
  length-append (le_bytes 4 crc) (le_bytes 8 lsn ++ payload),
  length-append (le_bytes 8 lsn) payload,
  length-le_bytes 4 len,
  length-le_bytes 4 crc,
  length-le_bytes 8 lsn,
)

as_u32_small : (n : ℕ) → n < u32_mod → as_u32 n ≡ n
as_u32_small n h = omega arith

-- the four parts, read at their offsets
module _ (pre post : Bytes) (len crc lsn : ℕ) (payload : Bytes) where
  abbrev buf : Bytes
  buf = pre ++ (frame len crc lsn payload ++ post)

  read_len : slice buf (length pre) (length pre + 4) ≡ ok (le_bytes 4 len)
  unfolding frame
  read_len =
      rw (append_assoc (le_bytes 4 len) (le_bytes 4 crc ++ (le_bytes 8 lsn ++ payload)) post) (
        slice-append pre (le_bytes 4 len) ((le_bytes 4 crc ++ (le_bytes 8 lsn ++ payload)) ++ post)
          (length pre) (length pre + 4) refl (omega (arith, length-le_bytes 4 len)))

  shape_crc :
      buf ≡ (pre ++ le_bytes 4 len) ++ (le_bytes 4 crc ++ ((le_bytes 8 lsn ++ payload) ++ post))
  unfolding frame
  shape_crc = simp append_assoc

  shape_lsn :
      buf ≡ (pre ++ (le_bytes 4 len ++ le_bytes 4 crc)) ++ (le_bytes 8 lsn ++ (payload ++ post))
  unfolding frame
  shape_lsn = simp append_assoc

  shape_payload :
      buf ≡ (pre ++ (le_bytes 4 len ++ (le_bytes 4 crc ++ le_bytes 8 lsn))) ++ (payload ++ post)
  unfolding frame
  shape_payload = simp append_assoc

  read_crc : slice buf (length pre + 4) (length pre + 8) ≡ ok (le_bytes 4 crc)
  read_crc = rw shape_crc (
      slice-append (pre ++ le_bytes 4 len) (le_bytes 4 crc) ((le_bytes 8 lsn ++ payload) ++ post)
        (length pre + 4) (length pre + 8)
        (omega (arith, length-append pre (le_bytes 4 len), length-le_bytes 4 len))
        (omega (
          arith,
          length-append pre (le_bytes 4 len),
          length-le_bytes 4 len,
          length-le_bytes 4 crc,
        )))

  before_lsn : length (pre ++ (le_bytes 4 len ++ le_bytes 4 crc)) ≡ length pre + 8
  before_lsn = omega (
    arith,
    length-append pre (le_bytes 4 len ++ le_bytes 4 crc),
    length-append (le_bytes 4 len) (le_bytes 4 crc),
    length-le_bytes 4 len,
    length-le_bytes 4 crc,
  )

  read_lsn : slice buf (length pre + 8) (length pre + 16) ≡ ok (le_bytes 8 lsn)
  read_lsn = rw shape_lsn (
      slice-append (pre ++ (le_bytes 4 len ++ le_bytes 4 crc)) (le_bytes 8 lsn) (payload ++ post)
        (length pre + 8) (length pre + 16) (omega (arith, before_lsn))
        (omega (arith, before_lsn, length-le_bytes 8 lsn)))

  before_payload :
      length (pre ++ (le_bytes 4 len ++ (le_bytes 4 crc ++ le_bytes 8 lsn))) ≡ length pre + 16
  before_payload = omega (
    arith,
    length-append pre (le_bytes 4 len ++ (le_bytes 4 crc ++ le_bytes 8 lsn)),
    length-append (le_bytes 4 len) (le_bytes 4 crc ++ le_bytes 8 lsn),
    length-append (le_bytes 4 crc) (le_bytes 8 lsn),
    length-le_bytes 4 len,
    length-le_bytes 4 crc,
    length-le_bytes 8 lsn,
  )

  read_payload : slice buf (length pre + 16) (length pre + 16 + length payload) ≡ ok payload
  read_payload = rw shape_payload (
      slice-append (pre ++ (le_bytes 4 len ++ (le_bytes 4 crc ++ le_bytes 8 lsn))) payload post
        (length pre + 16) (length pre + 16 + length payload) (omega (arith, before_payload))
        (omega (arith, before_payload)))

  length-buf : length buf ≡ length pre + 16 + length payload + length post
  length-buf = omega (
    arith,
    length-append pre (frame len crc lsn payload ++ post),
    length-append (frame len crc lsn payload) post,
    length-frame len crc lsn payload,
  )

module _ (crc32 : Bytes → ℕ) where
  -- what `decode_at` reads of a header, whatever its fields say
  decode-header :
      (pre post : Bytes) (len crc lsn : ℕ) (payload : Bytes)
      → len < u32_mod
      → crc < u32_mod
      → lsn < u64_mod
      → decode_at crc32 (pre ++ (frame len crc lsn payload ++ post)) (length pre)
        ≡ check_payload crc32 (pre ++ (frame len crc lsn payload ++ post)) (length pre) len crc lsn
  unfolding decode_at
  decode-header pre post len crc lsn payload h c l =
      let whole = length-buf pre post len crc lsn payload in
      rw
        (
          le→ltb_false (length (pre ++ (frame len crc lsn payload ++ post))) (length pre + 16)
              (omega (arith, whole)),
          read_len pre post len crc lsn payload,
          read_crc pre post len crc lsn payload,
          read_lsn pre post len crc lsn payload,
          from_le-le_bytes 4 len (omega arith),
          from_le-le_bytes 4 crc (omega arith),
          from_le-le_bytes 8 lsn (omega arith),
        )
        refl

  -- what becomes of a frame whose payload is there
  check_payload-whole :
      (pre post : Bytes) (crc lsn : ℕ) (payload : Bytes)
      → check_payload crc32
          (pre ++ (frame (length payload) crc lsn payload ++ post))
          (length pre)
          (length payload)
          crc
          lsn
        ≡ (if crc32_of crc32 lsn payload == crc
            then done (some (record { lsn = lsn; total_len = header_len + length payload }))
            else fail (crc_mismatch lsn (length pre)))
  unfolding check_payload crc32_of
  check_payload-whole pre post crc lsn payload =
      let len = length payload in
      rw
        (
          le→ltb_false (length (pre ++ (frame len crc lsn payload ++ post))) (length pre + 16 + len)
              (omega (arith, length-buf pre post len crc lsn payload)),
          read_payload pre post len crc lsn payload,
        )
        refl

  encode-frame :
      (lsn : ℕ) (payload : Bytes)
      → length payload < u32_mod
      → encode crc32 lsn payload ≡ frame (length payload) (crc32_of crc32 lsn payload) lsn payload
  unfolding encode frame
  encode-frame lsn payload h = rw (as_u32_small (length payload) h) refl

  header : ℕ → ℕ → ℕ → Bytes
  header len crc lsn = le_bytes 4 len ++ (le_bytes 4 crc ++ le_bytes 8 lsn)

  frame-header :
      (len crc lsn : ℕ) (payload : Bytes)
      → frame len crc lsn payload ≡ header len crc lsn ++ payload
  unfolding frame header
  frame-header len crc lsn payload = simp append_assoc

  length-header : (len crc lsn : ℕ) → length (header len crc lsn) ≡ 16
  unfolding header
  length-header len crc lsn = omega (
    arith,
    length-append (le_bytes 4 len) (le_bytes 4 crc ++ le_bytes 8 lsn),
    length-append (le_bytes 4 crc) (le_bytes 8 lsn),
    length-le_bytes 4 len,
    length-le_bytes 4 crc,
    length-le_bytes 8 lsn,
  )

  -- A frame that `encode` wrote is found where it starts, whatever bytes stand before and after
  -- it, and with the length it has: `decode_at` returns its number and its total length, and the
  -- bytes of the payload stand where the caller slices them. The payload is shorter than 2^32, and
  -- the checksum is a 32-bit and the number a 64-bit word.
  pub decode_at-encode :
      (pre post : Bytes) (lsn : ℕ) (payload : Bytes)
      → length payload < u32_mod
      → crc32_of crc32 lsn payload < u32_mod
      → lsn < u64_mod
      → (decode_at crc32 (pre ++ (encode crc32 lsn payload ++ post)) (length pre)
          ≡ done (some (record { lsn = lsn; total_len = length (encode crc32 lsn payload) })))
        × (slice
              (pre ++ (encode crc32 lsn payload ++ post))
              (length pre + header_len)
              (length pre + length (encode crc32 lsn payload))
            ≡ ok payload)
  decode_at-encode pre post lsn payload h c l =
      let crc = crc32_of crc32 lsn payload in
      rw (encode-frame lsn payload h, length-frame (length payload) crc lsn payload)
        (
          decode-header pre post (length payload) crc lsn payload h c l
              ∙ check_payload-whole pre post crc lsn payload
              ∙ rw (==_refl crc) refl,
          rw (sym (add_assoc (length pre) 16 (length payload)))
              (read_payload pre post (length payload) crc lsn payload),
        )

  -- A frame whose stored bytes are not the ones it was written with is refused: when the header
  -- that `encode` wrote for one payload is followed by as many other bytes, and these have another
  -- checksum, `decode_at` fails with the number and the offset of the frame.
  pub decode_at-encode_damaged :
      (pre post : Bytes) (lsn : ℕ) (payload stored : Bytes)
      → length payload < u32_mod
      → crc32_of crc32 lsn payload < u32_mod
      → lsn < u64_mod
      → length stored ≡ length payload
      → crc32_of crc32 lsn stored ≢ crc32_of crc32 lsn payload
      → decode_at crc32
          (pre ++ ((take 16 (encode crc32 lsn payload) ++ stored) ++ post))
          (length pre)
        ≡ fail (crc_mismatch lsn (length pre))
  decode_at-encode_damaged pre post lsn payload stored h c l same differ =
      let crc = crc32_of crc32 lsn payload in
      rw
        (
          encode-frame lsn payload h,
          frame-header (length payload) crc lsn payload,
          take-append_length (header (length payload) crc lsn) payload 16
              (sym (length-header (length payload) crc lsn)),
          sym (frame-header (length payload) crc lsn stored),
          sym same,
        )
        (decode-header pre post (length stored) crc lsn stored (omega arith) c l
          ∙ check_payload-whole pre post crc lsn stored
          ∙ rw (==_false (crc32_of crc32 lsn stored) crc differ) refl)

  decode_at-short :
      (pre bytes : Bytes) (kept : ℕ)
      → kept < 16
      → decode_at crc32 (pre ++ take kept bytes) (length pre) ≡ done none
  unfolding decode_at
  decode_at-short pre bytes kept short =
      rw
        (lt→ltb (length (pre ++ take kept bytes)) (length pre + 16)
          (omega (arith, length-append pre (take kept bytes), length-take kept bytes)))
        refl

  check_payload-cut :
      (pre payload : Bytes) (len crc lsn : ℕ)
      → length payload < len
      → check_payload crc32 (pre ++ (frame len crc lsn payload ++ [])) (length pre) len crc lsn
        ≡ done none
  unfolding check_payload
  check_payload-cut pre payload len crc lsn short =
      rw
        (lt→ltb (length (pre ++ (frame len crc lsn payload ++ []))) (length pre + 16 + len)
          (omega (arith, length-buf pre [] len crc lsn payload)))
        refl

  decode_at-cut :
      (pre : Bytes) (crc lsn : ℕ) (payload : Bytes) (kept : ℕ)
      → length payload < u32_mod
      → crc < u32_mod
      → lsn < u64_mod
      → 16 ≤ kept
      → kept < 16 + length payload
      → decode_at crc32 (pre ++ take kept (frame (length payload) crc lsn payload)) (length pre)
        ≡ done none
  decode_at-cut pre crc lsn payload kept h c l long cut =
      let len = length payload in
      let size = length-header len crc lsn in
      rw
        (
          frame-header len crc lsn payload,
          take-append_past (header len crc lsn) payload kept (omega (arith, size)),
          size,
          sym (frame-header len crc lsn (take (kept - 16) payload)),
          sym (append-nil (frame len crc lsn (take (kept - 16) payload))),
        )
        (decode-header pre [] len crc lsn (take (kept - 16) payload) h c l
          ∙ check_payload-cut pre (take (kept - 16) payload) len crc lsn
              (omega (arith, length-take (kept - 16) payload)))

  -- A frame that was cut short is the end of the log, never a wrong frame: with any number of its
  -- bytes missing and nothing after them, `decode_at` returns no frame.
  pub decode_at-encode_torn :
      (pre : Bytes) (lsn : ℕ) (payload : Bytes) (kept : ℕ)
      → length payload < u32_mod
      → crc32_of crc32 lsn payload < u32_mod
      → lsn < u64_mod
      → kept < length (encode crc32 lsn payload)
      → decode_at crc32 (pre ++ take kept (encode crc32 lsn payload)) (length pre) ≡ done none
  decode_at-encode_torn pre lsn payload kept h c l cut = elim (dec_lt kept 16) [
    | yes short ↦ decode_at-short pre (encode crc32 lsn payload) kept short
    | no long ↦ rw (encode-frame lsn payload h) (
        decode_at-cut pre (crc32_of crc32 lsn payload) lsn payload kept h c l (omega (arith, long))
          (omega (
            arith,
            cut,
            ap length (encode-frame lsn payload h),
            length-frame (length payload) (crc32_of crc32 lsn payload) lsn payload,
          )))
  ]
