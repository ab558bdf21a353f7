-- ===== src/Wal/Frame.antt =====
-- crates/storage/src/wal/frame.rs: `encode` and `DecodedFrame::decode_at`. The checksum of the
-- crate `crc32fast` is a parameter: a hasher that is fed two slices has the checksum of both
-- together.
pub mod RoundTrip
use todb.Prelude.{ℕ, ◌+◌, ◌==◌, ◌++◌, length, ltb, Option, none, some, if◌then◌else◌}
use todb.Bytes.{Bytes, slice, le_bytes, from_le, as_u32}
use todb.Wal.Error.{WalRun, done, fail, crc_mismatch, lift, ◌>>=◌}

abbrev pub header_len : ℕ
header_len = 16

pub record DecodedFrame : Type 0 where
  pub lsn : ℕ
  pub total_len : ℕ

module _ (crc32 : Bytes → ℕ) where
  -- `crc32_of`
  unfoldable pub crc32_of : ℕ → Bytes → ℕ
  crc32_of lsn payload = crc32 (le_bytes 8 lsn ++ payload)

  unfoldable pub encode : ℕ → Bytes → Bytes
  encode lsn payload =
      le_bytes 4 (as_u32 (length payload))
      ++ (le_bytes 4 (crc32_of lsn payload) ++ (le_bytes 8 lsn ++ payload))

  -- the checks that follow the header
  unfoldable pub check_payload : Bytes → ℕ → ℕ → ℕ → ℕ → WalRun (Option DecodedFrame)
  check_payload buf offset len crc lsn =
      let frame_end = offset + header_len + len in
      if ltb (length buf) frame_end then done none else do
        payload ← lift (slice buf (offset + header_len) frame_end)
        if crc32 (le_bytes 8 lsn ++ payload) == crc
            then done (some (record { lsn = lsn; total_len = header_len + len }))
            else fail (crc_mismatch lsn offset)

  unfoldable pub decode_at : Bytes → ℕ → WalRun (Option DecodedFrame)
  decode_at buf offset = if ltb (length buf) (offset + header_len) then done none else do
    len_bytes ← lift (slice buf offset (offset + 4))
    crc_bytes ← lift (slice buf (offset + 4) (offset + 8))
    lsn_bytes ← lift (slice buf (offset + 8) (offset + 16))
    check_payload buf offset (from_le len_bytes) (from_le crc_bytes) (from_le lsn_bytes)
