-- ===== src/Wal/Index.antt =====
-- crates/storage/src/wal/index.rs: the keys and values of a segment's index, and the header of
-- its `.meta` file, of which two copies are kept. The checksum of the crate `crc32fast` is a
-- parameter. The four bytes of `magic`, an array in the source, are a byte sequence.
pub mod Keys
pub mod Header
use todb.Prelude.{
  ℕ, ◌==◌, ◌++◌, length, ltb, [], ◌∷◌, Option, none, some, if◌then◌else◌, Run, ok, ◌>>=◌,
}
use todb.Bytes.{Bytes, slice, le_bytes, from_le, be_bytes, from_be}
use todb.Wal.Error.{WalRun, done, fail, header_corrupt, lift, and_then}

unfoldable pub lsn_to_key : ℕ → Bytes
lsn_to_key lsn = be_bytes 8 lsn

unfoldable pub key_to_lsn : Bytes → Run ℕ
key_to_lsn key = do b ← slice key 0 8; ok (from_be b)

unfoldable pub encode_offset_len : ℕ → ℕ → Bytes
encode_offset_len offset len = le_bytes 8 offset ++ le_bytes 4 len

unfoldable pub decode_offset_len : Bytes → Run (ℕ × ℕ)
decode_offset_len b = do offset ← slice b 0 8; len ← slice b 8 12; ok (from_le offset, from_le len)

abbrev pub magic_bytes : Bytes
magic_bytes = 87 ∷ 73 ∷ 68 ∷ 88 ∷ []

abbrev pub idx_header_len : ℕ
idx_header_len = 36

pub record IdxHeader : Type 0 where
  pub magic : Bytes
  pub version : ℕ
  pub seg_id : ℕ
  pub min_live_lsn : ℕ
  pub max_live_lsn : ℕ
  pub entry_count : ℕ
  pub header_crc : ℕ

unfoldable pub serialize_fields : IdxHeader → Bytes
serialize_fields h =
    h.magic
    ++ (le_bytes 4 h.version
        ++ (le_bytes 4 h.seg_id
            ++ (le_bytes 8 h.min_live_lsn
                ++ (le_bytes 8 h.max_live_lsn ++ le_bytes 4 h.entry_count))))

unfoldable pub serialize : IdxHeader → Bytes
serialize h = serialize_fields h ++ le_bytes 4 h.header_crc

module _ (crc32 : Bytes → ℕ) where
  unfoldable pub new : ℕ → ℕ → ℕ → ℕ → IdxHeader
  new seg_id min_live_lsn max_live_lsn entry_count =
      let h : IdxHeader = record {
        magic = magic_bytes;
        version = 1;
        seg_id = seg_id;
        min_live_lsn = min_live_lsn;
        max_live_lsn = max_live_lsn;
        entry_count = entry_count;
        header_crc = 0;
      } in
      record {
        magic = magic_bytes;
        version = 1;
        seg_id = seg_id;
        min_live_lsn = min_live_lsn;
        max_live_lsn = max_live_lsn;
        entry_count = entry_count;
        header_crc = crc32 (serialize_fields h);
      }

  unfoldable pub read_fields : Bytes → ℕ → Run (Option IdxHeader)
  read_fields buf stored_crc = do
    magic ← slice buf 0 4
    version ← slice buf 4 8
    seg_id ← slice buf 8 12
    min_live_lsn ← slice buf 12 20
    max_live_lsn ← slice buf 20 28
    entry_count ← slice buf 28 32
    ok (
        some (record {
          magic = magic;
          version = from_le version;
          seg_id = from_le seg_id;
          min_live_lsn = from_le min_live_lsn;
          max_live_lsn = from_le max_live_lsn;
          entry_count = from_le entry_count;
          header_crc = stored_crc;
        }))

  unfoldable pub deserialize : Bytes → Run (Option IdxHeader)
  deserialize buf = if ltb (length buf) idx_header_len then ok none else do
    stored ← slice buf 32 36
    fields ← slice buf 0 32
    if crc32 fields == from_le stored then read_fields buf (from_le stored) else ok none

  -- both copies are read before either is looked at
  unfoldable pub pick : Bytes → Option IdxHeader → Option IdxHeader → WalRun IdxHeader
  pick copy_a (some h) b = done h
  pick copy_a none (some h) = done h
  pick copy_a none none =
      and_then (lift (slice copy_a 8 12)) (λ b. fail (header_corrupt (from_le b)))

  unfoldable pub select_valid_header : Bytes → Bytes → WalRun IdxHeader
  select_valid_header copy_a copy_b =
      and_then (lift (deserialize copy_a))
        (λ a. and_then (lift (deserialize copy_b)) (λ b. pick copy_a a b))
