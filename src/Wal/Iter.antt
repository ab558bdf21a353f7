-- ===== src/Wal/Iter.antt =====
-- crates/storage/src/wal/iter.rs: the index of a segment's records and the iterator over the records
-- of a log, from the blocks that its reads return; and from crates/storage/src/wal/disk.rs the read
-- of a file past the cache. A file is its bytes.
pub mod Blocks
pub mod Loads
use todb.Prelude.{
  ℕ, zero, suc, ◌+◌, ◌-◌, ◌*◌, ◌/◌, ◌%◌, ◌++◌, Bool, List, [], ◌∷◌, length, take, drop, min, Option,
  none, some, replicate, leb, ltb, Run, ok, ◌>>=◌, if◌then◌else◌,
}
use todb.Bytes.{Bytes, slice, from_be}
use todb.Builder.Footer.{SstFooter, decode}
use todb.Iterators.Traits.{Iter}
use todb.Iterators.DataEntryDecode.{EntryValue}
use todb.Iterators.DataEntryDecode
use todb.Memtable.SkipList.{Entry}
use todb.Wal.Error.{WalRun, done, fail, crash, io, lift, and_then}
use todb.Wal.Frame.{DecodedFrame, decode_at, header_len}
use todb.Wal.Index.{lsn_to_key, key_to_lsn, decode_offset_len}

-- the number of a segment, and what its `.log` file holds
pub record Segment : Type 0 where
  pub seg_id : ℕ
  pub log : Bytes

pub record IndexEntry : Type 0 where
  pub segment : Segment
  pub offset : ℕ
  pub len : ℕ

pub record SegmentIndexIter (I : Type 0) : Type 0 where
  pub inner : I
  pub segment : Segment

-- `pread_all` of wal/segment.rs: at the end of the file it stops, and the rest of the buffer keeps
-- what it held
unfoldable pub pread_all : Bytes → Bytes → ℕ → Bytes
pread_all file buf offset =
    let got = take (length buf) (drop offset file) in got ++ drop (length got) buf

-- a read at any offset, through whole blocks; `block_size` is at least 1
unfoldable pub raw_read : ℕ → Bytes → ℕ → ℕ → WalRun Bytes
raw_read block_size file offset len =
    let aligned_offset = (offset / block_size) * block_size in
    let offset_in_block = offset - aligned_offset in
    let total_len = offset_in_block + len in
    let aligned_len = ((total_len + block_size - 1) / block_size) * block_size in
    let buf = pread_all file (replicate aligned_len 0) aligned_offset in
    lift (slice buf offset_in_block (offset_in_block + len))

-- the bytes of an index entry, in a memtable and in an SST
abbrev pub mem_bytes : Entry → Option Bytes
mem_bytes (Entry.put b) = some b
mem_bytes Entry.delete = none

abbrev pub sst_bytes : EntryValue → Option Bytes
sst_bytes (EntryValue.put b) = some b
sst_bytes EntryValue.delete = none

-- `value`: none for a tombstone
unfoldable pub entry_at : Segment → Option Bytes → Run (Option IndexEntry)
entry_at segment none = ok none
entry_at segment (some b) = do
  p ← decode_offset_len b
  ok (some (record { segment = segment; offset = p.0; len = p.1 }))

unfoldable pub value_at :
    {V : Type 0} → (V → Option Bytes) → Segment → Option V → Run (Option IndexEntry)
value_at bytes segment none = ok none
value_at bytes segment (some v) = entry_at segment (bytes v)

module _ {I V : Type 0} (ops : Iter I V) (bytes : V → Option Bytes) where
  -- the same iterator, moved
  abbrev pub moved : SegmentIndexIter I → Run I → Run (SegmentIndexIter I)
  moved s r = do x ← r; ok (record s { inner = x })

  -- over a memtable with `mem_bytes`, over an SST with `sst_bytes`
  abbrev pub segment_index_iter : Iter (SegmentIndexIter I) IndexEntry
  segment_index_iter = record {
    valid = λ s. ops.valid s.inner;
    key = λ s. ops.key s.inner;
    value = λ s. ops.value s.inner >>= value_at bytes s.segment;
    seek_to_first = λ s. moved s (ops.seek_to_first s.inner);
    seek = λ s target. moved s (ops.seek s.inner target);
    next = λ s. moved s (ops.next s.inner);
  }

-- the loop over the blocks behind the first
unfoldable pub rest_of_frame : ℕ → List Bytes → ℕ → WalRun Bytes
rest_of_frame block_size [] remaining = done []
rest_of_frame block_size (g ∷ gs) zero = done []
rest_of_frame block_size (g ∷ gs) (suc r) =
    let copy_len = min (suc r) block_size in
    and_then (lift (slice g 0 copy_len))
      λ b. and_then (rest_of_frame block_size gs (suc r - copy_len)) λ tail. done (b ++ tail)

-- the first block, from `block_offset` on, and the rest
unfoldable pub assemble : ℕ → ℕ → ℕ → List Bytes → WalRun Bytes
assemble block_size block_offset len [] = crash
assemble block_size block_offset len (g ∷ gs) =
    let first_copy_len = min (block_size - block_offset) len in
    and_then (lift (slice g block_offset (block_offset + first_copy_len)))
      λ b. and_then (rest_of_frame block_size gs (len - first_copy_len)) λ tail. done (b ++ tail)

pub record WalIter (X : Type 0) : Type 0 where
  pub index_iter : X
  pub buffer : Bytes

-- `ok_or_else`
abbrev pub or_io {ℓ} : {A : Type ℓ} → Option A → WalRun A
or_io none = fail io
or_io (some a) = done a

-- the range of blocks that `load_current_frame` reads: the first, and how many. `offset + len - 1`
-- panics at 0.
unfoldable pub block_range : ℕ → IndexEntry → WalRun (ℕ × ℕ)
block_range block_size e =
    if leb 1 (e.offset + e.len)
    then (let start_block = e.offset / block_size in
        let end_block = (e.offset + e.len - 1) / block_size in
        done (start_block, suc end_block - start_block))
    else crash

-- the rest of `load_current_frame`, from the guards of these blocks: the frame, and the buffer
unfoldable pub decode_guards :
    (Bytes → ℕ) → ℕ → IndexEntry → List Bytes → WalRun (DecodedFrame × Bytes)
decode_guards crc32 block_size e guards =
    and_then (assemble block_size (e.offset % block_size) e.len guards) λ buffer.
      and_then (decode_at crc32 buffer 0) λ r. and_then (or_io r) λ frame. done (frame, buffer)

-- the payload that `value` returns of it
unfoldable pub payload_at : DecodedFrame × Bytes → WalRun Bytes
payload_at (frame, buffer) =
    lift (slice buffer header_len (header_len + (frame.total_len - header_len)))

module _ {X : Type 0} (ops : Iter X IndexEntry) where
  unfoldable pub valid : WalIter X → Bool
  valid s = ops.valid s.index_iter

  -- `key`, of an index whose keys are numbers
  unfoldable pub lsn_of : Option Bytes → Run (Option ℕ)
  lsn_of none = ok none
  lsn_of (some k) = do n ← key_to_lsn k; ok (some n)

  unfoldable pub key : WalIter X → Run (Option ℕ)
  key s = ops.key s.index_iter >>= lsn_of

  abbrev pub moved_to : WalIter X → Run X → WalRun (WalIter X)
  moved_to s r = and_then (lift r) λ x. done (record s { index_iter = x })

  unfoldable pub next : WalIter X → WalRun (WalIter X)
  next s = moved_to s (ops.next s.index_iter)

  unfoldable pub seek_to_first : WalIter X → WalRun (WalIter X)
  seek_to_first s = moved_to s (ops.seek_to_first s.index_iter)

  unfoldable pub seek : WalIter X → ℕ → WalRun (WalIter X)
  seek s lsn = moved_to s (ops.seek s.index_iter (lsn_to_key lsn))
