-- ===== src/Wal/Disk.antt =====
-- crates/storage/src/wal/disk.rs: `DiskManager::read_block` over the cache, one call at a time. The
-- buffers of the frames stand beside the cache, and a segment's number for one file; the system
-- calls do not fail.
pub mod Keys
pub mod Holds
pub mod Reads
use todb.Prelude.{ℕ, ◌*◌, ◌==◌, length, Option, none, some, Run, ok, ◌>>=◌, if◌then◌else◌}
use todb.Bytes.{Bytes}
use todb.Wal.Clock.{BlockKey, ClockCache, pin_hit, find_victim, prepare_load, commit_load}
use todb.Wal.Iter.{pread_all}

pub record DiskManager : Type 0 where
  pub cache : ClockCache
  pub bufs : ℕ → Bytes

-- the buffer of a frame after a load
abbrev pub with_buf : (ℕ → Bytes) → ℕ → Bytes → ℕ → Bytes
with_buf bufs idx buf i = if i == idx then buf else bufs i

-- the index of the pinned frame, and none where the call waits for a frame to be unpinned
unfoldable pub read_block : Bytes → DiskManager → BlockKey → Run (Option ℕ × DiskManager)
read_block file d key = do
  hit ← pin_hit d.cache key
  elim hit.0 [
    | some idx ↦ ok (some idx, record d { cache = hit.1 })
    | none ↦ do
      victim ← find_victim hit.1
      elim victim.0 [
        | none ↦ ok (none, record d { cache = victim.1 })
        | some idx ↦ do
          c ← prepare_load victim.1 idx
          let buf = pread_all file (d.bufs idx) (key.block_idx * length (d.bufs idx))
          c ← commit_load c idx key
          ok (some idx, record { cache = c; bufs = with_buf d.bufs idx buf })
      ]
  ]
