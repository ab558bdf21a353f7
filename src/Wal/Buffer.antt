-- ===== src/Wal/Buffer.antt =====
-- crates/storage/src/wal/buffer.rs: the write buffer, without the bytes of its frames. An atomic
-- operation is a step on the state; `usize` and `u64` are 64 bits wide.
pub mod Claims
use todb.Prelude.{
  ℕ, ◌+◌, ◌*◌, ◌/◌, ◌%◌, ltb, if◌then◌else◌, List, Option, none, some, Run, ok, assert, ◌>>=◌, ◌>>◌,
  replicate, Bool, ◌||◌,
}
use todb.Bytes.{u32_mod, u64_mod}
use todb.Wal.Frame.{header_len}

abbrev pub state_active : ℕ
state_active = 0

abbrev pub state_full : ℕ
state_full = 1

-- `(pos << 32) | frame_len`, whose halves do not overlap: in a debug build it panics on a position
-- that does not fit
unfoldable pub pack : ℕ → ℕ → Run ℕ
pack pos frame_len = do assert (ltb pos u32_mod); ok (pos * u32_mod % u64_mod + frame_len)

unfoldable pub unpack : ℕ → ℕ × ℕ
unpack v = (v / u32_mod, v % u32_mod)

pub record WalBuffer : Type 0 where
  pub write_pos : ℕ
  pub entries_allocated : ℕ
  pub entries : List ℕ
  pub in_flight : ℕ
  pub state : ℕ
  pub min_lsn : ℕ
  pub count : ℕ
  pub seg_id : ℕ
  pub capacity : ℕ
  pub max_entries : ℕ

unfoldable pub new : ℕ → ℕ → ℕ → WalBuffer
new buffer_size min_lsn seg_id = record {
  write_pos = 0;
  entries_allocated = 0;
  entries = replicate (buffer_size / header_len) 0;
  in_flight = 0;
  state = state_active;
  min_lsn = min_lsn;
  count = 0;
  seg_id = seg_id;
  capacity = buffer_size;
  max_entries = buffer_size / header_len;
}

unfoldable pub reset : WalBuffer → ℕ → WalBuffer
reset b next_min_lsn = record b {
  write_pos = 0;
  entries_allocated = 0;
  in_flight = 0;
  count = 0;
  min_lsn = next_min_lsn;
  state = state_active;
}

-- `fetch_add` wraps around; `checked_add` does not
unfoldable pub claim_buffer_range : WalBuffer → ℕ → Option ℕ × WalBuffer
claim_buffer_range b frame_len =
    let pos = b.write_pos in
    let c : WalBuffer = record b { write_pos = (pos + frame_len) % u64_mod } in
    if ltb (pos + frame_len) u64_mod
    then (if ltb c.capacity (pos + frame_len) then (none, c) else (some pos, c))
    else (none, c)

unfoldable pub claim_slot : WalBuffer → Run (ℕ × WalBuffer)
claim_slot b = do
  let slot = b.entries_allocated
  let c : WalBuffer = record b { entries_allocated = (slot + 1) % u64_mod }
  assert (ltb slot c.max_entries)
  ok (slot, c)
