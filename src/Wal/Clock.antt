-- ===== src/Wal/Clock.antt =====
-- crates/storage/src/wal/disk.rs: `ClockCache`, the pool of block frames. A frame's buffer is left
-- out; the page table, a hash map, is a function.
pub mod Victim
use todb.Prelude.{
  ℕ, zero, suc, ◌+◌, ◌-◌, ◌*◌, ◌%◌, Bool, true, false, not, ◌&&◌, List, [], ◌∷◌, length, get_elem?,
  set, replicate, Option, none, some, ◌==◌, ltb, if◌then◌else◌, Run, ok, panic, unwrap, assert,
  ◌>>=◌, ◌>>◌,
}

pub record BlockKey : Type 0 where
  pub seg_id : ℕ
  pub block_idx : ℕ

abbrev pub same_block : BlockKey → BlockKey → Bool
same_block a b = (a.seg_id == b.seg_id) && (a.block_idx == b.block_idx)

pub record Frame : Type 0 where
  pub key : Option BlockKey
  pub ref_bit : Bool
  pub pin_count : ℕ

pub record ClockCache : Type 0 where
  pub frames : List Frame
  pub table : BlockKey → Option ℕ
  pub hand : ℕ

unfoldable pub new : ℕ → ClockCache
new capacity = record {
  frames = replicate capacity (record { key = none; ref_bit = false; pin_count = 0 });
  table = λ k. none;
  hand = 0;
}

-- `self.frames[i]`, which panics out of range
abbrev pub frame_at : List Frame → ℕ → Run Frame
frame_at frames i = unwrap (get_elem? frames i)

-- may the frame be evicted?
abbrev pub evictable : Frame → Bool
evictable f = (f.pin_count == 0) && not f.ref_bit

-- the second chance: an unpinned frame loses its reference bit
abbrev pub second_chance : List Frame → ℕ → Frame → List Frame
second_chance frames hand f =
    if f.pin_count == 0 then set frames hand (record f { ref_bit = false }) else frames

-- the rounds of `find_victim` over `n` frames
unfoldable pub sweep : ℕ → ℕ → List Frame → ℕ → Run (Option ℕ × List Frame × ℕ)
sweep zero n frames hand = ok (none, frames, hand)
sweep (suc rounds) n frames hand = do
  f ← frame_at frames hand
  let next = (hand + 1) % n
  let rest = sweep rounds n (second_chance frames hand f) next
  if evictable f then ok (some hand, frames, next) else rest

unfoldable pub find_victim : ClockCache → Run (Option ℕ × ClockCache)
find_victim c =
    let n = length c.frames in
    if n == 0 then ok (none, c) else do
      swept ← sweep (2 * n) n c.frames c.hand
      ok (swept.0, record c { frames = swept.1; hand = swept.2 })

unfoldable pub pin_hit : ClockCache → BlockKey → Run (Option ℕ × ClockCache)
pin_hit c key = elim (c.table key) [
  | none ↦ ok (none, c)
  | some idx ↦ do
    f ← frame_at c.frames idx
    ok (
      some idx,
      record c {
        frames = set c.frames idx (record f { pin_count = f.pin_count + 1; ref_bit = true });
      },
    )
]

-- `self.table.remove(&old)` where the frame has a block
abbrev pub table_without : (BlockKey → Option ℕ) → Option BlockKey → BlockKey → Option ℕ
table_without table none = table
table_without table (some old) = λ k. if same_block k old then none else table k

unfoldable pub prepare_load : ClockCache → ℕ → Run ClockCache
prepare_load c idx = do
  f ← frame_at c.frames idx
  ok (record c {
    frames = set c.frames idx (record { key = none; ref_bit = false; pin_count = 1 });
    table = table_without c.table f.key;
  })

unfoldable pub commit_load : ClockCache → ℕ → BlockKey → Run ClockCache
commit_load c idx key = do
  f ← frame_at c.frames idx
  ok (record c {
    frames = set c.frames idx (record f { key = some key; ref_bit = true });
    table = λ k. if same_block k key then some idx else c.table k;
  })

-- the subtraction panics at 0
unfoldable pub unpin : ClockCache → ℕ → Run (Bool × ClockCache)
unpin c idx = do
  f ← frame_at c.frames idx
  assert (ltb 0 f.pin_count)
  ok (
    f.pin_count - 1 == 0,
    record c { frames = set c.frames idx (record f { pin_count = f.pin_count - 1 }) },
  )
