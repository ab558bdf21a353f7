-- ===== src/Examples/Cache.antt =====
-- A pool of three frames, of which one is free, and a cache of two blocks of a file of three.
use todb.Prelude.{
  Bool-cases, inl, inr, if◌then◌else◌, ◌*◌, ℕ, ◌<◌, ◌≡◌, refl, ok, [], ◌∷◌, arith, length, none,
  some, true, false, get_elem?,
}
use todb.Bytes.{Bytes}
use todb.Wal.Clock.{BlockKey, ClockCache, same_block, find_victim}
use todb.Wal.Clock.Victim.{pins, find_victim-unpinned}
use todb.Wal.Iter.{pread_all}
use todb.Wal.Disk.{DiskManager, read_block}
use todb.Wal.Disk.Keys.{HasKey}
use todb.Wal.Disk.Holds.{HoldsBlock, Holds, Returned, length-pread_all, same_block_sound}
use todb.Wal.Disk.Reads.{read_block-Returned}

abbrev pool : ClockCache
pool = record {
  frames =
      record { key = none; ref_bit = false; pin_count = 2 }
      ∷ record { key = none; ref_bit = true; pin_count = 0 }
      ∷ record { key = none; ref_bit = true; pin_count = 1 }
      ∷ [];
  table = λ k. none;
  hand = 2;
}

find_victim-unpinned_example :
    (i : ℕ) × (after : ClockCache) × (find_victim pool ≡ ok (some i, after))
    × (get_elem? (pins pool.frames) i ≡ some 0)
    × (pins after.frames ≡ pins pool.frames)
    × (after.table ≡ pool.table)
    × (after.hand < length after.frames)
find_victim-unpinned_example = find_victim-unpinned pool 1 (omega arith) refl

abbrev file : Bytes
file = 1 ∷ 2 ∷ 3 ∷ 4 ∷ 5 ∷ 6 ∷ []

abbrev zeros : Bytes
zeros = 0 ∷ 0 ∷ []

abbrev block : ℕ → BlockKey
block i = record { seg_id = 1; block_idx = i }

-- frame 0 is pinned and holds block 0, and frame 1 holds block 1
abbrev manager : DiskManager
manager = record {
  cache = record {
    frames =
        record { key = some (block 0); ref_bit = true; pin_count = 1 }
        ∷ record { key = some (block 1); ref_bit = true; pin_count = 0 }
        ∷ [];
    table = λ k.
        if same_block k (block 0) then some 0 else if same_block k (block 1) then some 1 else none;
    hand = 0;
  };
  bufs = λ i. pread_all file zeros (i * 2);
}

manager-mapped :
    (k : BlockKey) (i : ℕ)
    → manager.cache.table k ≡ some i
    → HasKey manager.cache.frames i k × HoldsBlock 2 file k.block_idx (manager.bufs i)
manager-mapped k i m = elim (Bool-cases (same_block k (block 0))) [
  | inl t ↦
      let e : some 0 ≡ some i = rw t at m in
      let at_0 : 0 ≡ i = cc e in
      rw (← at_0, same_block_sound k (block 0) t)
        (
          (record { key = some (block 0); ref_bit = true; pin_count = 1 }, refl, refl),
          (zeros, refl, refl),
        )
  | inr u ↦ elim (Bool-cases (same_block k (block 1))) [
    | inl t ↦
        let e : some 1 ≡ some i = rw (u, t) at m in
        let at_1 : 1 ≡ i = cc e in
        rw (← at_1, same_block_sound k (block 1) t)
          (
            (record { key = some (block 1); ref_bit = true; pin_count = 0 }, refl, refl),
            (zeros, refl, refl),
          )
    | inr v ↦ let e : none ≡ some i = rw (u, v) at m in cc e
  ]
]

manager-Holds : Holds 2 (λ s. file) manager
manager-Holds = record {
  hand = omega arith;
  sizes = λ i. length-pread_all file zeros (i * 2);
  mapped = manager-mapped;
}

-- block 2 takes the frame of block 1
read_block-Returned_example :
    (idx : ℕ) × (t : DiskManager) × (read_block file manager (block 2) ≡ ok (some idx, t))
    × Returned 2 (λ s. file) manager (block 2) idx t
read_block-Returned_example =
    read_block-Returned 2 (λ s. file) manager (block 2) 1 manager-Holds refl
