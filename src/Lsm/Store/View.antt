-- ===== src/Lsm/Store/View.antt =====
-- What a store holds: under each key the value that its merged iterator meets first.
use todb.Prelude.{
  ℕ, suc, ◌<◌, ◌≡◌, refl, ap, ap₂, ◌∙◌, inl, inr, List, [], ◌∷◌, ◌++◌, Option, none, some, Run, ok,
  ◌>>=◌, length, arith, Bool-cases, if◌then◌else◌, leb, ltb,
}
use todb.Bytes.{Bytes}
use todb.Bytes.Order.{eq_bytes}
use todb.Iterators.TwoMerge.Priority.{find, or_else}
use todb.Iterators.Merge.Merged.{find_by_level}
use todb.Memtable.SkipList.{Entry, Item, SkipMap, Laws}
use todb.Memtable.{MemTable, put, delete, estimate_memory}
use todb.Memtable
use todb.Lsm.Batch.{WriteEntry, write_put, write_delete, WriteBatch}
use todb.Lsm.State.{SstMeta, LevelMeta, LsmState, LsmTableOption}
use todb.Lsm.Disk.{DiskManager}
use todb.Lsm.Store.{LsmStore, apply_entry, apply_entries, switch_memtable, relieve, write}

-- the value that a batch leaves under a key: that of its last entry for the key
abbrev pub batch_find : Bytes → List WriteEntry → Option Entry
batch_find k [] = none
batch_find k (write_put key value ∷ es) =
    or_else (batch_find k es) (if eq_bytes key k then some (Entry.put value) else none)
batch_find k (write_delete key ∷ es) =
    or_else (batch_find k es) (if eq_bytes key k then some Entry.delete else none)

or_else_assoc : {V : Type 0} (a b c : Option V) → or_else (or_else a b) c ≡ or_else a (or_else b c)
or_else_assoc none b c = refl
or_else_assoc (some x) b c = refl

-- `reads` are the entries that an iterator over the bytes of a file meets.
module _ {M : Type 0} (sm : SkipMap M) (laws : Laws sm) (reads : Bytes → List Item) where
  abbrev pub contents : DiskManager → ℕ → List Item
  contents disk id = elim (disk.files id) [ none ↦ [] | some file ↦ reads file ]

  abbrev pub mem_lists : List (MemTable M) → List (List Item)
  mem_lists [] = []
  mem_lists (t ∷ ts) = laws.entries t.map ∷ mem_lists ts

  abbrev pub sst_lists : DiskManager → List SstMeta → List (List Item)
  sst_lists disk [] = []
  sst_lists disk (s ∷ ss) = contents disk s.id ∷ sst_lists disk ss

  -- what the `ConcatIter` of a level meets
  abbrev pub joined : List (List Item) → List Item
  joined [] = []
  joined (xs ∷ xss) = xs ++ joined xss

  abbrev pub level_lists : DiskManager → List LevelMeta → List (List Item)
  level_lists disk [] = []
  level_lists disk (l ∷ ls) = joined (sst_lists disk l.ssts) ∷ level_lists disk ls

  -- the sources of `build_merged_iter`: the memtables, level 0, and the levels below
  abbrev pub newest : LsmState M → List (MemTable M)
  newest st = st.active_mem ∷ st.imm_memtables

  abbrev pub level_0 : DiskManager → List LevelMeta → List (List Item)
  level_0 disk [] = []
  level_0 disk (l ∷ ls) = sst_lists disk l.ssts

  abbrev pub lower_levels : DiskManager → List LevelMeta → List (List Item)
  lower_levels disk [] = []
  lower_levels disk (l ∷ ls) = level_lists disk ls

  abbrev pub sst_view : Bytes → DiskManager → List LevelMeta → Option Entry
  sst_view k disk levels =
      or_else (find_by_level k (level_0 disk levels)) (find_by_level k (lower_levels disk levels))

  -- the value under a key: of the memtables the newest, then of level 0 the first, then of the
  -- other levels the first
  abbrev pub view : {L : Type 0} → Bytes → LsmStore L M → Option Entry
  view k s =
      or_else (find_by_level k (mem_lists (newest s.state))) (sst_view k s.disk s.state.levels)

  find-apply_entries :
      (k : Bytes) (t : MemTable M) (es : List WriteEntry)
      → find k (laws.entries (apply_entries sm t es).map)
        ≡ or_else (batch_find k es) (find k (laws.entries t.map))
  unfolding apply_entries apply_entry put delete
  find-apply_entries k t [] = refl
  find-apply_entries k t (write_put key value ∷ es) =
      find-apply_entries k (Memtable.put sm t key value) es
      ∙ ap (or_else (batch_find k es)) (laws.find_insert t.map k key (Entry.put value))
      ∙ ground arith
  find-apply_entries k t (write_delete key ∷ es) =
      find-apply_entries k (Memtable.delete sm t key) es
      ∙ ap (or_else (batch_find k es)) (laws.find_insert t.map k key Entry.delete)
      ∙ ground arith

  -- switching the memtable changes nothing of what is read
  find-switch_memtable :
      (opt : LsmTableOption) (k : Bytes) (st : LsmState M)
      → find_by_level k (mem_lists (newest (switch_memtable sm opt st)))
        ≡ find_by_level k (mem_lists (newest st))
  unfolding switch_memtable Memtable.new find
  find-switch_memtable opt k st =
      elim (Bool-cases (ltb (estimate_memory sm st.active_mem) opt.memtable_size_limit)) [
        | inl t ↦ rw (t, switch_memtable) refl
        | inr f ↦ rw (f, switch_memtable) (rw laws.entries_empty refl)
      ]

  length-switch_memtable :
      (opt : LsmTableOption) (st : LsmState M)
      → length (switch_memtable sm opt st).imm_memtables < suc (suc (length st.imm_memtables))
  unfolding switch_memtable
  length-switch_memtable opt st = ground arith

  levels-switch_memtable :
      (opt : LsmTableOption) (st : LsmState M) → (switch_memtable sm opt st).levels ≡ st.levels
  unfolding switch_memtable
  levels-switch_memtable opt st = ground arith

  module _ {L : Type 0} (append : L → ℕ → WriteBatch → Run L) (opt : LsmTableOption)
      (shard_id : ℕ) where
    -- no flush where there is room for another immutable memtable
    relieve-room :
        (s : LsmStore L M)
        → length s.state.imm_memtables < opt.max_imm_memtables
        → relieve sm append opt shard_id s ≡ ok s
    unfolding relieve
    relieve-room s h = ground arith

    -- A write to a store with room for one more immutable memtable, once the log has taken the
    -- batch, succeeds and keeps what the log returned; afterwards each key reads as the last entry
    -- of the batch for it, and as before where the batch has none, whether or not the memtable was
    -- switched.
    pub write-view :
        (s : LsmStore L M) (batch : WriteBatch) (logged : L)
        → append s.wal shard_id batch ≡ ok logged
        → suc (length s.state.imm_memtables) < opt.max_imm_memtables
        → (k : Bytes)
        → (t : LsmStore L M) × (write sm append opt shard_id s batch ≡ ok t)
          × (t.wal ≡ logged)
          × (view k t ≡ or_else (batch_find k batch.entries) (view k s))
    unfolding write
    write-view s batch logged e room k =
        let active = apply_entries sm s.state.active_mem batch.entries in
        let st : LsmState M = record s.state { active_mem = active } in
        let rest = find_by_level k (mem_lists s.state.imm_memtables) in
        let found = find-apply_entries k s.state.active_mem batch.entries in
        let old = find k (laws.entries s.state.active_mem.map) in
        let ssts = sst_view k s.disk s.state.levels in
        let answer =
          ap (λ (v : Option Entry). or_else (or_else v rest) ssts) found
          ∙ ap (λ (v : Option Entry). or_else v ssts)
              (or_else_assoc (batch_find k batch.entries) old rest)
          ∙ or_else_assoc (batch_find k batch.entries) (or_else old rest) ssts in
        elim (Bool-cases (leb opt.memtable_size_limit (estimate_memory sm active))) [
          | inr f ↦ (
            record { state = st; wal = logged; disk = s.disk },
            rw (e, ◌>>=◌) (rw f refl),
            refl,
            answer,
          )
          | inl t ↦
              let switched = switch_memtable sm opt st in
              let u : LsmStore L M = record { state = switched; wal = logged; disk = s.disk } in
              (
                u,
                rw (e, ◌>>=◌)
                    (rw t (relieve-room u (omega (arith, length-switch_memtable opt st, room)))),
                refl,
                ap₂ or_else (find-switch_memtable opt k st)
                      (ap (sst_view k s.disk) (levels-switch_memtable opt st))
                    ∙ answer,
              )
        ]
