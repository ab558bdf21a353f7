-- ===== src/Lsm/Store.antt =====
-- crates/storage/src/lsm_store.rs: `LsmStore`, its writes, the switch of the memtable and the flush.
--
-- The locks make each operation one step on the state here. The write-ahead log that the store is
-- given is a trait that the repository does not have: `append` stands for it. An error ends a run,
-- so what an operation has done before it is not kept.
pub mod View
pub mod Memory
pub mod Ends
pub mod Stored
use mathlib.Core.List.{map}
use todb.Prelude.{
  ℕ, zero, suc, ◌+◌, Bool, true, false, List, [], ◌∷◌, ◌++◌, Option, none, some, Run, ok, ◌>>=◌,
  length, get_last?, if◌then◌else◌, leb, ltb,
}
use todb.Bytes.{Bytes}
use todb.Builder.DataBlock.{SstOption}
use todb.Builder.Sst.{SstBuilder}
use todb.Builder.Sst
use todb.Block
use todb.Iterators.Drain.{drain}
use todb.Iterators.Merge.{forward_scan}
use todb.Memtable.SkipList.{Entry, Item, SkipMap}
use todb.Memtable.{MemTable, MemTableIter, mem_table_iter, estimate_memory}
use todb.Memtable
use todb.Lsm.Batch.{WriteEntry, write_put, write_delete, WriteBatch}
use todb.Lsm.State.{SstMeta, LevelMeta, LsmState, LsmTableOption}
use todb.Lsm.Disk.{DiskManager, create_sst, store_file}

-- `state`, the shared log, and the shared directory
pub record LsmStore (L M : Type 0) : Type 0 where
  pub state : LsmState M
  pub wal : L
  pub disk : DiskManager

-- one entry of the loop in `build_sst_from_memtable`
unfoldable pub add_item : SstBuilder → Item → Run SstBuilder
add_item b (key, Entry.put v) = Sst.add b key v
add_item b (key, Entry.delete) = Sst.add_delete b key

unfoldable pub add_items : SstBuilder → List Item → Run SstBuilder
add_items b [] = ok b
add_items b (x ∷ xs) = do b ← add_item b x; add_items b xs

-- all but the last element
abbrev pub drop_last {ℓ} : {A : Type ℓ} → List A → List A
drop_last [] = []
drop_last (x ∷ []) = []
drop_last (x ∷ y ∷ xs) = x ∷ drop_last (y ∷ xs)

-- an SST at the end of level 0, which is made if there is no level
unfoldable pub push_sst : SstMeta → List LevelMeta → List LevelMeta
push_sst sst [] = record { level = 0; ssts = sst ∷ [] } ∷ []
push_sst sst (l ∷ ls) = record l { ssts = l.ssts ++ sst ∷ [] } ∷ ls

module _ {M : Type 0} (sm : SkipMap M) where
  -- the loop of `write` over a batch
  unfoldable pub apply_entry : MemTable M → WriteEntry → MemTable M
  apply_entry t (write_put key value) = Memtable.put sm t key value
  apply_entry t (write_delete key) = Memtable.delete sm t key

  unfoldable pub apply_entries : MemTable M → List WriteEntry → MemTable M
  apply_entries t [] = t
  apply_entries t (e ∷ es) = apply_entries (apply_entry t e) es

  -- `switch_memtable`: nothing where another thread has switched
  unfoldable pub switch_memtable : LsmTableOption → LsmState M → LsmState M
  switch_memtable opt st =
      if ltb (estimate_memory sm st.active_mem) opt.memtable_size_limit then st else record st {
        active_mem = Memtable.new sm;
        imm_memtables = st.active_mem ∷ st.imm_memtables;
      }

  -- the entries of a memtable, read by its iterator
  unfoldable pub read_memtable : MemTable M → Run (List Item)
  read_memtable imm = do
    it ← Memtable.seek_to_first sm forward_scan (Memtable.iter sm imm)
    drain (mem_table_iter sm forward_scan) (suc (Memtable.len sm imm)) it

  unfoldable pub build_sst_from_memtable : DiskManager → MemTable M → Run (SstMeta × DiskManager)
  build_sst_from_memtable disk imm = do
    let opt : SstOption = record { block_size = disk.block_size }
    let writer : Block.DefaultSstWriter = record { inner = Block.new; option = opt }
    items ← read_memtable imm
    b ← add_items (Sst.new writer opt) items
    done ← Sst.finish b
    ok (
      record {
        id = (create_sst disk).0;
        key_range = (done.0.first_key, done.0.last_key);
        file_size = length done.1.inner.buf;
      },
      store_file (create_sst disk).1 (create_sst disk).0 done.1.inner.buf,
    )

  -- the end of `flush_oldest_imm`: the oldest memtable out, its SST in
  unfoldable pub install_sst : SstMeta → LsmState M → LsmState M
  install_sst sst st = record st {
    imm_memtables = drop_last st.imm_memtables;
    levels = push_sst sst st.levels;
  }

  unfoldable pub flush_oldest_imm : {L : Type 0} → LsmStore L M → Run (LsmStore L M)
  flush_oldest_imm s = elim (get_last? s.state.imm_memtables) [
    | none ↦ ok s
    | some oldest ↦ do
      built ← build_sst_from_memtable s.disk oldest
      ok (record s { state = install_sst built.0 s.state; disk = built.1 })
  ]

  module _ {L : Type 0} (append : L → ℕ → WriteBatch → Run L) (opt : LsmTableOption)
      (shard_id : ℕ) where
    -- the passive flush at the end of `write`
    unfoldable pub relieve : LsmStore L M → Run (LsmStore L M)
    relieve s = elim (leb opt.max_imm_memtables (length s.state.imm_memtables)) [
      | true ↦ flush_oldest_imm s
      | false ↦ ok s
    ]

    unfoldable pub write : LsmStore L M → WriteBatch → Run (LsmStore L M)
    write s batch = do
      wal ← append s.wal shard_id batch
      let active = apply_entries s.state.active_mem batch.entries
      let state = record s.state { active_mem = active }
      let s = record s { wal = wal; state = state }
      elim (leb opt.memtable_size_limit (estimate_memory sm active)) [
        | false ↦ ok s
        | true ↦ relieve (record s { state = switch_memtable opt s.state })
      ]
