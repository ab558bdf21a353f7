-- ===== src/Lsm/Store/Ends.antt =====
-- The flush reads all of a memtable, and every operation of the store ends.
use todb.Prelude.{
  ℕ, suc, ◌<◌, ◌≡◌, ◌≢◌, refl, inl, inr, List, [], ◌∷◌, Option, none, some, Run, ok, no_fuel, ◌>>=◌,
  length, get_last?, arith, Bool-cases, leb,
}
use todb.Iterators.Drain.{scan_all, scan_all_lem}
use todb.Iterators.Merge.{forward_scan, order_of}
use todb.Builder.Sst.{SstBuilder}
use todb.Builder.Sst
use todb.Builder.Sst.Levels.{bind-ne-no_fuel, operations_end}
use todb.Memtable.SkipList.{Entry, Item, SkipMap, Laws}
use todb.Memtable.{MemTable, mem_table_iter, iter, len, estimate_memory}
use todb.Memtable.Scans.{mem_table_iter-Scans, mem_table-Good}
use todb.Lsm.Batch.{WriteBatch}
use todb.Lsm.State.{LsmTableOption}
use todb.Lsm.Disk.{DiskManager}
use todb.Lsm.Store.{
  LsmStore, add_item, add_items, apply_entries, read_memtable, build_sst_from_memtable,
  flush_oldest_imm, relieve, write,
}

add_items-ne-no_fuel : (b : SstBuilder) (xs : List Item) → add_items b xs ≢ no_fuel
unfolding add_items add_item
add_items-ne-no_fuel b [] = λ q. cc q
add_items-ne-no_fuel b ((key, Entry.put v) ∷ xs) =
    bind-ne-no_fuel (Sst.add b key v) _ (operations_end b key v).0 λ c _. add_items-ne-no_fuel c xs
add_items-ne-no_fuel b ((key, Entry.delete) ∷ xs) =
    bind-ne-no_fuel (Sst.add_delete b key) _ (operations_end b key []).1
      λ c _. add_items-ne-no_fuel c xs

module _ {M : Type 0} (sm : SkipMap M) (laws : Laws sm) where
  len_fits : (t : MemTable M) → length (laws.entries t.map) < suc (len sm t)
  unfolding len
  len_fits t = omega (arith, laws.len_at t.map)

  -- The loop of a flush over a memtable ends without an error or a panic and reads exactly the
  -- entries of its skip list in key order, tombstones included, whatever was written to it. The
  -- skip list keeps what its documentation says.
  pub read_memtable-entries : (t : MemTable M) → read_memtable sm t ≡ ok (laws.entries t.map)
  unfolding read_memtable scan_all
  read_memtable-entries t =
      scan_all_lem (mem_table_iter sm forward_scan) (order_of forward_scan) (laws.entries t.map)
        (mem_table_iter-Scans sm laws forward_scan t.map) (suc (len sm t)) (iter sm t)
        (mem_table-Good sm laws forward_scan t) (len_fits t)

  build-ne-no_fuel :
      (disk : DiskManager) (t : MemTable M) → build_sst_from_memtable sm disk t ≢ no_fuel
  unfolding build_sst_from_memtable
  build-ne-no_fuel disk t =
      rw (read_memtable-entries t, ◌>>=◌)
        (bind-ne-no_fuel (add_items (Sst.new _ _) (laws.entries t.map)) _
          (add_items-ne-no_fuel (Sst.new _ _) (laws.entries t.map))
          λ b _. bind-ne-no_fuel (Sst.finish b) _ (operations_end b [] []).2 λ done _ q. cc q)

  flush-ne-no_fuel : {L : Type 0} (s : LsmStore L M) → flush_oldest_imm sm s ≢ no_fuel
  unfolding flush_oldest_imm
  flush-ne-no_fuel s = by_oldest (get_last? s.state.imm_memtables) refl
    where
      by_oldest :
          (o : Option (MemTable M))
          → get_last? s.state.imm_memtables ≡ o
          → flush_oldest_imm sm s ≢ no_fuel
      by_oldest none e = rw (e, flush_oldest_imm) (λ q. cc q)
      by_oldest (some t) e =
          rw (e, flush_oldest_imm)
            (bind-ne-no_fuel (build_sst_from_memtable sm s.disk t) _ (build-ne-no_fuel s.disk t)
              λ b _ q. cc q)

  relieve-ne-no_fuel :
      {L : Type 0} (append : L → ℕ → WriteBatch → Run L) (opt : LsmTableOption) (shard_id : ℕ)
      (s : LsmStore L M)
      → relieve sm append opt shard_id s ≢ no_fuel
  unfolding relieve
  relieve-ne-no_fuel append opt shard_id s =
      elim (Bool-cases (leb opt.max_imm_memtables (length s.state.imm_memtables))) [
        | inl t ↦ rw (t, relieve) (flush-ne-no_fuel s)
        | inr f ↦ rw (f, relieve) (λ q. cc q)
      ]

  -- A write ends, whatever the state of the store, also where it switches the memtable and flushes
  -- the oldest one into an SST, provided that the log's append does.
  pub write-ends :
      {L : Type 0} (append : L → ℕ → WriteBatch → Run L) (opt : LsmTableOption) (shard_id : ℕ)
      (s : LsmStore L M) (batch : WriteBatch)
      → append s.wal shard_id batch ≢ no_fuel
      → write sm append opt shard_id s batch ≢ no_fuel
  unfolding write
  write-ends append opt shard_id s batch h =
      bind-ne-no_fuel (append s.wal shard_id batch) _ h λ wal _.
        let active = apply_entries sm s.state.active_mem batch.entries in
        elim (Bool-cases (leb opt.memtable_size_limit (estimate_memory sm active))) [
          | inl t ↦ rw t (relieve-ne-no_fuel append opt shard_id _)
          | inr f ↦ rw f (λ q. cc q)
        ]
