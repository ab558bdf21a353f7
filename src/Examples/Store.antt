-- ===== src/Examples/Store.antt =====
-- Two memtables with a key each, and a store of them.
use todb.Prelude.{
  ℕ, ◌+◌, ◌<◌, ◌≡◌, ◌≢◌, refl, List, [], ◌∷◌, length, none, Run, ok, no_fuel, ◌>>=◌, arith, ◌^◌,
  true,
}
use todb.Bytes.{Bytes}
use todb.Iterators.Traits.{forward, InOrder, ScanOrder-forward, skip_to}
use todb.Iterators.Drain.{scan_all, scan_from}
use todb.Iterators.TwoMerge.Priority.{find, or_else}
use todb.Iterators.TwoMerge.Versions.{versions, versions_by_level}
use todb.Iterators.Merge.{merge_iter, forward_scan, reverse_scan, order_of}
use todb.Iterators.Merge
use todb.Iterators.Merge.Merged.{find_by_level, total_length}
use todb.Iterators.Merge.Clients.{merge_iter-scan_all, merge_iter-scan_from}
use todb.Iterators.DataEntryDecode.{EntryValue}
use todb.Memtable.SkipList.{Entry}
use todb.Memtable.{MemTable, mem_table_iter, iter, estimate_memory}
use todb.Memtable.Scans.{mem_table_iter-Scans, mem_table-Good}
use todb.Lsm.Batch.{WriteBatch, write_put, write_delete}
use todb.Lsm.State.{LsmState, default_option}
use todb.Lsm.Range.{included, excluded, collect, init, new}
use todb.Lsm.Range.Bounds.{keep, in_range}
use todb.Lsm.Range.Reads.{scan_range}
use todb.Lsm.Disk.{DiskManager}
use todb.Lsm.Store.{LsmStore, write, apply_entries, read_memtable}
use todb.Lsm.Store.View.{view, batch_find, write-view}
use todb.Lsm.Store.Memory.{batch_bytes, estimate_memory-apply_entries}
use todb.Lsm.Store.Ends.{read_memtable-entries, write-ends}
use todb.Lsm.Read.{mem_rows, mem_iters, merged_iter, scan}
use todb.Lsm.Read.Memtables.{
  mem_values, mem_scans, length-mem_iters, mem_scans-Good, mem_values-AllInOrder,
}
use todb.Lsm.Read.View.{scan-view}
use todb.Examples.SortedList.{SortedList, sorted_list, sorted_list-Laws}

abbrev pub table_of : Bytes → Entry → MemTable SortedList
table_of k e = record { map = record { items = (k, e) ∷ []; sorted = (tt, tt) }; memory_size = 2 }

abbrev pub recent : MemTable SortedList
recent = table_of (1 ∷ []) Entry.delete

abbrev pub earlier : MemTable SortedList
earlier = table_of (1 ∷ []) (Entry.put (7 ∷ []))

abbrev pub other : MemTable SortedList
other = table_of (4 ∷ []) (Entry.put (8 ∷ []))

abbrev tables : List (MemTable SortedList)
tables = recent ∷ earlier ∷ other ∷ []

abbrev lists : List (List (Bytes × EntryValue))
lists = mem_values sorted_list sorted_list-Laws forward_scan tables

merge_iter-scan_all_example :
    (zs : List (Bytes × EntryValue)) × (scan_all
        (merge_iter (mem_rows sorted_list forward_scan) forward_scan)
        4
        (Merge.new (mem_iters sorted_list tables))
      ≡ ok zs)
    × InOrder (order_of forward_scan) zs
    × (length zs ≡ total_length lists)
    × (find (1 ∷ []) zs ≡ find_by_level (1 ∷ []) lists)
merge_iter-scan_all_example =
    merge_iter-scan_all (mem_rows sorted_list forward_scan) forward_scan ScanOrder-forward lists
      (mem_scans sorted_list sorted_list-Laws forward_scan tables)
      (mem_values-AllInOrder sorted_list sorted_list-Laws forward_scan tables) 4 (omega arith)
      (mem_iters sorted_list tables)
      (length-mem_iters sorted_list sorted_list-Laws forward_scan tables)
      (mem_scans-Good sorted_list sorted_list-Laws forward_scan tables) (1 ∷ [])

merge_iter-scan_from_example :
    (zs : List (Bytes × EntryValue)) × (scan_all
        (merge_iter (mem_rows sorted_list forward_scan) forward_scan)
        4
        (Merge.new (mem_iters sorted_list tables))
      ≡ ok zs)
    × (scan_from
          (merge_iter (mem_rows sorted_list forward_scan) forward_scan)
          4
          (2 ∷ [])
          (Merge.new (mem_iters sorted_list tables))
        ≡ ok (skip_to (order_of forward_scan) (2 ∷ []) zs))
merge_iter-scan_from_example =
    merge_iter-scan_from (mem_rows sorted_list forward_scan) forward_scan ScanOrder-forward lists
      (mem_scans sorted_list sorted_list-Laws forward_scan tables)
      (mem_values-AllInOrder sorted_list sorted_list-Laws forward_scan tables) 4 (omega arith)
      (mem_iters sorted_list tables)
      (length-mem_iters sorted_list sorted_list-Laws forward_scan tables)
      (mem_scans-Good sorted_list sorted_list-Laws forward_scan tables) (2 ∷ [])

scan_range_example :
    (init (mem_table_iter sorted_list forward_scan) forward 2 (
        new
          (mem_table_iter sorted_list forward_scan)
          forward
          (iter sorted_list other)
          (excluded (1 ∷ []))
          (included (4 ∷ [])))
      >>= collect (mem_table_iter sorted_list forward_scan) forward 2)
    ≡ ok (keep (in_range forward (excluded (1 ∷ [])) (included (4 ∷ []))) other.map.items)
scan_range_example =
    scan_range (mem_table_iter sorted_list forward_scan) forward other.map.items
      (mem_table_iter-Scans sorted_list sorted_list-Laws forward_scan other.map) ScanOrder-forward 2
      (iter sorted_list other) (excluded (1 ∷ [])) (included (4 ∷ [])) (tt, tt)
      (mem_table-Good sorted_list sorted_list-Laws forward_scan other) (omega arith)

abbrev state : LsmState SortedList
state = record { active_mem = recent; imm_memtables = earlier ∷ other ∷ []; levels = [] }

abbrev pub no_files : DiskManager
no_files = record { block_size = 64; next_sst_id = 1; files = λ i. none }

scan-view_example :
    (zs : List (Bytes × EntryValue)) × ((scan sorted_list 4 no_files state
          (excluded (1 ∷ []))
          (included (9 ∷ []))
          true
        >>= collect (merged_iter sorted_list reverse_scan 4) (order_of reverse_scan) 4)
      ≡ ok (keep (in_range (order_of reverse_scan) (included (9 ∷ [])) (excluded (1 ∷ []))) zs))
    × InOrder (order_of reverse_scan) zs
    × (versions (1 ∷ []) zs
        ≡ versions_by_level
            (1 ∷ [])
            (mem_values sorted_list sorted_list-Laws reverse_scan (recent ∷ earlier ∷ other ∷ [])))
scan-view_example =
    scan-view sorted_list sorted_list-Laws 4 no_files state (excluded (1 ∷ [])) (included (9 ∷ []))
      true (1 ∷ []) refl (omega arith)

-- the log keeps what it is given
abbrev pub log_append : List WriteBatch → ℕ → WriteBatch → Run (List WriteBatch)
log_append log shard_id batch = ok (batch ∷ log)

abbrev store : LsmStore (List WriteBatch) SortedList
store = record { state = state; wal = []; disk = no_files }

abbrev batch : WriteBatch
batch = record {
  entries = write_put (1 ∷ []) (5 ∷ []) ∷ write_delete (4 ∷ []) ∷ write_put (1 ∷ []) (6 ∷ []) ∷ [];
}

write-view_example :
    (t : LsmStore (List WriteBatch) SortedList) × (write sorted_list log_append default_option 3
        store batch
      ≡ ok t)
    × (t.wal ≡ batch ∷ [])
    × (view sorted_list sorted_list-Laws (λ file. []) (1 ∷ []) t
        ≡ or_else
            (batch_find (1 ∷ []) batch.entries)
            (view sorted_list sorted_list-Laws (λ file. []) (1 ∷ []) store))
write-view_example =
    write-view sorted_list sorted_list-Laws (λ file. []) log_append default_option 3 store batch
      (batch ∷ []) refl (omega arith) (1 ∷ [])

write-ends_example : write sorted_list log_append default_option 3 store batch ≢ no_fuel
write-ends_example =
    write-ends sorted_list sorted_list-Laws log_append default_option 3 store batch (λ q. cc q)

read_memtable-entries_example : read_memtable sorted_list recent ≡ ok recent.map.items
read_memtable-entries_example = read_memtable-entries sorted_list sorted_list-Laws recent

fits_in_64_bits : estimate_memory sorted_list recent + batch_bytes batch.entries < 2 ^ 64
unfolding estimate_memory
fits_in_64_bits = omega arith

estimate_memory-apply_entries_example :
    estimate_memory sorted_list (apply_entries sorted_list recent batch.entries)
    ≡ estimate_memory sorted_list recent + batch_bytes batch.entries
estimate_memory-apply_entries_example =
    estimate_memory-apply_entries sorted_list recent batch.entries fits_in_64_bits
