-- ===== src/Examples/Stored.antt =====
-- A flush of one entry into an empty directory.
use todb.Prelude.{List, [], ◌∷◌}
use todb.Bytes.{Bytes}
use todb.Block
use todb.Builder.DataBlock
use todb.Builder.IndexBlock
use todb.Builder.Footer
use todb.Builder.Sst
use todb.Memtable.SkipList.{Entry}
use todb.Memtable.{MemTable}
use todb.Memtable
use todb.Lsm.Store.{LsmStore, flush_oldest_imm}
use todb.Examples.Sst.{or_value}
use todb.Examples.Store.{recent, table_of, no_files}
use todb.Examples.SortedList.{SortedList, sorted_list}

abbrev table : MemTable SortedList
table = table_of (5 ∷ []) (Entry.put (7 ∷ []))

abbrev store : LsmStore (List Bytes) SortedList
store = record {
  state = record { active_mem = recent; imm_memtables = table ∷ []; levels = [] };
  wal = [];
  disk = no_files;
}

after_flush : LsmStore (List Bytes) SortedList
after_flush = or_value store (flush_oldest_imm sorted_list store)
