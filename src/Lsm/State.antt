-- ===== src/Lsm/State.antt =====
-- crates/storage/src/lsm_state.rs: the state of an LSM store and its options.
use todb.Prelude.{ℕ, List, [], ◌*◌}
use todb.Bytes.{Bytes}
use todb.Memtable.SkipList.{SkipMap}
use todb.Memtable.{MemTable}
use todb.Memtable

pub record SstMeta : Type 0 where
  pub id : ℕ
  pub key_range : Bytes × Bytes
  pub file_size : ℕ

pub record LevelMeta : Type 0 where
  pub level : ℕ
  pub ssts : List SstMeta

-- immutable memtables stand newest first
pub record LsmState (M : Type 0) : Type 0 where
  pub active_mem : MemTable M
  pub imm_memtables : List (MemTable M)
  pub levels : List LevelMeta

unfoldable pub new : {M : Type 0} → SkipMap M → LsmState M
new sm = record { active_mem = Memtable.new sm; imm_memtables = []; levels = [] }

pub data PartitionType : Type 0 where
  no_partition hash range : PartitionType

pub data CompressionStrategy : Type 0 where
  no_compression standard aggressive : CompressionStrategy

pub record LsmTableOption : Type 0 where
  pub partition_type : PartitionType
  pub compression : CompressionStrategy
  pub memtable_size_limit : ℕ
  pub max_imm_memtables : ℕ

abbrev pub default_option : LsmTableOption
default_option = record {
  partition_type = no_partition;
  compression = standard;
  memtable_size_limit = 4 * 1024 * 1024;
  max_imm_memtables = 4;
}
