-- ===== src/Lsm/Store/Memory.antt =====
-- The accounting of a memtable's memory.
use todb.Prelude.{ℕ, ◌+◌, ◌^◌, ◌<◌, ◌≡◌, ◌∙◌, List, [], ◌∷◌, length, arith}
use todb.Memtable.SkipList.{SkipMap}
use todb.Memtable.{MemTable, estimate_memory, put, delete}
use todb.Lsm.Batch.{WriteEntry, write_put, write_delete}
use todb.Lsm.Store.{apply_entry, apply_entries}

-- the bytes of the keys and values of a batch
abbrev pub batch_bytes : List WriteEntry → ℕ
batch_bytes [] = 0
batch_bytes (write_put key value ∷ es) = length key + length value + batch_bytes es
batch_bytes (write_delete key ∷ es) = length key + batch_bytes es

module _ {M : Type 0} (sm : SkipMap M) where
  -- While it fits in 64 bits, the memory estimate of a memtable grows by exactly the bytes of the
  -- keys and values of what is written: overwritten entries stay counted.
  pub estimate_memory-apply_entries :
      (t : MemTable M) (es : List WriteEntry)
      → estimate_memory sm t + batch_bytes es < 2 ^ 64
      → estimate_memory sm (apply_entries sm t es) ≡ estimate_memory sm t + batch_bytes es
  unfolding estimate_memory apply_entries apply_entry put delete
  estimate_memory-apply_entries t [] h = omega arith
  estimate_memory-apply_entries t (write_put key value ∷ es) h =
      estimate_memory-apply_entries (put sm t key value) es (omega arith) ∙ omega arith
  estimate_memory-apply_entries t (write_delete key ∷ es) h =
      estimate_memory-apply_entries (delete sm t key) es (omega arith) ∙ omega arith
