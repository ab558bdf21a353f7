-- ===== src/Lsm/Batch.antt =====
-- crates/storage/src/write_batch.rs: `WriteBatch`.
use todb.Prelude.{ℕ, Bool, List, [], ◌∷◌, ◌++◌, length}
use todb.Prelude
use todb.Bytes.{Bytes}

pub data WriteEntry : Type 0 where
  write_put : Bytes → Bytes → WriteEntry
  write_delete : Bytes → WriteEntry

pub record WriteBatch : Type 0 where
  pub entries : List WriteEntry

unfoldable pub new : WriteBatch
new = record { entries = [] }

unfoldable pub put : WriteBatch → Bytes → Bytes → WriteBatch
put b key value = record { entries = b.entries ++ write_put key value ∷ [] }

unfoldable pub delete : WriteBatch → Bytes → WriteBatch
delete b key = record { entries = b.entries ++ write_delete key ∷ [] }

unfoldable pub is_empty : WriteBatch → Bool
is_empty b = Prelude.is_empty b.entries

unfoldable pub len : WriteBatch → ℕ
len b = length b.entries
