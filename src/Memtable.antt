-- ===== src/Memtable.antt =====
-- crates/storage/src/memtable.rs: the memtable and its iterator, and the adapter of
-- crates/storage/src/iterators/map_iter.rs through which scans read it.
--
-- The two directions of the iterator differ in the calls of the skip list that they make. One
-- thread at a time: what a scan sees of writes that are made meanwhile is not modelled.
pub mod SkipList
pub mod Order
pub mod Scans
use mathlib.Core.Option
use todb.Prelude.{
  ℕ, ◌+◌, ◌%◌, ◌^◌, Bool, true, false, Option, none, some, length, Run, ok, ◌>>=◌, ◌==◌,
}
use todb.Bytes.{Bytes}
use todb.Iterators.Traits.{Iter}
use todb.Iterators.Merge.{Direction, forward_scan, reverse_scan}
use todb.Iterators.DataEntryDecode.{EntryValue}
use todb.Memtable.SkipList.{Entry, Item, SkipMap}

-- `MemSize`: of the implementations only that of byte strings is used
abbrev pub mem_size : Bytes → ℕ
mem_size b = length b

pub record MemTable (M : Type 0) : Type 0 where
  pub map : M
  pub memory_size : ℕ

-- `OwnedMemTableIter`
pub record MemTableIter (M : Type 0) : Type 0 where
  pub map : M
  pub current : Option Item
  pub item : Option Item

module _ {M : Type 0} (sm : SkipMap M) where
  unfoldable pub new : MemTable M
  new = record { map = sm.empty; memory_size = 0 }

  -- `fetch_add` wraps
  unfoldable pub put : MemTable M → Bytes → Bytes → MemTable M
  put t key value = record {
    map = sm.insert t.map key (Entry.put value);
    memory_size = (t.memory_size + (mem_size key + mem_size value)) % 2 ^ 64;
  }

  unfoldable pub delete : MemTable M → Bytes → MemTable M
  delete t key = record {
    map = sm.insert t.map key Entry.delete;
    memory_size = (t.memory_size + mem_size key) % 2 ^ 64;
  }

  unfoldable pub estimate_memory : MemTable M → ℕ
  estimate_memory t = t.memory_size

  unfoldable pub len : MemTable M → ℕ
  len t = sm.len t.map

  unfoldable pub is_empty : MemTable M → Bool
  is_empty t = sm.len t.map == 0

  unfoldable pub iter : MemTable M → MemTableIter M
  iter t = record { map = t.map; current = none; item = none }

  -- the calls of each direction
  abbrev pub first_of : Direction → M → Option Item
  first_of forward_scan m = sm.front m
  first_of reverse_scan m = sm.back m

  abbrev pub bound_of : Direction → M → Bytes → Option Item
  bound_of forward_scan m target = sm.lower_bound m target
  bound_of reverse_scan m target = sm.upper_bound m target

  abbrev pub step_of : Direction → M → Bytes → Option Item
  step_of forward_scan m key = sm.next m key
  step_of reverse_scan m key = sm.prev m key

  -- a new iterator at an entry, of which the key and the value are cloned
  abbrev pub placed : M → Option Item → MemTableIter M
  placed m current = record { map = m; current = current; item = current }

  module _ (direction : Direction) where
    unfoldable pub seek_to_first : MemTableIter M → Run (MemTableIter M)
    seek_to_first s = ok (placed s.map (first_of direction s.map))

    -- `seek`, and also `seek_mapped` and `seek_mapped_for_prev`
    unfoldable pub seek : MemTableIter M → Bytes → Run (MemTableIter M)
    seek s target = ok (placed s.map (bound_of direction s.map target))

    unfoldable pub next : MemTableIter M → Run (MemTableIter M)
    next s =
        ok (placed s.map (elim s.current [ none ↦ none | some e ↦ step_of direction s.map e.0 ]))

    unfoldable pub valid : MemTableIter M → Bool
    valid s = elim s.item [ none ↦ false | some e ↦ true ]

    unfoldable pub key : MemTableIter M → Run (Option Bytes)
    key s = ok (Option.map (λ (e : Item). e.0) s.item)

    unfoldable pub value : MemTableIter M → Run (Option Entry)
    value s = ok (Option.map (λ (e : Item). e.1) s.item)

    abbrev pub mem_table_iter : Iter (MemTableIter M) Entry
    mem_table_iter = record {
      valid = valid;
      key = key;
      value = value;
      seek_to_first = seek_to_first;
      seek = seek;
      next = next;
    }

-- `map_value` of the memtable iterator; its `map_key` keeps the bytes
abbrev pub map_value : Entry → EntryValue
map_value (Entry.put v) = EntryValue.put v
map_value Entry.delete = EntryValue.delete

-- `MapIter`: the inner iterator with its values mapped
pub record MapIter (I : Type 0) : Type 0 where
  pub inner : I

module _ {I V W : Type 0} (ops : Iter I V) (f : V → W) where
  -- a move of the inner iterator
  abbrev pub moved : Run I → Run (MapIter I)
  moved m = m >>= λ (i : I). ok (record { inner = i })

  unfoldable pub map_iter_value : MapIter I → Run (Option W)
  map_iter_value s = ops.value s.inner >>= λ v. ok (Option.map f v)

  abbrev pub map_iter : Iter (MapIter I) W
  map_iter = record {
    valid = λ s. ops.valid s.inner;
    key = λ s. ops.key s.inner;
    value = map_iter_value;
    seek_to_first = λ s. moved (ops.seek_to_first s.inner);
    seek = λ s target. moved (ops.seek s.inner target);
    next = λ s. moved (ops.next s.inner);
  }
