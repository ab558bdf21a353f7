-- ===== src/Lsm/Read/Memtables.antt =====
-- The memtable side of a scan: the lists that the iterators of memtables meet, in both directions.
use todb.Prelude.{ℕ, zero, suc, ◌≡◌, refl, sym, ap, Bool, List, [], ◌∷◌, length, some, get_elem?}
use todb.Bytes.{Bytes}
use todb.Iterators.Traits.{
  Iter, Scans, ScanOrder, ScanOrder-forward, ScanOrder-backward, InOrder, NoneBefore,
}
use todb.Iterators.Merge.{Direction, forward_scan, reverse_scan, order_of}
use todb.Iterators.Merge.Merged.{nth, AllInOrder, not_ahead_back}
use todb.Iterators.DataEntryDecode.{EntryValue}
use todb.Memtable.SkipList.{Item, SkipMap, Laws, AllAfter, Ascending}
use todb.Memtable.Order.{Ascending-reverse}
use todb.Memtable.{MemTable, MemTableIter, mem_table_iter, MapIter, map_value, iter}
use todb.Memtable.Scans.{
  entries_of, mem_table_iter-Scans, map_iter-Scans, map_values, mem_map-Good, mem_map-same,
}
use todb.Lsm.Read.{mem_rows, mem_iters}

-- an iterator over nothing, which is in no state
pub none-Scans : {I V : Type 0} (ops : Iter I V) (ahead : Bytes → Bytes → Bool) → Scans ops ahead []
none-Scans ops ahead = record {
  Good = λ s. ⊥;
  At = λ s xs. ⊥;
  good = λ s xs a. a;
  valid_at = λ s xs a. absurd a;
  key_at = λ s xs a. absurd a;
  value_at = λ s xs a. absurd a;
  first_at = λ s g. absurd g;
  seek_at = λ s target g. absurd g;
  next_at = λ s xs a. absurd a;
}

pub nowhere :
    {I V : Type 0} (ops : Iter I V) (ahead : Bytes → Bytes → Bool) (x : I)
    → (none-Scans ops ahead).Good x
    → ⊥
unfolding none-Scans
nowhere ops ahead x g = g

pub order_laws : (d : Direction) → ScanOrder (order_of d)
order_laws forward_scan = ScanOrder-forward
order_laws reverse_scan = ScanOrder-backward

module _ {M : Type 0} (sm : SkipMap M) (laws : Laws sm) (d : Direction) where
  -- the lists of the memtables as the scan shows them
  abbrev pub mem_values : List (MemTable M) → List (List (Bytes × EntryValue))
  mem_values [] = []
  mem_values (t ∷ ts) = map_values map_value (entries_of sm laws d t.map) ∷ mem_values ts

  pub mem_scans :
      (ts : List (MemTable M)) (i : ℕ) → Scans (mem_rows sm d) (order_of d) (nth (mem_values ts) i)
  mem_scans [] i = none-Scans (mem_rows sm d) (order_of d)
  mem_scans (t ∷ ts) zero =
      map_iter-Scans map_value (mem_table_iter sm d) (order_of d) (entries_of sm laws d t.map)
        (mem_table_iter-Scans sm laws d t.map)
  mem_scans (t ∷ ts) (suc i) = mem_scans ts i

  pub length-mem_iters :
      (ts : List (MemTable M)) → length (mem_iters sm ts) ≡ length (mem_values ts)
  unfolding mem_iters
  length-mem_iters [] = refl
  length-mem_iters (t ∷ ts) = ap suc (length-mem_iters ts)

  pub mem_scans-Good :
      (ts : List (MemTable M)) (i : ℕ) (x : MapIter (MemTableIter M))
      → get_elem? (mem_iters sm ts) i ≡ some x
      → (mem_scans ts i).Good x
  unfolding mem_iters mem_scans iter
  mem_scans-Good [] i x e = cc e
  mem_scans-Good (t ∷ ts) zero x e =
      let same : record { inner = iter sm t } ≡ x = cc e in
      mem_map-Good sm laws map_value d t.map x
        (ap (λ (y : MapIter (MemTableIter M)). y.inner.map) (sym same))
  mem_scans-Good (t ∷ ts) (suc i) x e = mem_scans-Good ts i x e

  AllAfter-NoneBefore :
      (k : Bytes) (xs : List Item)
      → AllAfter (order_of d) k xs
      → NoneBefore (order_of d) k (map_values map_value xs)
  AllAfter-NoneBefore k [] a = tt
  AllAfter-NoneBefore k (x ∷ xs) a =
      (not_ahead_back (order_of d) (order_laws d) k x.0 a.0, AllAfter-NoneBefore k xs a.1)

  Ascending-InOrder :
      (xs : List Item) → Ascending (order_of d) xs → InOrder (order_of d) (map_values map_value xs)
  Ascending-InOrder [] a = tt
  Ascending-InOrder (x ∷ xs) a = (AllAfter-NoneBefore x.0 xs a.0, Ascending-InOrder xs a.1)

module _ {M : Type 0} (sm : SkipMap M) (laws : Laws sm) where
  in_order : (d : Direction) (m : M) → Ascending (order_of d) (entries_of sm laws d m)
  in_order forward_scan m = laws.ascending m
  in_order reverse_scan m = Ascending-reverse (laws.entries m) (laws.ascending m)

  pub mem_values-AllInOrder :
      (d : Direction) (ts : List (MemTable M)) → AllInOrder (order_of d) (mem_values sm laws d ts)
  mem_values-AllInOrder d [] = tt
  mem_values-AllInOrder d (t ∷ ts) = (
    Ascending-InOrder sm laws d (entries_of sm laws d t.map) (in_order d t.map),
    mem_values-AllInOrder d ts,
  )

  -- the iterators of memtables may be sought in both directions
  pub mem_turn :
      (d : Direction) (ts : List (MemTable M)) (i : ℕ) (x : MapIter (MemTableIter M))
      → (mem_scans sm laws forward_scan ts i).Good x
      → (mem_scans sm laws d ts i).Good x
  unfolding mem_scans none-Scans
  mem_turn d [] i x g = absurd g
  mem_turn d (t ∷ ts) zero x g =
      mem_map-Good sm laws map_value d t.map x
        (mem_map-same sm laws map_value forward_scan t.map x g)
  mem_turn d (t ∷ ts) (suc i) x g = mem_turn d ts i x g

  pub length-mem_values :
      (d : Direction) (ts : List (MemTable M))
      → length (mem_values sm laws d ts) ≡ length (mem_values sm laws forward_scan ts)
  length-mem_values d [] = refl
  length-mem_values d (t ∷ ts) = ap suc (length-mem_values d ts)
