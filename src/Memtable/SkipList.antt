-- ===== src/Memtable/SkipList.antt =====
-- What crates/storage/src/memtable.rs stores, and what it asks of the skip list it is stored in, a
-- third-party library: the calls, and what the library's documentation says of them.
use mathlib.Core.List.{head?}
use todb.Prelude.{
  ℕ, ◌≡◌, true, List, [], ◌∷◌, ◌++◌, reverse, Option, some, length, if◌then◌else◌, Bool,
}
use todb.Bytes.{Bytes}
use todb.Bytes.Order.{eq_bytes}
use todb.Iterators.Traits.{forward, backward, skip_to}
use todb.Iterators.TwoMerge.Priority.{find}

-- a live value or a tombstone
pub data Entry : Type 0 where
  put : Bytes → Entry
  delete : Entry

abbrev pub Item : Type 0
Item = Bytes × Entry

-- a handle of an entry is the entry itself
pub record SkipMap (M : Type 0) : Type 0 where
  pub empty : M
  pub insert : M → Bytes → Entry → M
  pub len : M → ℕ
  pub front : M → Option Item
  pub back : M → Option Item
  pub lower_bound : M → Bytes → Option Item
  pub upper_bound : M → Bytes → Option Item
  -- `Entry::next` and `Entry::prev` of the entry with a key
  pub next : M → Bytes → Option Item
  pub prev : M → Bytes → Option Item

module _ {V : Type 0} where
  -- all keys lie behind `k`
  abbrev pub AllAfter : (Bytes → Bytes → Bool) → Bytes → List (Bytes × V) → Type 0
  AllAfter ahead k [] = Unit
  AllAfter ahead k (x ∷ xs) = (ahead k x.0 ≡ true) × AllAfter ahead k xs

  -- each key once, in order
  abbrev pub Ascending : (Bytes → Bytes → Bool) → List (Bytes × V) → Type 0
  Ascending ahead [] = Unit
  Ascending ahead (x ∷ xs) = AllAfter ahead x.0 xs × Ascending ahead xs

pub record Laws {M : Type 0} (sm : SkipMap M) : Type 0 where
  -- the entries in the order of their keys
  pub entries : M → List Item
  pub ascending : (m : M) → Ascending forward (entries m)
  pub entries_empty : entries sm.empty ≡ []
  pub find_insert :
      (m : M) (j k : Bytes) (e : Entry)
      → find j (entries (sm.insert m k e)) ≡ (if eq_bytes k j then some e else find j (entries m))
  pub len_at : (m : M) → sm.len m ≡ length (entries m)
  pub front_at : (m : M) → sm.front m ≡ head? (entries m)
  pub back_at : (m : M) → sm.back m ≡ head? (reverse (entries m))
  pub lower_at : (m : M) (k : Bytes) → sm.lower_bound m k ≡ head? (skip_to forward k (entries m))
  pub upper_at :
      (m : M) (k : Bytes) → sm.upper_bound m k ≡ head? (skip_to backward k (reverse (entries m)))
  pub next_at :
      (m : M) (before : List Item) (x : Item) (after : List Item)
      → entries m ≡ before ++ x ∷ after
      → sm.next m x.0 ≡ head? after
  pub prev_at :
      (m : M) (before : List Item) (x : Item) (after : List Item)
      → reverse (entries m) ≡ before ++ x ∷ after
      → sm.prev m x.0 ≡ head? after
