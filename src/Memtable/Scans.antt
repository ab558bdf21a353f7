-- ===== src/Memtable/Scans.antt =====
-- The iterator of a memtable scans the entries of its skip list, and `MapIter` over an iterator the
-- same entries with their values mapped.
use mathlib.Core.List.{tail, head?}
use mathlib.Core.Option
use todb.Prelude.{
  ◌≡◌, refl, sym, ap, ◌∙◌, inl, inr, Bool, not, List, [], ◌∷◌, ◌++◌, reverse, none, ok, ◌>>=◌,
  is_empty, Bool-cases, append_assoc,
}
use todb.Bytes.{Bytes}
use todb.Iterators.Traits.{Iter, Scans, skip_to, head_key, head_value}
use todb.Iterators.Merge.{Direction, forward_scan, reverse_scan, order_of}
use todb.Memtable.SkipList.{Entry, Item, SkipMap, Laws}
use todb.Memtable.{
  MemTable, MemTableIter, iter, placed, first_of, bound_of, step_of, seek_to_first, seek, next,
  valid, key, value, mem_table_iter, MapIter, map_iter, map_iter_value,
}

-- a seek leaves the end of the list
skip_to-suffix :
    {V : Type 0} (ahead : Bytes → Bytes → Bool) (target : Bytes) (xs : List (Bytes × V))
    → (before : List (Bytes × V)) × (xs ≡ before ++ skip_to ahead target xs)
unfolding skip_to
skip_to-suffix ahead target [] = ([], refl)
skip_to-suffix ahead target (x ∷ xs) = elim (Bool-cases (ahead x.0 target)) [
  | inl h ↦
      let (before, e) = skip_to-suffix ahead target xs in
      (x ∷ before, rw (h, skip_to) (ap (◌∷◌ x) e))
  | inr h ↦ ([], rw (h, skip_to) refl)
]

module _ {M : Type 0} (sm : SkipMap M) (laws : Laws sm) where
  -- the entries in the order of a direction
  abbrev pub entries_of : Direction → M → List Item
  entries_of forward_scan m = laws.entries m
  entries_of reverse_scan m = reverse (laws.entries m)

  first_at : (d : Direction) (m : M) → first_of sm d m ≡ head? (entries_of d m)
  first_at forward_scan m = laws.front_at m
  first_at reverse_scan m = laws.back_at m

  bound_at :
      (d : Direction) (m : M) (k : Bytes)
      → bound_of sm d m k ≡ head? (skip_to (order_of d) k (entries_of d m))
  bound_at forward_scan m k = laws.lower_at m k
  bound_at reverse_scan m k = laws.upper_at m k

  step_at :
      (d : Direction) (m : M) (before : List Item) (x : Item) (after : List Item)
      → entries_of d m ≡ before ++ x ∷ after
      → step_of sm d m x.0 ≡ head? after
  step_at forward_scan m before x after e = laws.next_at m before x after e
  step_at reverse_scan m before x after e = laws.prev_at m before x after e

  module _ (d : Direction) (m : M) where
    record TableAt (s : MemTableIter M) (xs : List Item) : Type 0 where
      same : s.map ≡ m
      before : List Item
      suffix : entries_of d m ≡ before ++ xs
      current : s.current ≡ head? xs
      item : s.item ≡ head? xs

    valid_lem :
        (s : MemTableIter M) (xs : List Item) → s.item ≡ head? xs → valid sm d s ≡ not (is_empty xs)
    unfolding valid
    valid_lem s [] e = rw (e, valid) refl
    valid_lem s (x ∷ xs) e = rw (e, valid) refl

    next_lem :
        (s : MemTableIter M) (xs : List Item)
        → TableAt s xs
        → (t : MemTableIter M) × (next sm d s ≡ ok t) × TableAt t (tail xs)
    unfolding next
    next_lem s [] a = (
      placed sm s.map none,
      rw (a.current, next) refl,
      record { same = a.same; before = a.before; suffix = a.suffix; current = refl; item = refl },
    )
    next_lem s (x ∷ xs) a =
        let stepped : step_of sm d s.map x.0 ≡ head? xs =
          rw a.same (step_at d m a.before x xs a.suffix) in
        (
          placed sm s.map (head? xs),
          rw (a.current, next) (rw stepped refl),
          record {
            same = a.same;
            before = a.before ++ x ∷ [];
            suffix = a.suffix ∙ sym (append_assoc a.before (x ∷ []) xs);
            current = refl;
            item = refl;
          },
        )

    -- The iterator of a memtable scans its entries, forwards or backwards.
    pub mem_table_iter-Scans : Scans (mem_table_iter sm d) (order_of d) (entries_of d m)
    unfolding valid key value seek_to_first seek
    mem_table_iter-Scans = record {
      Good = λ s. s.map ≡ m;
      At = TableAt;
      good = λ s xs a. a.same;
      valid_at = λ s xs a. valid_lem s xs a.item;
      key_at = λ s xs a. rw (a.item) refl;
      value_at = λ s xs a. rw (a.item) refl;
      first_at = λ s g. (
        placed sm s.map (first_of sm d s.map),
        refl,
        record {
          same = g;
          before = [];
          suffix = refl;
          current = rw g (first_at d m);
          item = rw g (first_at d m);
        },
      );
      seek_at = λ s target g. (
        placed sm s.map (bound_of sm d s.map target),
        refl,
        record {
          same = g;
          before = (skip_to-suffix (order_of d) target (entries_of d m)).0;
          suffix = (skip_to-suffix (order_of d) target (entries_of d m)).1;
          current = rw g (bound_at d m target);
          item = rw g (bound_at d m target);
        },
      );
      next_at = next_lem;
    }

-- the entries with their values mapped
abbrev pub map_values : {V W : Type 0} → (V → W) → List (Bytes × V) → List (Bytes × W)
map_values f [] = []
map_values f (x ∷ xs) = (x.0, f x.1) ∷ map_values f xs

module _ {V W : Type 0} (f : V → W) where
  skip_to-map_values :
      (ahead : Bytes → Bytes → Bool) (target : Bytes) (xs : List (Bytes × V))
      → skip_to ahead target (map_values f xs) ≡ map_values f (skip_to ahead target xs)
  unfolding skip_to
  skip_to-map_values ahead target [] = refl
  skip_to-map_values ahead target (x ∷ xs) = elim (Bool-cases (ahead x.0 target)) [
    | inl h ↦ rw (h, skip_to) (skip_to-map_values ahead target xs)
    | inr h ↦ rw (h, skip_to) refl
  ]

  head_key-map_values : (xs : List (Bytes × V)) → head_key xs ≡ head_key (map_values f xs)
  head_key-map_values [] = refl
  head_key-map_values (x ∷ xs) = refl

  head_value-map_values :
      (xs : List (Bytes × V)) → Option.map f (head_value xs) ≡ head_value (map_values f xs)
  head_value-map_values [] = refl
  head_value-map_values (x ∷ xs) = refl

  is_empty-map_values : (xs : List (Bytes × V)) → is_empty xs ≡ is_empty (map_values f xs)
  is_empty-map_values [] = refl
  is_empty-map_values (x ∷ xs) = refl

  tail-map_values : (xs : List (Bytes × V)) → map_values f (tail xs) ≡ tail (map_values f xs)
  tail-map_values [] = refl
  tail-map_values (x ∷ xs) = refl

  -- `MapIter` over an iterator scans its entries with their values mapped.
  module _ {I : Type 0} (ops : Iter I V) (ahead : Bytes → Bytes → Bool) (all : List (Bytes × V))
      (scans : Scans ops ahead all) where
    record MapAt (s : MapIter I) (zs : List (Bytes × W)) : Type 0 where
      xs : List (Bytes × V)
      inner : scans.At s.inner xs
      values : zs ≡ map_values f xs

    pub map_iter-Scans : Scans (map_iter ops f) ahead (map_values f all)
    unfolding map_iter_value
    map_iter-Scans = record {
      Good = λ s. scans.Good s.inner;
      At = MapAt;
      good = λ s zs a. scans.good s.inner a.xs a.inner;
      valid_at = λ s zs a.
          rw a.values (scans.valid_at s.inner a.xs a.inner ∙ ap not (is_empty-map_values a.xs));
      key_at = λ s zs a.
          rw a.values (scans.key_at s.inner a.xs a.inner ∙ ap ok (head_key-map_values a.xs));
      value_at = λ s zs a.
          rw a.values
            (rw (scans.value_at s.inner a.xs a.inner, ◌>>=◌) (ap ok (head_value-map_values a.xs)));
      first_at = λ s g.
          let (t, e, p) = scans.first_at s.inner g in
          (record { inner = t }, rw (e, ◌>>=◌) refl, record { xs = all; inner = p; values = refl });
      seek_at = λ s target g.
          let (t, e, p) = scans.seek_at s.inner target g in
          (
            record { inner = t },
            rw (e, ◌>>=◌) refl,
            record {
              xs = skip_to ahead target all;
              inner = p;
              values = skip_to-map_values ahead target all;
            },
          );
      next_at = λ s zs a.
          let (t, e, p) = scans.next_at s.inner a.xs a.inner in
          (
            record { inner = t },
            rw (e, ◌>>=◌) refl,
            record { xs = tail a.xs; inner = p; values = rw a.values (sym (tail-map_values a.xs)) },
          );
    }

module _ {M : Type 0} (sm : SkipMap M) (laws : Laws sm) (d : Direction) where
  -- the iterator that a memtable hands out may be sought in
  pub mem_table-Good : (t : MemTable M) → (mem_table_iter-Scans sm laws d t.map).Good (iter sm t)
  unfolding mem_table_iter-Scans iter
  mem_table-Good t = refl

module _ {M W : Type 0} (sm : SkipMap M) (laws : Laws sm) (f : Entry → W) (d : Direction)
    (m : M) where
  -- a mapped iterator of a memtable may be sought in whenever it is over the memtable's list
  pub mem_map-Good :
      (s : MapIter (MemTableIter M))
      → s.inner.map ≡ m
      → (map_iter-Scans f
            (mem_table_iter sm d)
            (order_of d)
            (entries_of sm laws d m)
            (mem_table_iter-Scans sm laws d m)).Good
          s
  unfolding map_iter-Scans mem_table_iter-Scans
  mem_map-Good s e = e

  -- and only then
  pub mem_map-same :
      (s : MapIter (MemTableIter M))
      → (map_iter-Scans f
            (mem_table_iter sm d)
            (order_of d)
            (entries_of sm laws d m)
            (mem_table_iter-Scans sm laws d m)).Good
          s
      → s.inner.map ≡ m
  unfolding map_iter-Scans mem_table_iter-Scans
  mem_map-same s g = g
