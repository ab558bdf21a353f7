-- ===== src/Iterators/Merge/Merged.antt =====
-- The list that a `MergeIter` scans: the merge of the lists of its iterators by level, which keeps
-- every entry; of equal keys the lower level comes first.
use todb.Prelude.{
  ℕ, zero, suc, ◌+◌, ◌≡◌, refl, sym, ◌∙◌, inl, inr, Bool, true, false, List, [], ◌∷◌, map, length,
  arith, Bool-cases, Option, none,
}
use todb.Bytes.{Bytes}
use todb.Bytes.Order.{eq_bytes, eq_bytes_sound}
use todb.Iterators.Traits.{ScanOrder, skip_to, NoneBefore, InOrder, before_trans}
use todb.Iterators.TwoMerge.Merged.{skip_to-stays, skip_to-passes, skip_to-nil}
use todb.Iterators.TwoMerge.Priority.{find, or_else, find-none, find-hit, find-miss}

module _ {V : Type 0} where
  unfoldable pub merge_two :
      (Bytes → Bytes → Bool) → List (Bytes × V) → List (Bytes × V) → List (Bytes × V)
  merge_two ahead [] ys = ys
  merge_two ahead (x ∷ xs) [] = x ∷ xs
  merge_two ahead (x ∷ xs) (y ∷ ys) = elim (ahead y.0 x.0) [
    | true ↦ y ∷ merge_two ahead (x ∷ xs) ys
    | false ↦ x ∷ merge_two ahead xs (y ∷ ys)
  ]

  unfoldable pub merge_all : (Bytes → Bytes → Bool) → List (List (Bytes × V)) → List (Bytes × V)
  merge_all ahead [] = []
  merge_all ahead (xs ∷ xss) = merge_two ahead xs (merge_all ahead xss)

  -- the list of a level, and the lists with one of them changed
  abbrev pub nth : List (List (Bytes × V)) → ℕ → List (Bytes × V)
  nth [] i = []
  nth (xs ∷ xss) zero = xs
  nth (xs ∷ xss) (suc i) = nth xss i

  -- the first value that the lists hold under a key, by level
  abbrev pub find_by_level : Bytes → List (List (Bytes × V)) → Option V
  find_by_level k [] = none
  find_by_level k (xs ∷ xss) = or_else (find k xs) (find_by_level k xss)

  abbrev pub total_length : List (List (Bytes × V)) → ℕ
  total_length [] = 0
  total_length (xs ∷ xss) = length xs + total_length xss

  abbrev pub AllInOrder : (Bytes → Bytes → Bool) → List (List (Bytes × V)) → Type 0
  AllInOrder ahead [] = Unit
  AllInOrder ahead (xs ∷ xss) = InOrder ahead xs × AllInOrder ahead xss

module _ {V : Type 0} (ahead : Bytes → Bytes → Bool) where
  pub merge_two-behind :
      (x y : Bytes × V) (xs ys : List (Bytes × V))
      → ahead y.0 x.0 ≡ true
      → merge_two ahead (x ∷ xs) (y ∷ ys) ≡ y ∷ merge_two ahead (x ∷ xs) ys
  unfolding merge_two
  merge_two-behind x y xs ys h = ground arith

  pub merge_two-before :
      (x y : Bytes × V) (xs ys : List (Bytes × V))
      → ahead y.0 x.0 ≡ false
      → merge_two ahead (x ∷ xs) (y ∷ ys) ≡ x ∷ merge_two ahead xs (y ∷ ys)
  unfolding merge_two
  merge_two-before x y xs ys h = ground arith

  pub merge_two-nil : (xs : List (Bytes × V)) → merge_two ahead xs [] ≡ xs
  unfolding merge_two
  merge_two-nil [] = refl
  merge_two-nil (x ∷ xs) = refl

  length-merge_two :
      (xs ys : List (Bytes × V)) → length (merge_two ahead xs ys) ≡ length xs + length ys
  unfolding merge_two
  length-merge_two [] ys = omega arith
  length-merge_two (x ∷ xs) [] = omega arith
  length-merge_two (x ∷ xs) (y ∷ ys) =
      ground (arith, length-merge_two (x ∷ xs) ys, length-merge_two xs (y ∷ ys))

  -- no entry is lost or doubled
  pub length-merge_all :
      (xss : List (List (Bytes × V))) → length (merge_all ahead xss) ≡ total_length xss
  unfolding merge_all
  length-merge_all [] = refl
  length-merge_all (xs ∷ xss) =
      omega (arith, length-merge_two xs (merge_all ahead xss), length-merge_all xss)

module _ (ahead : Bytes → Bytes → Bool) (ord : ScanOrder ahead) where
  -- neither of two keys that a scan does not meet before the next one
  pub not_ahead_trans : (a b c : Bytes) → ahead a b ≡ false → ahead b c ≡ false → ahead a c ≡ false
  not_ahead_trans a b c p q = ground (arith, before_trans ahead ord a c b)

  pub not_ahead_back : (a b : Bytes) → ahead a b ≡ true → ahead b a ≡ false
  not_ahead_back a b p = ground (arith, ord.trans a b a, ord.irrefl a)

module _ {V : Type 0} (ahead : Bytes → Bytes → Bool) (ord : ScanOrder ahead) where
  NoneBefore-merge_two :
      (k : Bytes) (xs ys : List (Bytes × V))
      → NoneBefore ahead k xs
      → NoneBefore ahead k ys
      → NoneBefore ahead k (merge_two ahead xs ys)
  unfolding merge_two
  NoneBefore-merge_two k [] ys p q = q
  NoneBefore-merge_two k (x ∷ xs) [] p q = p
  NoneBefore-merge_two k (x ∷ xs) (y ∷ ys) p q = elim (Bool-cases (ahead y.0 x.0)) [
    | inl h ↦
        rw (merge_two-behind ahead x y xs ys h) (q.0, NoneBefore-merge_two k (x ∷ xs) ys p q.1)
    | inr h ↦
        rw (merge_two-before ahead x y xs ys h) (p.0, NoneBefore-merge_two k xs (y ∷ ys) p.1 q)
  ]

  -- the same for a key that nothing behind it comes before
  NoneBefore-not_ahead :
      (k j : Bytes) (xs : List (Bytes × V))
      → ahead j k ≡ false
      → NoneBefore ahead j xs
      → NoneBefore ahead k xs
  NoneBefore-not_ahead k j [] h n = tt
  NoneBefore-not_ahead k j (x ∷ xs) h n =
      (not_ahead_trans ahead ord x.0 j k n.0 h, NoneBefore-not_ahead k j xs h n.1)

  InOrder-merge_two :
      (xs ys : List (Bytes × V))
      → InOrder ahead xs
      → InOrder ahead ys
      → InOrder ahead (merge_two ahead xs ys)
  unfolding merge_two
  InOrder-merge_two [] ys p q = q
  InOrder-merge_two (x ∷ xs) [] p q = p
  InOrder-merge_two (x ∷ xs) (y ∷ ys) p q = elim (Bool-cases (ahead y.0 x.0)) [
    | inl h ↦
        let back : ahead x.0 y.0 ≡ false = not_ahead_back ahead ord y.0 x.0 h in
        rw (merge_two-behind ahead x y xs ys h) (
          NoneBefore-merge_two y.0 (x ∷ xs) ys (back, NoneBefore-not_ahead y.0 x.0 xs back p.0) q.0,
          InOrder-merge_two (x ∷ xs) ys p q.1,
        )
    | inr h ↦ rw (merge_two-before ahead x y xs ys h) (
      NoneBefore-merge_two x.0 xs (y ∷ ys) p.0 (h, NoneBefore-not_ahead x.0 y.0 ys h q.0),
      InOrder-merge_two xs (y ∷ ys) p.1 q,
    )
  ]

  pub InOrder-merge_all :
      (xss : List (List (Bytes × V))) → AllInOrder ahead xss → InOrder ahead (merge_all ahead xss)
  unfolding merge_all
  InOrder-merge_all [] p = tt
  InOrder-merge_all (xs ∷ xss) p =
      InOrder-merge_two xs (merge_all ahead xss) p.0 (InOrder-merge_all xss p.1)

  skip_to-merge_two :
      (target : Bytes) (xs ys : List (Bytes × V))
      → skip_to ahead target (merge_two ahead xs ys)
        ≡ merge_two ahead (skip_to ahead target xs) (skip_to ahead target ys)
  skip_to-merge_two target [] ys = unfold merge_two skip_to in refl
  skip_to-merge_two target (x ∷ xs) [] = cc (
    merge_two-nil ahead (x ∷ xs),
    merge_two-nil ahead (skip_to ahead target (x ∷ xs)),
    skip_to-nil ahead ord target,
  )
  skip_to-merge_two target (x ∷ xs) (y ∷ ys) = elim (Bool-cases (ahead y.0 x.0)) [
    | inl h ↦ elim (Bool-cases (ahead y.0 target)) [
      | inl t ↦ cc (
        merge_two-behind ahead x y xs ys h,
        skip_to-passes ahead ord target y (merge_two ahead (x ∷ xs) ys) t,
        skip_to-merge_two target (x ∷ xs) ys,
        skip_to-passes ahead ord target y ys t,
      )
      | inr f ↦ cc (
        merge_two-behind ahead x y xs ys h,
        skip_to-stays ahead ord target y (merge_two ahead (x ∷ xs) ys) f,
        skip_to-stays ahead ord target y ys f,
        skip_to-stays ahead ord target x xs
            (not_ahead_trans ahead ord x.0 y.0 target (not_ahead_back ahead ord y.0 x.0 h) f),
      )
    ]
    | inr h ↦ elim (Bool-cases (ahead x.0 target)) [
      | inl t ↦ cc (
        merge_two-before ahead x y xs ys h,
        skip_to-passes ahead ord target x (merge_two ahead xs (y ∷ ys)) t,
        skip_to-merge_two target xs (y ∷ ys),
        skip_to-passes ahead ord target x xs t,
      )
      | inr f ↦ cc (
        merge_two-before ahead x y xs ys h,
        skip_to-stays ahead ord target x (merge_two ahead xs (y ∷ ys)) f,
        skip_to-stays ahead ord target x xs f,
        skip_to-stays ahead ord target y ys (not_ahead_trans ahead ord y.0 x.0 target h f),
      )
    ]
  ]

  -- Seeking in the merge is merging what the seeks of the lists leave.
  pub skip_to-merge_all :
      (target : Bytes) (xss : List (List (Bytes × V)))
      → skip_to ahead target (merge_all ahead xss)
        ≡ merge_all ahead (map (skip_to ahead target) xss)
  unfolding merge_all skip_to
  skip_to-merge_all target [] = refl
  skip_to-merge_all target (xs ∷ xss) =
      skip_to-merge_two target xs (merge_all ahead xss) ∙ (rw (skip_to-merge_all target xss) refl)

  find-merge_two :
      (k : Bytes) (xs ys : List (Bytes × V))
      → InOrder ahead xs
      → find k (merge_two ahead xs ys) ≡ or_else (find k xs) (find k ys)
  find-merge_two k [] ys p = unfold merge_two find in refl
  find-merge_two k (x ∷ xs) [] p = rw (merge_two-nil ahead (x ∷ xs)) (unfold find in ground arith)
  find-merge_two k (x ∷ xs) (y ∷ ys) p = elim (Bool-cases (ahead y.0 x.0)) [
    | inl h ↦ rw (merge_two-behind ahead x y xs ys h) (elim (Bool-cases (eq_bytes y.0 k)) [
      | inl t ↦
          let yk : y.0 ≡ k = eq_bytes_sound y.0 k t in
          rw (find-hit ahead ord k y (merge_two ahead (x ∷ xs) ys) t) (
            rw (find-none ahead ord k x.0 (x ∷ xs) (rw (← yk) h) (ord.irrefl x.0, p.0))
              (sym (find-hit ahead ord k y ys t)))
      | inr f ↦
          rw (find-miss ahead ord k y (merge_two ahead (x ∷ xs) ys) f)
            (rw (find-miss ahead ord k y ys f) (find-merge_two k (x ∷ xs) ys p))
    ])
    | inr h ↦ rw (merge_two-before ahead x y xs ys h) (elim (Bool-cases (eq_bytes x.0 k)) [
      | inl t ↦
          rw (find-hit ahead ord k x (merge_two ahead xs (y ∷ ys)) t)
            (rw (find-hit ahead ord k x xs t) refl)
      | inr f ↦
          rw (find-miss ahead ord k x (merge_two ahead xs (y ∷ ys)) f)
            (rw (find-miss ahead ord k x xs f) (find-merge_two k xs (y ∷ ys) p.1))
    ])
  ]

  -- The first value that a scan of the merge meets under a key is that of the lowest level.
  pub find-merge_all :
      (k : Bytes) (xss : List (List (Bytes × V)))
      → AllInOrder ahead xss
      → find k (merge_all ahead xss) ≡ find_by_level k xss
  unfolding merge_all find
  find-merge_all k [] p = refl
  find-merge_all k (xs ∷ xss) p =
      find-merge_two k xs (merge_all ahead xss) p.0 ∙ (rw (find-merge_all k xss p.1) refl)
