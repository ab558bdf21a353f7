-- ===== src/Iterators/TwoMerge/Versions.antt =====
-- All the values that a list of entries holds under a key, in the order of a scan, through the two
-- merges: with the order of the keys they determine a merged list.
use todb.Prelude.{
  ◌≡◌, refl, sym, ap, ◌∙◌, inl, inr, Bool, true, false, List, [], ◌∷◌, ◌++◌, Bool-cases,
  if◌then◌else◌, append-nil,
}
use todb.Bytes.{Bytes}
use todb.Bytes.Order.{eq_bytes, eq_bytes_sound}
use todb.Iterators.Traits.{ScanOrder, NoneBefore, InOrder}
use todb.Iterators.TwoMerge.Merged.{
  merge, merge-behind, merge-before, merge-equal, merge-nil, one_ahead,
}
use todb.Iterators.Merge.Merged.{
  merge_two, merge_all, merge_two-behind, merge_two-before, merge_two-nil, AllInOrder,
}

module _ {V : Type 0} where
  unfoldable pub versions : Bytes → List (Bytes × V) → List V
  versions k [] = []
  versions k (x ∷ xs) = if eq_bytes x.0 k then x.1 ∷ versions k xs else versions k xs

  -- the second only where the first is empty
  abbrev pub prefer : List V → List V → List V
  prefer [] vs = vs
  prefer (v ∷ vs) ws = v ∷ vs

  abbrev pub versions_by_level : Bytes → List (List (Bytes × V)) → List V
  versions_by_level k [] = []
  versions_by_level k (xs ∷ xss) = versions k xs ++ versions_by_level k xss

  pub prefer-nil : (vs : List V) → prefer vs [] ≡ vs
  prefer-nil [] = refl
  prefer-nil (v ∷ vs) = refl

  versions-hit :
      (k : Bytes) (x : Bytes × V) (xs : List (Bytes × V))
      → eq_bytes x.0 k ≡ true
      → versions k (x ∷ xs) ≡ x.1 ∷ versions k xs
  unfolding versions
  versions-hit k x xs e = rw (e, versions) refl

  versions-miss :
      (k : Bytes) (x : Bytes × V) (xs : List (Bytes × V))
      → eq_bytes x.0 k ≡ false
      → versions k (x ∷ xs) ≡ versions k xs
  unfolding versions
  versions-miss k x xs e = rw (e, versions) refl

module _ {V : Type 0} (ahead : Bytes → Bytes → Bool) (ord : ScanOrder ahead) (k : Bytes) where
  -- a key that comes before all of a list is not in it
  versions-none :
      (j : Bytes) (xs : List (Bytes × V))
      → ahead k j ≡ true
      → NoneBefore ahead j xs
      → versions k xs ≡ []
  unfolding versions
  versions-none j [] h n = refl
  versions-none j (x ∷ xs) h n = elim (Bool-cases (eq_bytes x.0 k)) [
    | inl e ↦ cc (rw (← eq_bytes_sound x.0 k e) at h, n.0)
    | inr d ↦ rw (d, versions) (versions-none j xs h n.1)
  ]

  -- an entry that comes before a list in order, which has none of its key
  none_behind :
      (x y : Bytes × V) (ys : List (Bytes × V))
      → eq_bytes x.0 k ≡ true
      → ahead x.0 y.0 ≡ true
      → InOrder ahead (y ∷ ys)
      → versions k (y ∷ ys) ≡ []
  none_behind x y ys t h o =
      versions-none y.0 (y ∷ ys) (rw (← eq_bytes_sound x.0 k t) h) (ord.irrefl y.0, o.0)

  -- The merge of two lists in order has A's values under a key, and B's only where A has none.
  pub versions-merge :
      (xs ys : List (Bytes × V))
      → InOrder ahead xs
      → InOrder ahead ys
      → versions k (merge ahead xs ys) ≡ prefer (versions k xs) (versions k ys)
  versions-merge [] ys p q = unfold merge versions in refl
  versions-merge (x ∷ xs) [] p q =
      rw (merge-nil ahead (x ∷ xs)) (sym (unfold versions in prefer-nil (versions k (x ∷ xs))))
  versions-merge (x ∷ xs) (y ∷ ys) p q = elim (Bool-cases (eq_bytes x.0 y.0)) [
    | inl e ↦ rw (merge-equal ahead x y xs ys e) (
        versions-merge (x ∷ xs) ys p q.1 ∙ elim (Bool-cases (eq_bytes y.0 k)) [
          | inl t ↦ rw (versions-hit k x xs (rw (eq_bytes_sound x.0 y.0 e) t)) refl
          | inr f ↦ rw (versions-miss k y ys f) refl
        ])
    | inr d ↦ elim (Bool-cases (ahead y.0 x.0)) [
      | inl h ↦ rw (merge-behind ahead x y xs ys d h) (elim (Bool-cases (eq_bytes y.0 k)) [
        | inl t ↦
            let absent = none_behind y x xs t h p in
            rw (versions-hit k y (merge ahead (x ∷ xs) ys) t, versions-hit k y ys t)
              (rw (versions-merge (x ∷ xs) ys p q.1) (rw absent refl))
        | inr f ↦
            rw (versions-miss k y (merge ahead (x ∷ xs) ys) f, versions-miss k y ys f)
              (versions-merge (x ∷ xs) ys p q.1)
      ])
      | inr h ↦ rw (merge-before ahead x y xs ys d h) (elim (Bool-cases (eq_bytes x.0 k)) [
        | inl t ↦
            let absent = none_behind x y ys t (one_ahead ahead ord x.0 y.0 d h) q in
            rw (versions-hit k x (merge ahead xs (y ∷ ys)) t, versions-hit k x xs t)
              (ap (◌∷◌ x.1)
                (versions-merge xs (y ∷ ys) p.1 q ∙ (rw absent (prefer-nil (versions k xs)))))
        | inr f ↦
            rw (versions-miss k x (merge ahead xs (y ∷ ys)) f, versions-miss k x xs f)
              (versions-merge xs (y ∷ ys) p.1 q)
      ])
    ]
  ]

  versions-merge_two :
      (xs ys : List (Bytes × V))
      → InOrder ahead xs
      → versions k (merge_two ahead xs ys) ≡ versions k xs ++ versions k ys
  versions-merge_two [] ys p = unfold merge_two versions in refl
  versions-merge_two (x ∷ xs) [] p =
      rw (merge_two-nil ahead (x ∷ xs)) (sym (unfold versions in append-nil (versions k (x ∷ xs))))
  versions-merge_two (x ∷ xs) (y ∷ ys) p = elim (Bool-cases (ahead y.0 x.0)) [
    | inl h ↦ rw (merge_two-behind ahead x y xs ys h) (elim (Bool-cases (eq_bytes y.0 k)) [
      | inl t ↦
          let absent = none_behind y x xs t h p in
          rw (versions-hit k y (merge_two ahead (x ∷ xs) ys) t, versions-hit k y ys t)
            (rw (versions-merge_two (x ∷ xs) ys p) (rw absent refl))
      | inr f ↦
          rw (versions-miss k y (merge_two ahead (x ∷ xs) ys) f, versions-miss k y ys f)
            (versions-merge_two (x ∷ xs) ys p)
    ])
    | inr h ↦ rw (merge_two-before ahead x y xs ys h) (elim (Bool-cases (eq_bytes x.0 k)) [
      | inl t ↦
          rw (versions-hit k x (merge_two ahead xs (y ∷ ys)) t, versions-hit k x xs t)
            (ap (◌∷◌ x.1) (versions-merge_two xs (y ∷ ys) p.1))
      | inr f ↦
          rw (versions-miss k x (merge_two ahead xs (y ∷ ys)) f, versions-miss k x xs f)
            (versions-merge_two xs (y ∷ ys) p.1)
    ])
  ]

  -- The merge by level has the values of all its lists, the lowest level first.
  pub versions-merge_all :
      (xss : List (List (Bytes × V)))
      → AllInOrder ahead xss
      → versions k (merge_all ahead xss) ≡ versions_by_level k xss
  unfolding merge_all versions
  versions-merge_all [] p = refl
  versions-merge_all (xs ∷ xss) p =
      versions-merge_two xs (merge_all ahead xss) p.0
      ∙ ap (◌++◌ (versions k xs)) (versions-merge_all xss p.1)
