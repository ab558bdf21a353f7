-- ===== src/Iterators/TwoMerge/Priority.antt =====
-- What the merge of two lists in scan order holds: it is in order itself, and A's entry hides B's.
use todb.Prelude.{
  ◌≡◌, refl, sym, ◌∙◌, inl, inr, Bool, true, false, List, [], ◌∷◌, Option, none, some, arith,
  Bool-cases, if◌then◌else◌,
}
use todb.Bytes.{Bytes}
use todb.Bytes.Order.{eq_bytes, eq_bytes_sound}
use todb.Iterators.Traits.{ScanOrder, NoneBefore, InOrder}
use todb.Iterators.TwoMerge.Merged.{
  merge, merge-behind, merge-before, merge-equal, merge-nil, one_ahead,
}

module _ {V : Type 0} where
  -- the first value that a scan meets under a key
  unfoldable pub find : Bytes → List (Bytes × V) → Option V
  find k [] = none
  find k (x ∷ xs) = if eq_bytes x.0 k then some x.1 else find k xs

  -- the first of two answers
  abbrev pub or_else : Option V → Option V → Option V
  or_else none b = b
  or_else (some a) b = some a

module _ {V : Type 0} (ahead : Bytes → Bytes → Bool) (ord : ScanOrder ahead) where
  NoneBefore-merge :
      (k : Bytes) (xs ys : List (Bytes × V))
      → NoneBefore ahead k xs
      → NoneBefore ahead k ys
      → NoneBefore ahead k (merge ahead xs ys)
  unfolding merge
  NoneBefore-merge k [] ys p q = q
  NoneBefore-merge k (x ∷ xs) [] p q = p
  NoneBefore-merge k (x ∷ xs) (y ∷ ys) p q = elim (Bool-cases (eq_bytes x.0 y.0)) [
    | inl e ↦ rw (merge-equal ahead x y xs ys e) (NoneBefore-merge k (x ∷ xs) ys p q.1)
    | inr d ↦ elim (Bool-cases (ahead y.0 x.0)) [
      | inl h ↦ rw (merge-behind ahead x y xs ys d h) (q.0, NoneBefore-merge k (x ∷ xs) ys p q.1)
      | inr h ↦ rw (merge-before ahead x y xs ys d h) (p.0, NoneBefore-merge k xs (y ∷ ys) p.1 q)
    ]
  ]

  -- behind an entry in order, nothing comes before an earlier key
  pub NoneBefore-earlier :
      (k j : Bytes) (xs : List (Bytes × V))
      → ahead k j ≡ true
      → NoneBefore ahead j xs
      → NoneBefore ahead k xs
  NoneBefore-earlier k j [] h n = tt
  NoneBefore-earlier k j (x ∷ xs) h n =
      (ground (arith, ord.trans x.0 k j, n.0), NoneBefore-earlier k j xs h n.1)

  -- The merge of two lists in scan order is in scan order.
  pub InOrder-merge :
      (xs ys : List (Bytes × V))
      → InOrder ahead xs
      → InOrder ahead ys
      → InOrder ahead (merge ahead xs ys)
  unfolding merge
  InOrder-merge [] ys p q = q
  InOrder-merge (x ∷ xs) [] p q = p
  InOrder-merge (x ∷ xs) (y ∷ ys) p q = elim (Bool-cases (eq_bytes x.0 y.0)) [
    | inl e ↦ rw (merge-equal ahead x y xs ys e) (InOrder-merge (x ∷ xs) ys p q.1)
    | inr d ↦ elim (Bool-cases (ahead y.0 x.0)) [
      | inl h ↦ rw (merge-behind ahead x y xs ys d h) (
        NoneBefore-merge y.0 (x ∷ xs) ys
            (
              ground (arith, ord.trans x.0 y.0 x.0, ord.irrefl x.0),
              NoneBefore-earlier y.0 x.0 xs h p.0,
            )
            q.0,
        InOrder-merge (x ∷ xs) ys p q.1,
      )
      | inr h ↦ rw (merge-before ahead x y xs ys d h) (
        NoneBefore-merge x.0 xs (y ∷ ys) p.0
            (h, NoneBefore-earlier x.0 y.0 ys (one_ahead ahead ord x.0 y.0 d h) q.0),
        InOrder-merge xs (y ∷ ys) p.1 q,
      )
    ]
  ]

  -- a key that comes before all of a list is not in it
  pub find-none :
      (k j : Bytes) (xs : List (Bytes × V))
      → ahead k j ≡ true
      → NoneBefore ahead j xs
      → find k xs ≡ none
  unfolding find
  find-none k j [] h n = refl
  find-none k j (x ∷ xs) h n = elim (Bool-cases (eq_bytes x.0 k)) [
    | inl e ↦ cc (rw (← eq_bytes_sound x.0 k e) at h, n.0)
    | inr d ↦ rw (d, find) (find-none k j xs h n.1)
  ]

  pub find-hit :
      (k : Bytes) (x : Bytes × V) (xs : List (Bytes × V))
      → eq_bytes x.0 k ≡ true
      → find k (x ∷ xs) ≡ some x.1
  unfolding find
  find-hit k x xs e = rw (e, find)

  pub find-miss :
      (k : Bytes) (x : Bytes × V) (xs : List (Bytes × V))
      → eq_bytes x.0 k ≡ false
      → find k (x ∷ xs) ≡ find k xs
  unfolding find
  find-miss k x xs e = rw (e, find)

  -- Under each key a scan of the merge first meets A's value, and B's where A has none.
  pub find-merge :
      (k : Bytes) (xs ys : List (Bytes × V))
      → InOrder ahead xs
      → find k (merge ahead xs ys) ≡ or_else (find k xs) (find k ys)
  find-merge k [] ys p = unfold merge find in refl
  find-merge k (x ∷ xs) [] p = rw (merge-nil ahead (x ∷ xs)) (unfold find in ground arith)
  find-merge k (x ∷ xs) (y ∷ ys) p = elim (Bool-cases (eq_bytes x.0 y.0)) [
    | inl e ↦ rw (merge-equal ahead x y xs ys e) (
        find-merge k (x ∷ xs) ys p ∙ elim (Bool-cases (eq_bytes y.0 k)) [
          | inl t ↦ rw (find-hit k x xs (rw (eq_bytes_sound x.0 y.0 e) t)) refl
          | inr f ↦ rw (find-miss k y ys f) refl
        ])
    | inr d ↦ elim (Bool-cases (ahead y.0 x.0)) [
      | inl h ↦ rw (merge-behind ahead x y xs ys d h) (elim (Bool-cases (eq_bytes y.0 k)) [
        | inl t ↦
            let yk : y.0 ≡ k = eq_bytes_sound y.0 k t in
            rw (find-hit k y (merge ahead (x ∷ xs) ys) t) (
              rw (find-none k x.0 (x ∷ xs) (rw (← yk) h) (ord.irrefl x.0, p.0))
                (sym (find-hit k y ys t)))
        | inr f ↦
            rw (find-miss k y (merge ahead (x ∷ xs) ys) f)
              (rw (find-miss k y ys f) (find-merge k (x ∷ xs) ys p))
      ])
      | inr h ↦ rw (merge-before ahead x y xs ys d h) (elim (Bool-cases (eq_bytes x.0 k)) [
        | inl t ↦ rw (find-hit k x (merge ahead xs (y ∷ ys)) t) (rw (find-hit k x xs t) refl)
        | inr f ↦
            rw (find-miss k x (merge ahead xs (y ∷ ys)) f)
              (rw (find-miss k x xs f) (find-merge k xs (y ∷ ys) p.1))
      ])
    ]
  ]
