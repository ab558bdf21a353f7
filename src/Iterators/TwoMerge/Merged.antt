-- ===== src/Iterators/TwoMerge/Merged.antt =====
-- The list that a `TwoMergeIter` scans: the merge of its sides in which an entry of B is left out
-- where A has its key at the head.
use todb.Prelude.{
  ◌≤◌, ◌≡◌, refl, inl, inr, Bool, true, false, List, [], ◌∷◌, length, arith, Bool-cases,
}
use todb.Bytes.{Bytes}
use todb.Bytes.Order.{eq_bytes, eq_bytes_sound, eq_bytes_refl}
use todb.Iterators.Traits.{ScanOrder, skip_to, NoneBefore, InOrder, before_trans}

module _ {V : Type 0} where
  unfoldable pub merge :
      (Bytes → Bytes → Bool) → List (Bytes × V) → List (Bytes × V) → List (Bytes × V)
  merge ahead [] ys = ys
  merge ahead (x ∷ xs) [] = x ∷ xs
  merge ahead (x ∷ xs) (y ∷ ys) = elim (eq_bytes x.0 y.0) [
    | true ↦ merge ahead (x ∷ xs) ys
    | false ↦ elim (ahead y.0 x.0) [
      | true ↦ y ∷ merge ahead (x ∷ xs) ys
      | false ↦ x ∷ merge ahead xs (y ∷ ys)
    ]
  ]

  -- what the loop `skip_b_if_equal` leaves of B
  unfoldable pub skip_eq : List (Bytes × V) → List (Bytes × V) → List (Bytes × V)
  skip_eq [] ys = ys
  skip_eq (x ∷ xs) [] = []
  skip_eq (x ∷ xs) (y ∷ ys) = elim (eq_bytes x.0 y.0) [
    | true ↦ skip_eq (x ∷ xs) ys
    | false ↦ y ∷ ys
  ]

  -- the heads have different keys
  abbrev pub HeadsDiffer : List (Bytes × V) → List (Bytes × V) → Type 0
  HeadsDiffer [] ys = Unit
  HeadsDiffer (x ∷ xs) [] = Unit
  HeadsDiffer (x ∷ xs) (y ∷ ys) = eq_bytes x.0 y.0 ≡ false

  pub skip_eq-HeadsDiffer : (xs ys : List (Bytes × V)) → HeadsDiffer xs (skip_eq xs ys)
  unfolding skip_eq
  skip_eq-HeadsDiffer [] ys = tt
  skip_eq-HeadsDiffer (x ∷ xs) [] = tt
  skip_eq-HeadsDiffer (x ∷ xs) (y ∷ ys) = elim (Bool-cases (eq_bytes x.0 y.0)) [
    | inl e ↦ rw (e, skip_eq) (skip_eq-HeadsDiffer (x ∷ xs) ys)
    | inr d ↦ rw (d, skip_eq) d
  ]

  -- skipping does not change the merge
  pub merge-skip_eq :
      (ahead : Bytes → Bytes → Bool) (xs ys : List (Bytes × V))
      → merge ahead xs (skip_eq xs ys) ≡ merge ahead xs ys
  unfolding skip_eq merge
  merge-skip_eq ahead [] ys = refl
  merge-skip_eq ahead (x ∷ xs) [] = refl
  merge-skip_eq ahead (x ∷ xs) (y ∷ ys) = elim (Bool-cases (eq_bytes x.0 y.0)) [
    | inl e ↦ ground (arith, merge-skip_eq ahead (x ∷ xs) ys)
    | inr d ↦ ground arith
  ]

  -- one step of the merge at heads that differ
  pub merge-behind :
      (ahead : Bytes → Bytes → Bool) (x y : Bytes × V) (xs ys : List (Bytes × V))
      → eq_bytes x.0 y.0 ≡ false
      → ahead y.0 x.0 ≡ true
      → merge ahead (x ∷ xs) (y ∷ ys) ≡ y ∷ merge ahead (x ∷ xs) ys
  unfolding merge
  merge-behind ahead x y xs ys d h = ground arith

  pub merge-before :
      (ahead : Bytes → Bytes → Bool) (x y : Bytes × V) (xs ys : List (Bytes × V))
      → eq_bytes x.0 y.0 ≡ false
      → ahead y.0 x.0 ≡ false
      → merge ahead (x ∷ xs) (y ∷ ys) ≡ x ∷ merge ahead xs (y ∷ ys)
  unfolding merge
  merge-before ahead x y xs ys d h = ground arith

  pub merge-equal :
      (ahead : Bytes → Bytes → Bool) (x y : Bytes × V) (xs ys : List (Bytes × V))
      → eq_bytes x.0 y.0 ≡ true
      → merge ahead (x ∷ xs) (y ∷ ys) ≡ merge ahead (x ∷ xs) ys
  unfolding merge
  merge-equal ahead x y xs ys e = ground arith

  pub merge-nil : (ahead : Bytes → Bytes → Bool) (xs : List (Bytes × V)) → merge ahead xs [] ≡ xs
  unfolding merge
  merge-nil ahead [] = refl
  merge-nil ahead (x ∷ xs) = refl

  pub length-skip_eq : (xs ys : List (Bytes × V)) → length (skip_eq xs ys) ≤ length ys
  unfolding skip_eq
  length-skip_eq [] ys = omega arith
  length-skip_eq (x ∷ xs) [] = omega arith
  length-skip_eq (x ∷ xs) (y ∷ ys) = ground (arith, length-skip_eq (x ∷ xs) ys)

module _ (ahead : Bytes → Bytes → Bool) (ord : ScanOrder ahead) where
  pub eq_bytes-not_ahead : (a b : Bytes) → eq_bytes a b ≡ true → ahead a b ≡ false
  eq_bytes-not_ahead a b e = rw (eq_bytes_sound a b e) (ord.irrefl b)

  -- of two different keys one comes first
  pub one_ahead : (a b : Bytes) → eq_bytes a b ≡ false → ahead b a ≡ false → ahead a b ≡ true
  one_ahead a b d h = elim (Bool-cases (ahead a b)) [
    | inl t ↦ t
    | inr f ↦ let e : eq_bytes a b ≡ true = rw (ord.total a b f h) (eq_bytes_refl b) in cc (e, d)
  ]

  stays_behind : (a b t : Bytes) → ahead a b ≡ true → ahead a t ≡ false → ahead b t ≡ false
  stays_behind a b t p q =
      ground (arith, before_trans ahead ord b t a, ord.trans a b a, ord.irrefl a)

module _ {V : Type 0} (ahead : Bytes → Bytes → Bool) (ord : ScanOrder ahead) where
  pub skip_to-stays :
      (target : Bytes) (x : Bytes × V) (xs : List (Bytes × V))
      → ahead x.0 target ≡ false
      → skip_to ahead target (x ∷ xs) ≡ x ∷ xs
  unfolding skip_to
  skip_to-stays target x xs h = ground arith

  pub skip_to-passes :
      (target : Bytes) (x : Bytes × V) (xs : List (Bytes × V))
      → ahead x.0 target ≡ true
      → skip_to ahead target (x ∷ xs) ≡ skip_to ahead target xs
  unfolding skip_to
  skip_to-passes target x xs h = ground arith

  pub skip_to-nil : (target : Bytes) → skip_to {V = V} ahead target [] ≡ []
  unfolding skip_to
  skip_to-nil target = refl

  -- behind an entry that the scan does not skip nothing is skipped
  skip_to-behind :
      (target : Bytes) (y : Bytes × V) (ys : List (Bytes × V))
      → NoneBefore ahead y.0 ys
      → ahead y.0 target ≡ false
      → skip_to ahead target ys ≡ ys
  unfolding skip_to
  skip_to-behind target y [] h b = refl
  skip_to-behind target y (z ∷ ys) h b = elim (Bool-cases (ahead z.0 target)) [
    | inl t ↦ cc (before_trans ahead ord z.0 target y.0 t b, h.0)
    | inr f ↦ skip_to-stays target z ys f
  ]

  -- Seeking in the merge is merging what the seeks of the sides leave.
  pub skip_to-merge :
      (target : Bytes) (xs ys : List (Bytes × V))
      → InOrder ahead ys
      → skip_to ahead target (merge ahead xs ys)
        ≡ merge ahead (skip_to ahead target xs) (skip_to ahead target ys)
  skip_to-merge target [] ys o = unfold merge skip_to in refl
  skip_to-merge target (x ∷ xs) [] o = cc (
    merge-nil ahead (x ∷ xs),
    merge-nil ahead (skip_to ahead target (x ∷ xs)),
    skip_to-nil target,
  )
  skip_to-merge target (x ∷ xs) (y ∷ ys) o = elim (Bool-cases (eq_bytes x.0 y.0)) [
    | inl e ↦
        let xy : x.0 ≡ y.0 = eq_bytes_sound x.0 y.0 e in
        elim (Bool-cases (ahead y.0 target)) [
          | inl t ↦ cc (
            merge-equal ahead x y xs ys e,
            skip_to-merge target (x ∷ xs) ys o.1,
            skip_to-passes target y ys t,
          )
          | inr f ↦ cc (
            merge-equal ahead x y xs ys e,
            skip_to-merge target (x ∷ xs) ys o.1,
            skip_to-behind target y ys o.0 f,
            skip_to-stays target y ys f,
            skip_to-stays target x xs (rw xy f),
          )
        ]
    | inr d ↦ elim (Bool-cases (ahead y.0 x.0)) [
      | inl h ↦ elim (Bool-cases (ahead y.0 target)) [
        | inl t ↦ cc (
          merge-behind ahead x y xs ys d h,
          skip_to-passes target y (merge ahead (x ∷ xs) ys) t,
          skip_to-merge target (x ∷ xs) ys o.1,
          skip_to-passes target y ys t,
        )
        | inr f ↦ cc (
          merge-behind ahead x y xs ys d h,
          skip_to-stays target y (merge ahead (x ∷ xs) ys) f,
          skip_to-stays target y ys f,
          skip_to-stays target x xs (stays_behind ahead ord y.0 x.0 target h f),
        )
      ]
      | inr h ↦ elim (Bool-cases (ahead x.0 target)) [
        | inl t ↦ cc (
          merge-before ahead x y xs ys d h,
          skip_to-passes target x (merge ahead xs (y ∷ ys)) t,
          skip_to-merge target xs (y ∷ ys) o,
          skip_to-passes target x xs t,
        )
        | inr f ↦ cc (
          merge-before ahead x y xs ys d h,
          skip_to-stays target x (merge ahead xs (y ∷ ys)) f,
          skip_to-stays target x xs f,
          skip_to-stays target y ys
              (stays_behind ahead ord x.0 y.0 target (one_ahead ahead ord x.0 y.0 d h) f),
        )
      ]
    ]
  ]
