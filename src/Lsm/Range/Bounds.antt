-- ===== src/Lsm/Range/Bounds.antt =====
-- On a list in scan order, skipping to a bound and stopping at one keep exactly the entries within
-- the two bounds.
use todb.Prelude.{
  ◌≤◌, ◌≡◌, refl, sym, ap, ◌∙◌, inl, inr, Bool, true, false, not, ◌&&◌, List, [], ◌∷◌, length,
  arith, Bool-cases, if◌then◌else◌,
}
use todb.Bytes.{Bytes}
use todb.Bytes.Order.{eq_bytes, eq_bytes_sound, eq_bytes_refl}
use todb.Iterators.Traits.{ScanOrder, skip_to, NoneBefore, InOrder, before_trans}
use todb.Iterators.Merge.Merged.{not_ahead_trans, not_ahead_back}
use todb.Lsm.Range.{Bound, included, excluded, unbounded, before_stop}

-- within the bound that the scan starts from
pub after_start : (Bytes → Bytes → Bool) → Bound → Bytes → Bool
after_start ahead (included start) key = not (ahead key start)
after_start ahead (excluded start) key = ahead start key
after_start ahead unbounded key = true

-- within both bounds
abbrev pub in_range : (Bytes → Bytes → Bool) → Bound → Bound → Bytes → Bool
in_range ahead start stop key = after_start ahead start key && before_stop ahead stop key

module _ {V : Type 0} where
  -- the entries whose keys satisfy a test
  abbrev pub keep : (Bytes → Bool) → List (Bytes × V) → List (Bytes × V)
  keep p [] = []
  keep p (x ∷ xs) = if p x.0 then x ∷ keep p xs else keep p xs

  -- the entries before the first one that stops the scan
  unfoldable pub take_before : (Bytes → Bool) → List (Bytes × V) → List (Bytes × V)
  take_before p [] = []
  take_before p (x ∷ xs) = if p x.0 then x ∷ take_before p xs else []

  -- what the loop of `init` leaves
  unfoldable pub drop_equal : Bytes → List (Bytes × V) → List (Bytes × V)
  drop_equal start [] = []
  drop_equal start (x ∷ xs) = if eq_bytes x.0 start then drop_equal start xs else x ∷ xs

  -- what `init` leaves
  unfoldable pub from_start : (Bytes → Bytes → Bool) → Bound → List (Bytes × V) → List (Bytes × V)
  from_start ahead (included start) xs = skip_to ahead start xs
  from_start ahead (excluded start) xs = drop_equal start (skip_to ahead start xs)
  from_start ahead unbounded xs = xs

  keep-keep :
      (p q : Bytes → Bool) (xs : List (Bytes × V)) → keep q (keep p xs) ≡ keep (λ k. p k && q k) xs
  keep-keep p q [] = refl
  keep-keep p q (x ∷ xs) = elim (Bool-cases (p x.0)) [
    | inr f ↦ rw f (keep-keep p q xs)
    | inl t ↦ rw t (elim (Bool-cases (q x.0)) [
      | inl u ↦ rw u (ap (◌∷◌ x) (keep-keep p q xs))
      | inr g ↦ rw g (keep-keep p q xs)
    ])
  ]

  keep_always : (xs : List (Bytes × V)) → keep (λ k. true) xs ≡ xs
  keep_always [] = refl
  keep_always (x ∷ xs) = ap (◌∷◌ x) (keep_always xs)

  length-keep : (p : Bytes → Bool) (xs : List (Bytes × V)) → length (keep p xs) ≤ length xs
  length-keep p [] = omega arith
  length-keep p (x ∷ xs) = ground (arith, length-keep p xs)

module _ (ahead : Bytes → Bytes → Bool) (ord : ScanOrder ahead) where
  -- once a key stops the scan, all later keys do
  stopped :
      (stop : Bound) (x y : Bytes)
      → before_stop ahead stop x ≡ false
      → ahead y x ≡ false
      → before_stop ahead stop y ≡ false
  unfolding before_stop
  stopped (included end) x y p q = ground (arith, before_trans ahead ord end x y)
  stopped (excluded end) x y p q = not_ahead_trans ahead ord y x end q p
  stopped unbounded x y p q = cc p

module _ {V : Type 0} (ahead : Bytes → Bytes → Bool) (ord : ScanOrder ahead) where
  NoneBefore-keep :
      (p : Bytes → Bool) (k : Bytes) (xs : List (Bytes × V))
      → NoneBefore ahead k xs
      → NoneBefore ahead k (keep p xs)
  NoneBefore-keep p k [] n = tt
  NoneBefore-keep p k (x ∷ xs) n = elim (Bool-cases (p x.0)) [
    | inl t ↦ rw t (n.0, NoneBefore-keep p k xs n.1)
    | inr f ↦ rw f (NoneBefore-keep p k xs n.1)
  ]

  pub InOrder-keep :
      (p : Bytes → Bool) (xs : List (Bytes × V)) → InOrder ahead xs → InOrder ahead (keep p xs)
  InOrder-keep p [] o = tt
  InOrder-keep p (x ∷ xs) o = elim (Bool-cases (p x.0)) [
    | inl t ↦ rw t (NoneBefore-keep p x.0 xs o.0, InOrder-keep p xs o.1)
    | inr f ↦ rw f (InOrder-keep p xs o.1)
  ]

  keep-none :
      (stop : Bound) (x : Bytes) (xs : List (Bytes × V))
      → before_stop ahead stop x ≡ false
      → NoneBefore ahead x xs
      → keep (before_stop ahead stop) xs ≡ []
  keep-none stop x [] p n = refl
  keep-none stop x (y ∷ xs) p n =
      rw (stopped ahead ord stop x y.0 p n.0) (keep-none stop x xs p n.1)

  pub take_before-keep :
      (stop : Bound) (xs : List (Bytes × V))
      → InOrder ahead xs
      → take_before (before_stop ahead stop) xs ≡ keep (before_stop ahead stop) xs
  unfolding take_before
  take_before-keep stop [] o = refl
  take_before-keep stop (x ∷ xs) o = elim (Bool-cases (before_stop ahead stop x.0)) [
    | inl t ↦ rw (t, take_before) (ap (◌∷◌ x) (take_before-keep stop xs o.1))
    | inr f ↦ rw (f, take_before) (sym (keep-none stop x.0 xs f o.0))
  ]

  -- behind a key that the scan does not skip it skips none
  keep-included :
      (start x : Bytes) (xs : List (Bytes × V))
      → ahead x start ≡ false
      → NoneBefore ahead x xs
      → keep (λ k. not (ahead k start)) xs ≡ xs
  keep-included start x [] p n = refl
  keep-included start x (y ∷ xs) p n =
      rw (not_ahead_trans ahead ord y.0 x start n.0 p) (ap (◌∷◌ y) (keep-included start x xs p n.1))

  skip_to-keep :
      (start : Bytes) (xs : List (Bytes × V))
      → InOrder ahead xs
      → skip_to ahead start xs ≡ keep (λ k. not (ahead k start)) xs
  unfolding skip_to
  skip_to-keep start [] o = refl
  skip_to-keep start (x ∷ xs) o = elim (Bool-cases (ahead x.0 start)) [
    | inl t ↦ rw (t, skip_to) (skip_to-keep start xs o.1)
    | inr f ↦ rw (f, skip_to) (ap (◌∷◌ x) (sym (keep-included start x.0 xs f o.0)))
  ]

  keep-excluded :
      (start x : Bytes) (xs : List (Bytes × V))
      → ahead start x ≡ true
      → NoneBefore ahead x xs
      → keep (ahead start) xs ≡ xs
  keep-excluded start x [] p n = refl
  keep-excluded start x (y ∷ xs) p n =
      rw (before_trans ahead ord start x y.0 p n.0) (ap (◌∷◌ y) (keep-excluded start x xs p n.1))

  drop_equal-keep :
      (start : Bytes) (xs : List (Bytes × V))
      → NoneBefore ahead start xs
      → InOrder ahead xs
      → drop_equal start xs ≡ keep (ahead start) xs
  unfolding drop_equal
  drop_equal-keep start [] n o = refl
  drop_equal-keep start (x ∷ xs) n o = elim (Bool-cases (eq_bytes x.0 start)) [
    | inl t ↦
        let same : x.0 ≡ start = eq_bytes_sound x.0 start t in
        let back : ahead start x.0 ≡ false = rw same (ord.irrefl start) in
        rw (t, drop_equal) (rw back (drop_equal-keep start xs n.1 o.1))
    | inr f ↦
        let past : ahead start x.0 ≡ true = elim (Bool-cases (ahead start x.0)) [
          | inl h ↦ h
          | inr g ↦
              let same : eq_bytes x.0 start ≡ true =
                rw (ord.total x.0 start n.0 g) (eq_bytes_refl start) in
              cc (same, f)
        ] in
        rw (f, drop_equal) (rw past (ap (◌∷◌ x) (sym (keep-excluded start x.0 xs past o.0))))
  ]

  skip_to-NoneBefore :
      (start : Bytes) (xs : List (Bytes × V))
      → InOrder ahead xs
      → NoneBefore ahead start (keep (λ k. not (ahead k start)) xs)
  skip_to-NoneBefore start [] o = tt
  skip_to-NoneBefore start (x ∷ xs) o = elim (Bool-cases (ahead x.0 start)) [
    | inl t ↦ rw t (skip_to-NoneBefore start xs o.1)
    | inr f ↦ rw f (f, skip_to-NoneBefore start xs o.1)
  ]

  -- skipping what is ahead of the excluded bound loses nothing behind it
  keep_past :
      (start : Bytes) (xs : List (Bytes × V))
      → keep (ahead start) (keep (λ k. not (ahead k start)) xs) ≡ keep (ahead start) xs
  keep_past start [] = refl
  keep_past start (x ∷ xs) = elim (Bool-cases (ahead x.0 start)) [
    | inl t ↦ rw t (rw (not_ahead_back ahead ord x.0 start t) (keep_past start xs))
    | inr f ↦ rw f (ground (arith, keep_past start xs))
  ]

  pub from_start-keep :
      (start : Bound) (xs : List (Bytes × V))
      → InOrder ahead xs
      → from_start ahead start xs ≡ keep (after_start ahead start) xs
  unfolding from_start after_start
  from_start-keep (included start) xs o = skip_to-keep start xs o
  from_start-keep (excluded start) xs o = rw (skip_to-keep start xs o) (
      drop_equal-keep start (keep (λ k. not (ahead k start)) xs) (skip_to-NoneBefore start xs o)
        (InOrder-keep (λ k. not (ahead k start)) xs o)
      ∙ keep_past start xs)
  from_start-keep unbounded xs o = sym (keep_always xs)

  -- starting at one bound and stopping at the other keeps the range
  pub take_before-from_start :
      (start stop : Bound) (xs : List (Bytes × V))
      → InOrder ahead xs
      → take_before (before_stop ahead stop) (from_start ahead start xs)
        ≡ keep (in_range ahead start stop) xs
  take_before-from_start start stop xs o = rw (from_start-keep start xs o) (
      take_before-keep stop (keep (after_start ahead start) xs)
        (InOrder-keep (after_start ahead start) xs o)
      ∙ keep-keep (after_start ahead start) (before_stop ahead stop) xs)
