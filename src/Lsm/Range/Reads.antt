-- ===== src/Lsm/Range/Reads.antt =====
-- What the client of a range scan reads.
use todb.Prelude.{
  ℕ, zero, suc, ◌≤◌, ◌<◌, ◌≡◌, refl, ap, ◌∙◌, inl, inr, Bool, true, false, List, [], ◌∷◌, some, ok,
  ◌>>=◌, length, arith, Bool-cases,
}
use todb.Bytes.{Bytes}
use todb.Bytes.Order.{eq_bytes}
use todb.Iterators.Traits.{Iter, Scans, ScanOrder, InOrder, skip_to, length-skip_to}
use todb.Lsm.Range.{
  Bound, included, excluded, unbounded, LsmScan, before_stop, new, skip_equal, init_at, init, valid,
  next, key, value, collect,
}
use todb.Lsm.Range.Bounds.{
  keep, in_range, take_before, drop_equal, from_start, take_before-from_start,
}

module _ {V : Type 0} where
  length-drop_equal :
      (start : Bytes) (xs : List (Bytes × V)) → length (drop_equal start xs) ≤ length xs
  unfolding drop_equal
  length-drop_equal start [] = omega arith
  length-drop_equal start (x ∷ xs) = ground (arith, length-drop_equal start xs)

  length-from_start :
      (ahead : Bytes → Bytes → Bool) (start : Bound) (xs : List (Bytes × V))
      → length (from_start ahead start xs) ≤ length xs
  unfolding from_start
  length-from_start ahead (included start) xs = length-skip_to ahead start xs
  length-from_start ahead (excluded start) xs =
      omega (arith, length-drop_equal start (skip_to ahead start xs), length-skip_to ahead start xs)
  length-from_start ahead unbounded xs = omega arith

module _ {I V : Type 0} (ops : Iter I V) (ahead : Bytes → Bytes → Bool) (all : List (Bytes × V))
    (scans : Scans ops ahead all) where
  skip_equal_lem :
      (fuel : ℕ) (start : Bytes) (s : I) (xs : List (Bytes × V))
      → scans.At s xs
      → length xs < fuel
      → (t : I) × (skip_equal ops ahead fuel start s ≡ ok t) × scans.At t (drop_equal start xs)
  unfolding skip_equal drop_equal
  skip_equal_lem zero start s xs a h = absurd (omega arith)
  skip_equal_lem (suc fuel) start s [] a h = (s, rw (scans.valid_at s [] a, skip_equal) refl, a)
  skip_equal_lem (suc fuel) start s (x ∷ xs) a h = elim (Bool-cases (eq_bytes x.0 start)) [
    | inr f ↦ (
      s,
      rw (scans.valid_at s (x ∷ xs) a, skip_equal)
          (rw (scans.key_at s (x ∷ xs) a, ◌>>=◌) (rw f refl)),
      rw (f, drop_equal) a,
    )
    | inl e ↦
        let (t, g, b) = scans.next_at s (x ∷ xs) a in
        let (u, k, c) = skip_equal_lem fuel start t xs b (omega arith) in
        (
          u,
          rw (scans.valid_at s (x ∷ xs) a, skip_equal)
              (rw (scans.key_at s (x ∷ xs) a, ◌>>=◌) (rw e (rw (g, ◌>>=◌) k))),
          rw (e, drop_equal) c,
        )
  ]

  init_at_lem :
      (fuel : ℕ) (start : Bound) (s : I)
      → scans.Good s
      → length all < fuel
      → (t : I) × (init_at ops ahead fuel start s ≡ ok t) × scans.At t (from_start ahead start all)
  unfolding init_at from_start
  init_at_lem fuel (included start) s g h = scans.seek_at s start g
  init_at_lem fuel (excluded start) s g h =
      let (t, e, a) = scans.seek_at s start g in
      let (u, k, b) =
        skip_equal_lem fuel start t (skip_to ahead start all) a
          (omega (arith, length-skip_to ahead start all)) in
      (u, rw (e, ◌>>=◌) k, b)
  init_at_lem fuel unbounded s g h = scans.first_at s g

  valid_ended : (s : LsmScan I) → scans.At s.inner [] → valid ops ahead s ≡ ok false
  unfolding valid
  valid_ended s a = rw (scans.valid_at s.inner [] a, valid) refl

  valid_stopped :
      (s : LsmScan I) (xs : List (Bytes × V)) (x : Bytes × V)
      → scans.At s.inner (x ∷ xs)
      → valid ops ahead s ≡ ok (before_stop ahead s.stop x.0)
  unfolding valid
  valid_stopped s xs x a =
      rw (scans.valid_at s.inner (x ∷ xs) a, valid)
        (rw (scans.key_at s.inner (x ∷ xs) a, ◌>>=◌) refl)

  -- the methods at an entry that does not stop the scan
  key_running :
      (s : LsmScan I) (xs : List (Bytes × V)) (x : Bytes × V)
      → scans.At s.inner (x ∷ xs)
      → valid ops ahead s ≡ ok true
      → key ops ahead s ≡ ok (some x.0)
  unfolding key
  key_running s xs x a v = rw (v, ◌>>=◌) (scans.key_at s.inner (x ∷ xs) a)

  value_running :
      (s : LsmScan I) (xs : List (Bytes × V)) (x : Bytes × V)
      → scans.At s.inner (x ∷ xs)
      → valid ops ahead s ≡ ok true
      → value ops ahead s ≡ ok (some x.1)
  unfolding value
  value_running s xs x a v = rw (v, ◌>>=◌) (scans.value_at s.inner (x ∷ xs) a)

  next_running :
      (s : LsmScan I) (t : I)
      → ops.next s.inner ≡ ok t
      → next ops ahead s ≡ ok (record s { inner = t })
  unfolding next
  next_running s t g = rw (g, ◌>>=◌) refl

  collect_lem :
      (fuel : ℕ) (s : LsmScan I) (xs : List (Bytes × V))
      → scans.At s.inner xs
      → length xs < fuel
      → collect ops ahead fuel s ≡ ok (take_before (before_stop ahead s.stop) xs)
  unfolding collect take_before
  collect_lem zero s xs a h = absurd (omega arith)
  collect_lem (suc fuel) s [] a h = rw (valid_ended s a, ◌>>=◌) refl
  collect_lem (suc fuel) s (x ∷ xs) a h =
      let v = valid_stopped s xs x a in
      elim (Bool-cases (before_stop ahead s.stop x.0)) [
        | inr f ↦ rw (v ∙ ap ok f, ◌>>=◌) (rw (f, take_before) refl)
        | inl e ↦
            let (t, g, b) = scans.next_at s.inner (x ∷ xs) a in
            rw (v ∙ ap ok e, ◌>>=◌)
              (rw (key_running s xs x a (v ∙ ap ok e), ◌>>=◌)
                (rw (value_running s xs x a (v ∙ ap ok e), ◌>>=◌)
                  (rw (next_running s t g, ◌>>=◌)
                    (rw (collect_lem fuel (record s { inner = t }) xs b (omega arith), ◌>>=◌)
                      (rw e refl)))))
      ]

  -- A scan of a range reads, without an error or a panic, exactly the entries of its inner iterator
  -- whose keys lie within both bounds, in scan order, each bound being included, excluded or absent.
  -- The inner iterator keeps the promises of `Scans` for a list in scan order, and there is a round
  -- per entry.
  pub scan_range :
      (ord : ScanOrder ahead) (fuel : ℕ) (s : I) (start stop : Bound)
      → InOrder ahead all
      → scans.Good s
      → length all < fuel
      → (init ops ahead fuel (new ops ahead s start stop) >>= collect ops ahead fuel)
        ≡ ok (keep (in_range ahead start stop) all)
  unfolding init new
  scan_range ord fuel s start stop o g h =
      let (t, e, a) = init_at_lem fuel start s g h in
      rw (e, ◌>>=◌)
        (collect_lem fuel (record { inner = t; start = start; stop = stop })
            (from_start ahead start all) a (omega (arith, length-from_start ahead start all))
          ∙ ap ok (take_before-from_start ahead ord start stop all o))
