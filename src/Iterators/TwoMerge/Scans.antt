-- ===== src/Iterators/TwoMerge/Scans.antt =====
-- A `TwoMergeIter` over two iterators that scan their lists scans the merge of the lists.
use mathlib.Core.List.{tail}
use todb.Prelude.{
  ℕ, zero, suc, ◌<◌, ◌≡◌, refl, sym, ap, ◌∙◌, inl, inr, Bool, true, false, not, List, [], ◌∷◌,
  Option, none, some, ok, ◌>>=◌, length, is_empty, arith, Bool-cases,
}
use todb.Bytes.{Bytes}
use todb.Bytes.Order.{eq_bytes}
use todb.Iterators.Traits.{
  Iter, Scans, ScanOrder, InOrder, skip_to, length-skip_to, head_key, head_value,
}
use todb.Iterators.TwoMerge.{
  TwoMergeIter, Current, side_a, side_b, choose, b_is_equal, skip_b_if_equal, settle, seek_to_first,
  seek, advance, next, valid, key, value, two_merge,
}
use todb.Iterators.TwoMerge.Merged.{
  merge, skip_eq, HeadsDiffer, skip_eq-HeadsDiffer, merge-skip_eq, merge-behind, merge-before,
  merge-nil, length-skip_eq, skip_to-merge,
}

module _ {V : Type 0} where
  -- the side that `choose` takes at these heads
  chosen : (Bytes → Bytes → Bool) → List (Bytes × V) → List (Bytes × V) → Option Current
  chosen ahead [] [] = none
  chosen ahead [] (y ∷ ys) = some side_b
  chosen ahead (x ∷ xs) [] = some side_a
  chosen ahead (x ∷ xs) (y ∷ ys) = elim (ahead y.0 x.0) [ false ↦ some side_a | true ↦ some side_b ]

  heads_equal : List (Bytes × V) → List (Bytes × V) → Bool
  heads_equal [] ys = false
  heads_equal (x ∷ xs) [] = false
  heads_equal (x ∷ xs) (y ∷ ys) = eq_bytes x.0 y.0

module _ {A B V : Type 0} (opsa : Iter A V) (opsb : Iter B V) (ahead : Bytes → Bytes → Bool)
    (ord : ScanOrder ahead) (fuel : ℕ) (la lb : List (Bytes × V)) (sa : Scans opsa ahead la)
    (sb : Scans opsb ahead lb) where
  choose_lem :
      (a : A) (b : B) (xs ys : List (Bytes × V))
      → sa.At a xs
      → sb.At b ys
      → choose opsa opsb ahead fuel a b ≡ ok (chosen ahead xs ys)
  unfolding choose chosen
  choose_lem a b [] [] p q = ground (arith, sa.valid_at a [] p, sb.valid_at b [] q)
  choose_lem a b [] (y ∷ ys) p q = ground (arith, sa.valid_at a [] p, sb.valid_at b (y ∷ ys) q)
  choose_lem a b (x ∷ xs) [] p q = ground (arith, sa.valid_at a (x ∷ xs) p, sb.valid_at b [] q)
  choose_lem a b (x ∷ xs) (y ∷ ys) p q = ground (
    arith,
    sa.valid_at a (x ∷ xs) p,
    sb.valid_at b (y ∷ ys) q,
    sa.key_at a (x ∷ xs) p,
    sb.key_at b (y ∷ ys) q,
  )

  b_is_equal_lem :
      (a : A) (b : B) (xs ys : List (Bytes × V))
      → sa.At a xs
      → sb.At b ys
      → b_is_equal opsa opsb ahead fuel a b ≡ ok (heads_equal xs ys)
  unfolding b_is_equal heads_equal
  b_is_equal_lem a b [] ys p q = ground (arith, sa.valid_at a [] p)
  b_is_equal_lem a b (x ∷ xs) [] p q = ground (arith, sa.valid_at a (x ∷ xs) p, sb.valid_at b [] q)
  b_is_equal_lem a b (x ∷ xs) (y ∷ ys) p q = ground (
    arith,
    sa.valid_at a (x ∷ xs) p,
    sb.valid_at b (y ∷ ys) q,
    sa.key_at a (x ∷ xs) p,
    sb.key_at b (y ∷ ys) q,
  )

  -- one round of the loop
  skip_ends :
      (n : ℕ) (a : A) (b : B)
      → b_is_equal opsa opsb ahead fuel a b ≡ ok false
      → skip_b_if_equal opsa opsb ahead fuel (suc n) a b ≡ ok b
  unfolding skip_b_if_equal
  skip_ends n a b e = rw (e, ◌>>=◌)

  skip_goes_on :
      (n : ℕ) (a : A) (b b' : B)
      → b_is_equal opsa opsb ahead fuel a b ≡ ok true
      → opsb.next b ≡ ok b'
      → skip_b_if_equal opsa opsb ahead fuel (suc n) a b
        ≡ skip_b_if_equal opsa opsb ahead fuel n a b'
  unfolding skip_b_if_equal
  skip_goes_on n a b b' e g = rw (e, ◌>>=◌) (rw (g, ◌>>=◌))

  -- The loop ends, with B at what is left.
  skip_lem :
      (n : ℕ) (a : A) (b : B) (xs ys : List (Bytes × V))
      → sa.At a xs
      → sb.At b ys
      → length ys < n
      → (b' : B) × (skip_b_if_equal opsa opsb ahead fuel n a b ≡ ok b') × sb.At b' (skip_eq xs ys)
  unfolding skip_eq heads_equal
  skip_lem zero a b xs ys p q h = absurd (omega arith)
  skip_lem (suc n) a b [] ys p q h = (b, skip_ends n a b (b_is_equal_lem a b [] ys p q), q)
  skip_lem (suc n) a b (x ∷ xs) [] p q h =
      (b, skip_ends n a b (b_is_equal_lem a b (x ∷ xs) [] p q), q)
  skip_lem (suc n) a b (x ∷ xs) (y ∷ ys) p q h = elim (Bool-cases (eq_bytes x.0 y.0)) [
    | inr d ↦
        (b, skip_ends n a b (b_is_equal_lem a b (x ∷ xs) (y ∷ ys) p q ∙ ap ok d), rw (d, skip_eq) q)
    | inl e ↦
        let (c, g, r) = sb.next_at b (y ∷ ys) q in
        let (b', k, w) = skip_lem n a c (x ∷ xs) ys p r (omega arith) in
        (
          b',
          skip_goes_on n a b c (b_is_equal_lem a b (x ∷ xs) (y ∷ ys) p q ∙ ap ok e) g ∙ k,
          rw (e, skip_eq) w,
        )
  ]

  -- what lies ahead of a merge iterator
  record MergeAt (s : TwoMergeIter A B) (zs : List (Bytes × V)) : Type 0 where
    xs : List (Bytes × V)
    ys : List (Bytes × V)
    at_a : sa.At s.a xs
    at_b : sb.At s.b ys
    differ : HeadsDiffer xs ys
    short : length ys < fuel
    current : s.current ≡ chosen ahead xs ys
    merged : zs ≡ merge ahead xs ys

  settle_lem :
      (a : A) (b : B) (xs ys : List (Bytes × V))
      → sa.At a xs
      → sb.At b ys
      → length ys < fuel
      → (t : TwoMergeIter A B) × (settle opsa opsb ahead fuel a b ≡ ok t)
        × MergeAt t (merge ahead xs ys)
  unfolding settle
  settle_lem a b xs ys p q h =
      let (b', e, r) = skip_lem fuel a b xs ys p q h in
      (
        record { a = a; b = b'; current = chosen ahead xs (skip_eq xs ys) },
        rw (e, ◌>>=◌) (rw (choose_lem a b' xs (skip_eq xs ys) p r, ◌>>=◌)),
        record {
          xs = xs;
          ys = skip_eq xs ys;
          at_a = p;
          at_b = r;
          differ = skip_eq-HeadsDiffer xs ys;
          short = omega (arith, length-skip_eq xs ys);
          current = refl;
          merged = sym (merge-skip_eq ahead xs ys);
        },
      )

  head_key_lem :
      (s : TwoMergeIter A B) (xs ys : List (Bytes × V))
      → sa.At s.a xs
      → sb.At s.b ys
      → HeadsDiffer xs ys
      → s.current ≡ chosen ahead xs ys
      → (valid opsa opsb ahead fuel s ≡ not (is_empty (merge ahead xs ys)))
        × (key opsa opsb ahead fuel s ≡ ok (head_key (merge ahead xs ys)))
        × (value opsa opsb ahead fuel s ≡ ok (head_value (merge ahead xs ys)))
  unfolding valid key value merge chosen
  head_key_lem s [] [] p q d e = ground arith
  head_key_lem s [] (y ∷ ys) p q d e =
      ground (arith, sb.key_at s.b (y ∷ ys) q, sb.value_at s.b (y ∷ ys) q)
  head_key_lem s (x ∷ xs) [] p q d e =
      ground (arith, sa.key_at s.a (x ∷ xs) p, sa.value_at s.a (x ∷ xs) p)
  head_key_lem s (x ∷ xs) (y ∷ ys) p q d e = ground (
    arith,
    sa.key_at s.a (x ∷ xs) p,
    sa.value_at s.a (x ∷ xs) p,
    sb.key_at s.b (y ∷ ys) q,
    sb.value_at s.b (y ∷ ys) q,
  )

  -- what `next` does at a state whose side is known
  next_a :
      (s : TwoMergeIter A B) (xs ys : List (Bytes × V))
      → sa.At s.a xs
      → sb.At s.b ys
      → length ys < fuel
      → s.current ≡ some side_a
      → (t : TwoMergeIter A B) × (next opsa opsb ahead fuel s ≡ ok t)
        × MergeAt t (merge ahead (tail xs) ys)
  unfolding next advance
  next_a s xs ys p q h e =
      let (a', g, r) = sa.next_at s.a xs p in
      let (t, k, w) = settle_lem a' s.b (tail xs) ys r q h in
      (t, rw (e, advance) (rw (g, ◌>>=◌) k), w)

  next_b :
      (s : TwoMergeIter A B) (xs ys : List (Bytes × V))
      → sa.At s.a xs
      → sb.At s.b ys
      → length (tail ys) < fuel
      → s.current ≡ some side_b
      → (t : TwoMergeIter A B) × (next opsa opsb ahead fuel s ≡ ok t)
        × MergeAt t (merge ahead xs (tail ys))
  unfolding next advance
  next_b s xs ys p q h e =
      let (b', g, r) = sb.next_at s.b ys q in
      let (t, k, w) = settle_lem s.a b' xs (tail ys) p r h in
      (t, rw (e, advance) (rw (g, ◌>>=◌) k), w)

  next_lem :
      (s : TwoMergeIter A B) (xs ys : List (Bytes × V))
      → sa.At s.a xs
      → sb.At s.b ys
      → HeadsDiffer xs ys
      → length ys < fuel
      → s.current ≡ chosen ahead xs ys
      → (t : TwoMergeIter A B) × (next opsa opsb ahead fuel s ≡ ok t)
        × MergeAt t (tail (merge ahead xs ys))
  unfolding next advance merge chosen
  next_lem s [] [] p q d h e = (
    s,
    rw (e, advance) refl,
    record {
      xs = [];
      ys = [];
      at_a = p;
      at_b = q;
      differ = tt;
      short = h;
      current = e;
      merged = refl;
    },
  )
  next_lem s [] (y ∷ ys) p q d h e = next_b s [] (y ∷ ys) p q (omega arith) e
  next_lem s (x ∷ xs) [] p q d h e =
      let (t, k, w) = next_a s (x ∷ xs) [] p q h e in (t, k, rw (← merge-nil ahead xs) w)
  next_lem s (x ∷ xs) (y ∷ ys) p q d h e = elim (Bool-cases (ahead y.0 x.0)) [
    | inl b ↦
        let (t, k, w) = next_b s (x ∷ xs) (y ∷ ys) p q (omega arith) (e ∙ (rw (b, chosen) refl)) in
        (t, k, rw (merge-behind ahead x y xs ys d b) w)
    | inr b ↦
        let (t, k, w) = next_a s (x ∷ xs) (y ∷ ys) p q h (e ∙ (rw (b, chosen) refl)) in
        (t, k, rw (merge-before ahead x y xs ys d b) w)
  ]

  module _ (in_order : InOrder ahead lb) (enough : length lb < fuel) where
    first_lem :
        (s : TwoMergeIter A B)
        → sa.Good s.a × sb.Good s.b
        → (t : TwoMergeIter A B) × (seek_to_first opsa opsb ahead fuel s ≡ ok t)
          × MergeAt t (merge ahead la lb)
    unfolding seek_to_first
    first_lem s g =
        let (a', e, p) = sa.first_at s.a g.0 in
        let (b', f, q) = sb.first_at s.b g.1 in
        let (t, k, w) = settle_lem a' b' la lb p q enough in (t, rw (e, ◌>>=◌) (rw (f, ◌>>=◌) k), w)

    seek_lem :
        (s : TwoMergeIter A B) (target : Bytes)
        → sa.Good s.a × sb.Good s.b
        → (t : TwoMergeIter A B) × (seek opsa opsb ahead fuel s target ≡ ok t)
          × MergeAt t (skip_to ahead target (merge ahead la lb))
    unfolding seek
    seek_lem s target g =
        let (a', e, p) = sa.seek_at s.a target g.0 in
        let (b', f, q) = sb.seek_at s.b target g.1 in
        let (t, k, w) =
          settle_lem a' b' (skip_to ahead target la) (skip_to ahead target lb) p q
            (omega (arith, length-skip_to ahead target lb)) in
        (t, rw (e, ◌>>=◌) (rw (f, ◌>>=◌) k), rw (skip_to-merge ahead ord target la lb in_order) w)

    -- A merge iterator over two iterators that scan `la` and `lb`, B's list in order, scans their
    -- merge in every respect: no method fails or loops on, the current entry is the head of what
    -- lies ahead, `next` drops that head, and a seek skips to the target in the merge.
    pub two_merge-Scans : Scans (two_merge opsa opsb ahead fuel) ahead (merge ahead la lb)
    two_merge-Scans = record {
      Good = λ s. sa.Good s.a × sb.Good s.b;
      At = MergeAt;
      good = λ s zs m. (sa.good s.a m.xs m.at_a, sb.good s.b m.ys m.at_b);
      valid_at =
          λ s zs m. rw m.merged ((head_key_lem s m.xs m.ys m.at_a m.at_b m.differ m.current).0);
      key_at =
          λ s zs m. rw m.merged ((head_key_lem s m.xs m.ys m.at_a m.at_b m.differ m.current).1);
      value_at =
          λ s zs m. rw m.merged ((head_key_lem s m.xs m.ys m.at_a m.at_b m.differ m.current).2);
      first_at = first_lem;
      seek_at = seek_lem;
      next_at =
          λ s zs m. rw m.merged (next_lem s m.xs m.ys m.at_a m.at_b m.differ m.short m.current);
    }

    -- a merge iterator may be sought in where its sides may
    pub two_merge-Good : (s : TwoMergeIter A B) → sa.Good s.a → sb.Good s.b → two_merge-Scans.Good s
    unfolding two_merge-Scans
    two_merge-Good s g h = (g, h)

    pub two_merge-Good_sides :
        (s : TwoMergeIter A B) → two_merge-Scans.Good s → sa.Good s.a × sb.Good s.b
    unfolding two_merge-Scans
    two_merge-Good_sides s g = g
