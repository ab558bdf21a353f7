-- ===== src/Iterators/Concat/Scans.antt =====
-- A `ConcatIter` over iterators whose entries follow one another scans them all.
use mathlib.Core.List.{tail}
use todb.Prelude.{
  ℕ, zero, suc, ◌+◌, ◌<◌, ◌≡◌, refl, sym, ap, ◌∙◌, ◌⊎◌, Bool, true, false, not, inl, inr, List, [],
  ◌∷◌, ◌++◌, length, get_elem?, set, none, some, Run, ok, ◌>>=◌, is_empty, arith, Bool-cases,
}
use todb.Bytes.{Bytes}
use todb.Iterators.Traits.{Iter, Scans, skip_to, head_key, head_value}
use todb.Iterators.Drain.{scan_all, scan_from, scan_all_lem, scan_from_lem}
use todb.Iterators.Concat.{
  ConcatIter, valid, key, value, walk, walked, seek_to_first, seek, next, concat_iter,
}

add_one : (n : ℕ) → n + 1 ≡ suc n
add_one n = omega arith

module _ {I V : Type 0} (ops : Iter I V) (ahead : Bytes → Bytes → Bool) where
  -- an iterator's entries, and that it scans them
  abbrev pub Part : Type 1
  Part = (l : List (Bytes × V)) × Scans ops ahead l

  unfoldable pub concat : List Part → List (Bytes × V)
  concat [] = []
  concat (p ∷ ps) = p.0 ++ concat ps

  -- each iterator may be sought in
  unfoldable pub AllGood : List I → List Part → Type 0
  AllGood [] [] = Unit
  AllGood [] (p ∷ ps) = ⊥
  AllGood (x ∷ xs) [] = ⊥
  AllGood (x ∷ xs) (p ∷ ps) = p.1.Good x × AllGood xs ps

  -- at `n`, with `zs` ahead: the iterator there is valid, or all are behind
  AtIndex : List I → List Part → ℕ → List (Bytes × V) → Type 0
  AtIndex [] [] n zs = (n ≡ 0) × (zs ≡ [])
  AtIndex [] (p ∷ ps) n zs = ⊥
  AtIndex (x ∷ xs) [] n zs = ⊥
  AtIndex (x ∷ xs) (p ∷ ps) zero zs =
      (ys : List (Bytes × V)) × p.1.At x ys
      × (is_empty ys ≡ false)
      × AllGood xs ps
      × (zs ≡ ys ++ concat ps)
  AtIndex (x ∷ xs) (p ∷ ps) (suc n) zs = p.1.Good x × AtIndex xs ps n zs

  AtIndex-AllGood :
      (xs : List I) (ps : List Part) (n : ℕ) (zs : List (Bytes × V))
      → AtIndex xs ps n zs
      → AllGood xs ps
  unfolding AtIndex AllGood
  AtIndex-AllGood [] [] n zs a = tt
  AtIndex-AllGood [] (p ∷ ps) n zs a = a
  AtIndex-AllGood (x ∷ xs) [] n zs a = a
  AtIndex-AllGood (x ∷ xs) (p ∷ ps) zero zs (ys, at, ne, g, e) = (p.1.good x ys at, g)
  AtIndex-AllGood (x ∷ xs) (p ∷ ps) (suc n) zs (g, a) = (g, AtIndex-AllGood xs ps n zs a)

  -- the first list that `f` leaves something of, with all lists behind it
  from_first : (List (Bytes × V) → List (Bytes × V)) → List Part → List (Bytes × V)
  from_first f [] = []
  from_first f (p ∷ ps) = elim (is_empty (f p.0)) [
    | true ↦ from_first f ps
    | false ↦ f p.0 ++ concat ps
  ]

  empty_nil : {A : Type 0} (l : List A) → is_empty l ≡ true → l ≡ []
  empty_nil [] e = refl
  empty_nil (x ∷ l) e = cc e

  from_first-all : (ps : List Part) → from_first (λ l. l) ps ≡ concat ps
  unfolding from_first concat
  from_first-all [] = refl
  from_first-all (p ∷ ps) = elim (Bool-cases (is_empty p.0)) [
    | inl t ↦
        rw (t, from_first)
          (from_first-all ps
            ∙ ap (λ (l : List (Bytes × V)). l ++ concat ps) (sym (empty_nil p.0 t)))
    | inr f ↦ rw (f, from_first) refl
  ]

  skip_to-append_empty :
      (target : Bytes) (l r : List (Bytes × V))
      → is_empty (skip_to ahead target l) ≡ true
      → skip_to ahead target (l ++ r) ≡ skip_to ahead target r
  unfolding skip_to
  skip_to-append_empty target [] r e = refl
  skip_to-append_empty target (x ∷ l) r e = elim (Bool-cases (ahead x.0 target)) [
    | inl t ↦ rw (t, skip_to) (skip_to-append_empty target l r (rw (t, skip_to) at e))
    | inr f ↦ cc (rw (f, skip_to) at e)
  ]

  skip_to-append_some :
      (target : Bytes) (l r : List (Bytes × V))
      → is_empty (skip_to ahead target l) ≡ false
      → skip_to ahead target (l ++ r) ≡ skip_to ahead target l ++ r
  unfolding skip_to
  skip_to-append_some target [] r e = cc e
  skip_to-append_some target (x ∷ l) r e = elim (Bool-cases (ahead x.0 target)) [
    | inl t ↦ ground (arith, t, e, skip_to-append_some target l r)
    | inr f ↦ ground (arith, f)
  ]

  from_first-skip_to :
      (target : Bytes) (ps : List Part)
      → from_first (skip_to ahead target) ps ≡ skip_to ahead target (concat ps)
  unfolding from_first concat
  from_first-skip_to target [] = unfold skip_to in refl
  from_first-skip_to target (p ∷ ps) = elim (Bool-cases (is_empty (skip_to ahead target p.0))) [
    | inl t ↦
        rw (t, from_first)
          (from_first-skip_to target ps ∙ sym (skip_to-append_empty target p.0 (concat ps) t))
    | inr f ↦ rw (f, from_first) (sym (skip_to-append_some target p.0 (concat ps) f))
  ]

  -- the loop from the first iterator on
  walk_lem :
      (step : I → Run I) (f : List (Bytes × V) → List (Bytes × V))
      → ((p : Part) (x : I) → p.1.Good x → (t : I) × (step x ≡ ok t) × p.1.At t (f p.0))
      → (xs : List I) (ps : List Part) → AllGood xs ps
      → (ys : List I) × (n : ℕ) × (walk ops step 0 xs ≡ ok (ys, n))
        × AtIndex ys ps n (from_first f ps)
  unfolding walk AllGood AtIndex from_first
  walk_lem step f steps [] [] g = ([], 0, refl, (refl, refl))
  walk_lem step f steps [] (p ∷ ps) g = absurd g
  walk_lem step f steps (x ∷ xs) [] g = absurd g
  walk_lem step f steps (x ∷ xs) (p ∷ ps) g =
      let (t, e, at) = steps p x g.0 in
      elim (Bool-cases (is_empty (f p.0))) [
        | inl none_left ↦
            let (ys, n, w, a) = walk_lem step f steps xs ps g.1 in
            (
              t ∷ ys,
              suc n,
              rw (e, p.1.valid_at t (f p.0) at, none_left, w) refl,
              rw (none_left, from_first) (p.1.good t (f p.0) at, a),
            )
        | inr some_left ↦ (
          t ∷ xs,
          0,
          rw (e, p.1.valid_at t (f p.0) at, some_left) refl,
          rw (some_left, from_first) (f p.0, at, some_left, g.1, refl),
        )
      ]

  -- what stands at `curr`
  Current : List I → ℕ → List (Bytes × V) → Type 0
  Current xs n zs =
      ((get_elem? xs n ≡ none) × (zs ≡ []))
      ⊎ ((x : I) × (get_elem? xs n ≡ some x)
          × (ops.valid x ≡ true)
          × (is_empty zs ≡ false)
          × (ops.key x ≡ ok (head_key zs))
          × (ops.value x ≡ ok (head_value zs)))

  current_lem :
      (xs : List I) (ps : List Part) (n : ℕ) (zs : List (Bytes × V))
      → AtIndex xs ps n zs
      → Current xs n zs
  unfolding AtIndex Current
  current_lem [] [] n zs (e, z) = inl (refl, z)
  current_lem [] (p ∷ ps) n zs a = absurd a
  current_lem (x ∷ xs) [] n zs a = absurd a
  current_lem (x ∷ xs) (p ∷ ps) zero zs ([], at, ne, g, e) = cc ne
  current_lem (x ∷ xs) (p ∷ ps) zero zs (y ∷ ys, at, ne, g, e) = rw e (
      inr (
        x,
        refl,
        p.1.valid_at x (y ∷ ys) at,
        refl,
        p.1.key_at x (y ∷ ys) at,
        p.1.value_at x (y ∷ ys) at,
      ))
  current_lem (x ∷ xs) (p ∷ ps) (suc n) zs (g, a) = current_lem xs ps n zs a

  -- what a step from `curr` does: it stays at the iterator, or walks on from the one behind
  Stepped : List I → List Part → ℕ → List (Bytes × V) → Type 0
  Stepped xs ps n zs =
      (x y : I) × (get_elem? xs n ≡ some x)
      × (ops.next x ≡ ok y)
      × (((ops.valid y ≡ true) × AtIndex (set xs n y) ps n (tail zs))
          ⊎ ((ops.valid y ≡ false)
              × ((ys : List I) × (m : ℕ) × (walk ops ops.seek_to_first (suc n) (set xs n y)
                    ≡ ok (ys, m))
                  × AtIndex ys ps m (tail zs))))

  step_lem :
      (xs : List I) (ps : List Part) (n : ℕ) (zs : List (Bytes × V))
      → AtIndex xs ps n zs
      → is_empty zs ≡ false
      → Stepped xs ps n zs
  unfolding Stepped AtIndex walk
  step_lem [] [] n zs (e, z) ne = cc (ne, ap is_empty z)
  step_lem [] (p ∷ ps) n zs a ne = absurd a
  step_lem (x ∷ xs) [] n zs a ne = absurd a
  step_lem (x ∷ xs) (p ∷ ps) zero zs ([], at, some_left, g, e) ne = cc some_left
  step_lem (x ∷ xs) (p ∷ ps) zero zs (v ∷ ys, at, some_left, g, e) ne =
      let (y, moved, now) = p.1.next_at x (v ∷ ys) at in
      elim (Bool-cases (is_empty ys)) [
        | inr more ↦ (
          x,
          y,
          refl,
          moved,
          inl (p.1.valid_at y ys now ∙ ap not more, (ys, now, more, g, ap tail e)),
        )
        | inl ended ↦
            let (after, m, w, a) =
              walk_lem ops.seek_to_first (λ l. l) (λ q z. q.1.first_at z) xs ps g in
            let rest : tail zs ≡ from_first (λ l. l) ps =
              ap tail e
              ∙ ap (λ (l : List (Bytes × V)). l ++ concat ps) (empty_nil ys ended)
              ∙ sym (from_first-all ps) in
            (
              x,
              y,
              refl,
              moved,
              inr (
                p.1.valid_at y ys now ∙ ap not ended,
                (y ∷ after, suc m, rw w refl, (p.1.good y ys now, rw rest a)),
              ),
            )
      ]
  step_lem (x ∷ xs) (p ∷ ps) (suc n) zs (g, a) ne =
      let (c, y, here, moved, rest) = step_lem xs ps n zs a ne in
      (
        c,
        y,
        here,
        moved,
        elim rest [
          | inl (v, at) ↦ inl (v, (g, at))
          | inr (v, (ys, m, w, at)) ↦ inr (v, (x ∷ ys, suc m, rw w refl, (g, at)))
        ],
      )

  module _ (ps : List Part) where
    -- the state of a `ConcatIter` with `zs` ahead
    abbrev ConcatAt : ConcatIter I → List (Bytes × V) → Type 0
    ConcatAt c zs = AtIndex c.iter ps c.curr zs

    read_lem :
        (c : ConcatIter I) (zs : List (Bytes × V))
        → ConcatAt c zs
        → (valid ops c ≡ not (is_empty zs))
          × (key ops c ≡ ok (head_key zs))
          × (value ops c ≡ ok (head_value zs))
    unfolding valid key value Current
    read_lem c zs a = elim (current_lem c.iter ps c.curr zs a) [
      | inl (e, z) ↦
          let ended : valid ops c ≡ false = rw (e, valid) refl in
          rw z (ended, rw (ended, key) refl, rw (ended, value) refl)
      | inr (x, e, v, ne, k, w) ↦
          let there : valid ops c ≡ true = rw (e, valid) v in
          (
            there ∙ sym (ap not ne),
            rw (there, key) (rw (e, ◌>>=◌) k),
            rw (there, value) (rw (e, ◌>>=◌) w),
          )
    ]

    walked_lem :
        (step : I → Run I) (f : List (Bytes × V) → List (Bytes × V)) (zs : List (Bytes × V))
        → ((p : Part) (x : I) → p.1.Good x → (t : I) × (step x ≡ ok t) × p.1.At t (f p.0))
        → from_first f ps ≡ zs
        → (xs : List I) → AllGood xs ps
        → (t : ConcatIter I) × (walked ops (walk ops step 0 xs) ≡ ok t) × ConcatAt t zs
    walked_lem step f zs steps same xs g =
        let (ys, n, w, a) = walk_lem step f steps xs ps g in
        (record { iter = ys; curr = n }, rw w refl, rw (← same) a)

    next_lem :
        (c : ConcatIter I) (zs : List (Bytes × V))
        → ConcatAt c zs
        → (t : ConcatIter I) × (next ops c ≡ ok t) × ConcatAt t (tail zs)
    unfolding next Stepped
    next_lem c zs a = elim (Bool-cases (is_empty zs)) [
      | inl ended ↦ (
        c,
        rw ((read_lem c zs a).0 ∙ ap not ended, next) refl,
        rw (ap tail (empty_nil zs ended)) (rw (empty_nil zs ended) at a),
      )
      | inr more ↦
          let (x, y, here, moved, rest) = step_lem c.iter ps c.curr zs a more in
          elim rest [
            | inl (v, at) ↦ (
              record { iter = set c.iter c.curr y; curr = c.curr },
              rw ((read_lem c zs a).0 ∙ ap not more, next)
                  (rw (here, ◌>>=◌) (rw (moved, ◌>>=◌) (rw v refl))),
              at,
            )
            | inr (v, (ys, m, w, at)) ↦ (
              record { iter = ys; curr = m },
              rw ((read_lem c zs a).0 ∙ ap not more, next)
                  (rw (here, ◌>>=◌)
                    (rw (moved, ◌>>=◌) (rw (v, add_one c.curr) (rw (w, ◌>>=◌) refl)))),
              at,
            )
          ]
    ]

    -- over iterators that scan the parts, a `ConcatIter` scans all of them, one after the other
    pub concat_iter-Scans : Scans (concat_iter ops) ahead (concat ps)
    unfolding seek_to_first seek
    concat_iter-Scans = record {
      Good = λ c. AllGood c.iter ps;
      At = ConcatAt;
      good = λ c zs a. AtIndex-AllGood c.iter ps c.curr zs a;
      valid_at = λ c zs a. (read_lem c zs a).0;
      key_at = λ c zs a. (read_lem c zs a).1;
      value_at = λ c zs a. (read_lem c zs a).2;
      first_at = λ c g.
          walked_lem ops.seek_to_first (λ l. l) (concat ps) (λ q z. q.1.first_at z)
            (from_first-all ps) c.iter g;
      seek_at = λ c target g.
          walked_lem (λ x. ops.seek x target) (skip_to ahead target)
            (skip_to ahead target (concat ps)) (λ q z. q.1.seek_at z target)
            (from_first-skip_to target ps) c.iter g;
      next_at = next_lem;
    }

    pub concat_iter-Good : (c : ConcatIter I) → AllGood c.iter ps → concat_iter-Scans.Good c
    unfolding concat_iter-Scans
    concat_iter-Good c g = g

    -- A `ConcatIter` over iterators that each keep the promises of `Scans` reads all their entries
    -- in the order of the iterators, empty ones included, and after a seek exactly those from the
    -- first that is not ahead of the target on. The client has a round per entry.
    pub concat_iter-scan :
        (c : ConcatIter I) (rounds : ℕ) (target : Bytes)
        → AllGood c.iter ps
        → length (concat ps) < rounds
        → (scan_all (concat_iter ops) rounds c ≡ ok (concat ps))
          × (scan_from (concat_iter ops) rounds target c ≡ ok (skip_to ahead target (concat ps)))
    concat_iter-scan c rounds target g enough = (
      scan_all_lem (concat_iter ops) ahead (concat ps) concat_iter-Scans rounds c
          (concat_iter-Good c g) enough,
      scan_from_lem (concat_iter ops) ahead (concat ps) concat_iter-Scans rounds target c
          (concat_iter-Good c g) enough,
    )
