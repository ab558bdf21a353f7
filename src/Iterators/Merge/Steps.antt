-- ===== src/Iterators/Merge/Steps.antt =====
-- A step of a `MergeIter`.
use mathlib.Core.List.{tail}
use todb.Prelude.{
  ℕ, ◌<◌, ◌≡◌, ◌≢◌, ◌⊎◌, refl, sym, ap, ◌∙◌, subst, inl, inr, true, false, List, [], ◌∷◌, ◌++◌, set,
  Option, none, some, ok, ◌>>=◌, arith, Bool-cases, ◌==◌, is_empty,
}
use todb.Bytes.{Bytes}
use todb.Iterators.Traits.{Iter, Scans, ScanOrder}
use todb.Iterators.Merge.{
  HeapWrap, Direction, order_of, same_direction, MergeIter, top, advance, next,
}
use todb.Iterators.Merge.Merged.{merge_all, nth}
use todb.Iterators.Merge.Heap.{Each, count, Picks-count, count-append, Each-append, count-none}
use todb.Iterators.Merge.Lists.{nth-bound, nth-set_self, nth-set_ne}
use todb.Iterators.Merge.Seeks.{Home, Live, MergeAt}
use todb.Iterators.Merge.Front.{Peeked, peeked, no_wraps}

-- `lists` are what the iterators scan, by level.
module _ {I V : Type 0} (ops : Iter I V) (direction : Direction)
    (ord : ScanOrder (order_of direction)) (lists : List (List (Bytes × V)))
    (scans : (i : ℕ) → Scans ops (order_of direction) (nth lists i)) where
  -- the other levels stay where they are
  pub Live-set :
      (xss : List (List (Bytes × V))) (l : ℕ) (xs : List (Bytes × V)) (ws : List (HeapWrap I))
      → Each (Live ops direction ord lists scans xss) ws
      → Each (λ w. w.level ≢ l) ws
      → Each (Live ops direction ord lists scans (set xss l xs)) ws
  Live-set xss l xs [] p d = tt
  Live-set xss l xs (w ∷ ws) p d =
      let e = sym (nth-set_ne xss l w.level xs (λ same. d.0 (sym same))) in
      (
        (
          subst (λ (ys : List (Bytes × V)). is_empty ys ≡ false) e p.0.0,
          subst ((scans w.level).At w.iter) e p.0.1,
        ),
        Live-set xss l xs ws p.1 d.1,
      )

  pub same_direction_refl : (d : Direction) → same_direction d d ≡ true
  same_direction_refl Direction.forward_scan = refl
  same_direction_refl Direction.reverse_scan = refl

  pub next-popped :
      (s : MergeIter I) (popped : Option (HeapWrap I × List (HeapWrap I)))
      → s.heap.direction ≡ direction
      → top ops s.heap.direction s.heap.wraps ≡ ok popped
      → next ops direction s ≡ advance ops direction s popped
  unfolding next
  next-popped s popped d e =
      let same : same_direction s.heap.direction direction ≡ true =
        rw d (same_direction_refl direction) in
      rw (same, next) (rw (e, ◌>>=◌) refl)

  -- a step of the wrapper on top; `y` is its iterator after the step
  module _ (s : MergeIter I) (zs : List (Bytes × V))
      (m : MergeAt ops direction ord lists scans s zs)
      (p : Peeked ops direction ord lists scans s zs m.xss) (y : I)
      (stepped : ops.next p.t.iter ≡ ok y) (at_y : (scans p.t.level).At y p.xs) where
    left : List (List (Bytes × V))
    left = set m.xss p.t.level p.xs

    others : Each (λ w. w.level ≢ p.t.level) p.rest
    others =
        count-none p.t.level p.rest
          (ground (arith, m.once p.t.level, Picks-count p.t.level p.t p.picked))

    rest-Live : Each (Live ops direction ord lists scans left) p.rest
    unfolding left
    rest-Live = Live-set m.xss p.t.level p.xs p.rest p.live others

    nth-left : nth left p.t.level ≡ p.xs
    unfolding left
    nth-left = nth-set_self m.xss p.t.level p.xs (
        nth-bound m.xss p.t.level
          (subst (λ (l : List (Bytes × V)). is_empty l ≡ false) (sym p.list) refl))

    left_covers : (i : ℕ) → is_empty (nth left i) ≡ false → (p.t.level ≡ i) ⊎ (0 < count i p.rest)
    unfolding left
    left_covers i h = elim (Bool-cases (p.t.level == i)) [
      | inl e ↦ inl (ground arith)
      | inr d ↦
          let n : is_empty (nth m.xss i) ≡ false =
            subst (λ (l : List (Bytes × V)). is_empty l ≡ false)
              (nth-set_ne m.xss p.t.level i p.xs (λ e. ground arith)) h in
          inr (ground (arith, m.covers i n, Picks-count i p.t p.picked))
    ]

    tail_merged : tail zs ≡ merge_all (order_of direction) left
    unfolding left
    tail_merged = rw p.front refl

    advance-valid :
        ops.valid y ≡ true
        → (t : MergeIter I) × (advance ops direction s (some (p.t, p.rest)) ≡ ok t)
          × MergeAt ops direction ord lists scans t (tail zs)
    unfolding advance
    advance-valid v = (
      record s { heap = record s.heap { wraps = record p.t { iter = y } ∷ p.rest } },
      rw (stepped, ◌>>=◌) (rw v refl),
      record {
        xss = left;
        towards = m.towards;
        live = (
          (
            subst (λ (l : List (Bytes × V)). is_empty l ≡ false) (sym nth-left)
                (ground (arith, (scans p.t.level).valid_at y p.xs at_y, v)),
            subst ((scans p.t.level).At y) (sym nth-left) at_y,
          ),
          rest-Live,
        );
        home = m.home;
        once = λ i. omega (arith, m.once i, Picks-count i p.t p.picked);
        covers = λ i h. elim (left_covers i h) [ inl e ↦ ground arith | inr c ↦ omega arith ];
        merged = tail_merged;
      },
    )

    advance-invalid :
        ops.valid y ≡ false
        → (t : MergeIter I) × (advance ops direction s (some (p.t, p.rest)) ≡ ok t)
          × MergeAt ops direction ord lists scans t (tail zs)
    unfolding advance
    advance-invalid v = (
      record {
        items = s.items ++ record p.t { iter = y } ∷ [];
        heap = record s.heap { wraps = p.rest };
      },
      rw (stepped, ◌>>=◌) (rw v refl),
      record {
        xss = left;
        towards = m.towards;
        live = rest-Live;
        home =
            Each-append (Home ops direction ord lists scans) s.items (record p.t { iter = y } ∷ [])
              m.home ((scans p.t.level).good y p.xs at_y, tt);
        once = λ i. omega (
          arith,
          m.once i,
          Picks-count i p.t p.picked,
          count-append i s.items (record p.t { iter = y } ∷ []),
        );
        covers = λ i h. elim (left_covers i h) [
          | inr c ↦ c
          | inl e ↦
              let full : is_empty p.xs ≡ false =
                subst (λ (l : List (Bytes × V)). is_empty l ≡ false) nth-left (rw e h) in
              cc ((scans p.t.level).valid_at y p.xs at_y, v, full)
        ];
        merged = tail_merged;
      },
    )

  pub next_lem :
      (s : MergeIter I) (wraps : List (HeapWrap I)) (zs : List (Bytes × V))
      → s.heap.wraps ≡ wraps
      → MergeAt ops direction ord lists scans s zs
      → (t : MergeIter I) × (next ops direction s ≡ ok t)
        × MergeAt ops direction ord lists scans t (tail zs)
  unfolding advance
  next_lem s [] zs e m =
      let nothing = no_wraps ops direction ord lists scans s zs e m in
      (
        s,
        next-popped s none m.towards (unfold top in rw (e, top) refl),
        subst (MergeAt ops direction ord lists scans s) (nothing ∙ sym (ap tail nothing)) m,
      )
  next_lem s (w ∷ ws) zs e m =
      let p = peeked ops direction ord lists scans s w ws zs e m in
      let (y, stepped, at_y) = (scans p.t.level).next_at p.t.iter (p.x ∷ p.xs) p.at_t in
      let popped = next-popped s (some (p.t, p.rest)) m.towards p.found in
      elim (Bool-cases (ops.valid y)) [
        | inl v ↦ let (t, k, q) = advance-valid s zs m p y stepped at_y v in (t, popped ∙ k, q)
        | inr v ↦ let (t, k, q) = advance-invalid s zs m p y stepped at_y v in (t, popped ∙ k, q)
      ]
