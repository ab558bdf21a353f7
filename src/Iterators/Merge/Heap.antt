-- ===== src/Iterators/Merge/Heap.antt =====
-- The top of the heap, and where the merge of the lists goes when the list on top loses its head.
use todb.Prelude.{
  ℕ, zero, suc, ◌+◌, ◌≤◌, ◌<◌, ◌≡◌, ◌≢◌, refl, sym, ap, ◌∙◌, inl, inr, Bool, true, false, List, [],
  ◌∷◌, ◌++◌, set, some, ok, ◌>>=◌, arith, Bool-cases, if◌then◌else◌, ◌==◌,
}
use todb.Bytes.{Bytes}
use todb.Iterators.Traits.{Iter, ScanOrder, before_trans}
use todb.Iterators.Merge.{HeapWrap, Direction, order_of, above, top}
use todb.Iterators.Merge.Merged.{
  merge_two, merge_all, nth, merge_two-behind, merge_two-before, merge_two-nil, not_ahead_back,
}

module _ (ahead : Bytes → Bytes → Bool) (ord : ScanOrder ahead) where
  pub above_trans :
      (a b c : Bytes) (i j k : ℕ)
      → above ahead a i b j ≡ true
      → above ahead b j c k ≡ true
      → above ahead a i c k ≡ true
  above_trans a b c i j k p q = elim (Bool-cases (ahead a b)) [
    | inl ab ↦ elim (Bool-cases (ahead b c)) [
      | inl bc ↦ rw (ord.trans a b c ab bc) refl
      | inr cb ↦ ground (arith, before_trans ahead ord a b c)
    ]
    | inr ba ↦
        let e : a ≡ b = ord.total a b ba (ground arith) in
        elim (Bool-cases (ahead b c)) [
          | inl bc ↦ rw (e, bc) refl
          | inr cb ↦
              let f : b ≡ c = ord.total b c cb (ground arith) in
              rw (e ∙ f) (ground (arith, ord.irrefl b, ord.irrefl a))
        ]
  ]

  pub above_total :
      (a b : Bytes) (i j : ℕ) → above ahead a i b j ≡ false → i ≢ j → above ahead b j a i ≡ true
  above_total a b i j p d =
      ground (arith, not_ahead_back ahead ord a b, not_ahead_back ahead ord b a)

  pub above_lower : (a b : Bytes) (i j : ℕ) → above ahead a i b j ≡ true → j < i → ahead a b ≡ true
  above_lower a b i j p h = ground arith

  pub above_higher : (a b : Bytes) (i j : ℕ) → above ahead a i b j ≡ true → ahead b a ≡ false
  above_higher a b i j p = ground (arith, not_ahead_back ahead ord a b)

module _ {V : Type 0} (ahead : Bytes → Bytes → Bool) where
  -- the head of a list, if it has one, is not before a key
  abbrev pub HeadFree : Bytes → List (Bytes × V) → Type 0
  HeadFree k [] = Unit
  HeadFree k (x ∷ xs) = ahead x.0 k ≡ false

  HeadFree-merge_two :
      (k : Bytes) (xs ys : List (Bytes × V))
      → HeadFree k xs
      → HeadFree k ys
      → HeadFree k (merge_two ahead xs ys)
  unfolding merge_two
  HeadFree-merge_two k [] ys p q = q
  HeadFree-merge_two k (x ∷ xs) [] p q = p
  HeadFree-merge_two k (x ∷ xs) (y ∷ ys) p q = elim (Bool-cases (ahead y.0 x.0)) [
    | inl h ↦ rw (merge_two-behind ahead x y xs ys h) q
    | inr h ↦ rw (merge_two-before ahead x y xs ys h) p
  ]

  HeadFree-merge_all :
      (k : Bytes) (xss : List (List (Bytes × V)))
      → ((j : ℕ) → HeadFree k (nth xss j))
      → HeadFree k (merge_all ahead xss)
  unfolding merge_all
  HeadFree-merge_all k [] p = tt
  HeadFree-merge_all k (xs ∷ xss) p =
      HeadFree-merge_two k xs (merge_all ahead xss) (p 0) (HeadFree-merge_all k xss λ j. p (suc j))

  merge_two-front :
      (x : Bytes × V) (xs ys : List (Bytes × V))
      → HeadFree x.0 ys
      → merge_two ahead (x ∷ xs) ys ≡ x ∷ merge_two ahead xs ys
  merge_two-front x xs [] p =
      merge_two-nil ahead (x ∷ xs) ∙ ap (◌∷◌ x) (sym (merge_two-nil ahead xs))
  merge_two-front x xs (y ∷ ys) p = merge_two-before ahead x y xs ys p

  -- all of a list, if it has a head, stands behind a key
  abbrev pub HeadAfter : Bytes → List (Bytes × V) → Type 0
  HeadAfter k [] = Unit
  HeadAfter k (x ∷ xs) = ahead k x.0 ≡ true

  merge_two-later :
      (x : Bytes × V) (xs ys : List (Bytes × V))
      → HeadAfter x.0 ys
      → merge_two ahead ys (x ∷ xs) ≡ x ∷ merge_two ahead ys xs
  unfolding merge_two
  merge_two-later x xs [] p = refl
  merge_two-later x xs (y ∷ ys) p = merge_two-behind ahead y x ys xs p

  -- The merge begins with the head of the list that leads all others.
  pub merge_all-advance :
      (xss : List (List (Bytes × V))) (i : ℕ) (x : Bytes × V) (xs : List (Bytes × V))
      → nth xss i ≡ x ∷ xs
      → ((j : ℕ) → j < i → HeadAfter x.0 (nth xss j))
      → ((j : ℕ) → i < j → HeadFree x.0 (nth xss j))
      → merge_all ahead xss ≡ x ∷ merge_all ahead (set xss i xs)
  unfolding merge_all
  merge_all-advance [] i x xs e low high = cc e
  merge_all-advance (ys ∷ xss) zero x xs e low high =
      ap (λ (l : List (Bytes × V)). merge_two ahead l (merge_all ahead xss)) e
      ∙ merge_two-front x xs (merge_all ahead xss)
          (HeadFree-merge_all x.0 xss λ j. high (suc j) (omega arith))
  merge_all-advance (ys ∷ xss) (suc i) x xs e low high =
      ap (merge_two ahead ys) (
        merge_all-advance xss i x xs e (λ j h. low (suc j) (omega arith))
          λ j h. high (suc j) (omega arith))
      ∙ merge_two-later x (merge_all ahead (set xss i xs)) ys (low 0 (omega arith))

module _ {I : Type 0} where
  -- all wrappers of a list
  abbrev pub Each : (HeapWrap I → Type 0) → List (HeapWrap I) → Type 0
  Each P [] = Unit
  Each P (w ∷ ws) = P w × Each P ws

  -- how many wrappers have a level
  abbrev pub count : ℕ → List (HeapWrap I) → ℕ
  count i [] = 0
  count i (w ∷ ws) = (if w.level == i then 1 else 0) + count i ws

  -- `Picks t rest ws`: `rest` is `ws` without one place of `t`
  pub data Picks (t : HeapWrap I) : List (HeapWrap I) → List (HeapWrap I) → Type 0 where
    here : {ws : List (HeapWrap I)} → Picks t ws (t ∷ ws)
    there :
        {w : HeapWrap I} {rest ws : List (HeapWrap I)}
        → Picks t rest ws
        → Picks t (w ∷ rest) (w ∷ ws)

  pub Picks-Each :
      (P : HeapWrap I → Type 0) (t : HeapWrap I) {rest ws : List (HeapWrap I)}
      → Picks t rest ws
      → Each P ws
      → P t × Each P rest
  Picks-Each P t here e = e
  Picks-Each P t (there p) e = let r = Picks-Each P t p e.1 in (r.0, (e.0, r.1))

  pub Picks-count :
      (i : ℕ) (t : HeapWrap I) {rest ws : List (HeapWrap I)}
      → Picks t rest ws
      → count i ws ≡ (if t.level == i then 1 else 0) + count i rest
  Picks-count i t here = refl
  Picks-count i t (there p) = omega (arith, Picks-count i t p)

  pub count-append :
      (i : ℕ) (xs ys : List (HeapWrap I)) → count i (xs ++ ys) ≡ count i xs + count i ys
  count-append i [] ys = omega arith
  count-append i (x ∷ xs) ys = omega (arith, count-append i xs ys)

  pub Each-append :
      (P : HeapWrap I → Type 0) (xs ys : List (HeapWrap I))
      → Each P xs
      → Each P ys
      → Each P (xs ++ ys)
  Each-append P [] ys p q = q
  Each-append P (x ∷ xs) ys p q = (p.0, Each-append P xs ys p.1 q)

  -- where a level is counted there is a wrapper of it
  pub Each-count :
      (P : HeapWrap I → Type 0) (i : ℕ) (ws : List (HeapWrap I))
      → Each P ws
      → 0 < count i ws
      → (w : HeapWrap I) × (w.level ≡ i) × P w
  Each-count P i [] e h = absurd (omega arith)
  Each-count P i (w ∷ ws) e h = elim (Bool-cases (w.level == i)) [
    | inl t ↦ (w, ground arith, e.0)
    | inr f ↦ Each-count P i ws e.1 (ground arith)
  ]

  -- where it is not, all wrappers have other levels
  pub count-none : (i : ℕ) (ws : List (HeapWrap I)) → count i ws ≡ 0 → Each (λ w. w.level ≢ i) ws
  count-none i [] h = tt
  count-none i (w ∷ ws) h = (λ e. ground arith, count-none i ws (omega arith))

  pub Each-map :
      (P Q : HeapWrap I → Type 0) (ws : List (HeapWrap I))
      → ((w : HeapWrap I) → P w → Q w)
      → Each P ws
      → Each Q ws
  Each-map P Q [] f e = tt
  Each-map P Q (w ∷ ws) f e = (f w e.0, Each-map P Q ws f e.1)

  pub Each-zip :
      (P Q : HeapWrap I → Type 0) (ws : List (HeapWrap I))
      → Each P ws
      → Each Q ws
      → Each (λ w. P w × Q w) ws
  Each-zip P Q [] p q = tt
  Each-zip P Q (w ∷ ws) p q = ((p.0, q.0), Each-zip P Q ws p.1 q.1)

module _ {I V : Type 0} (ops : Iter I V) (direction : Direction)
    (ord : ScanOrder (order_of direction)) (key_of : HeapWrap I → Bytes) where
  abbrev pub KeyKnown : HeapWrap I → Type 0
  KeyKnown w = ops.key w.iter ≡ ok (some (key_of w))

  abbrev pub Under : HeapWrap I → HeapWrap I → Type 0
  Under t w = above (order_of direction) (key_of t) t.level (key_of w) w.level ≡ true

  -- one round of the search
  top-cons :
      (w t : HeapWrap I) (ws rest : List (HeapWrap I))
      → KeyKnown w
      → KeyKnown t
      → top ops direction ws ≡ ok (some (t, rest))
      → top ops direction (w ∷ ws)
        ≡ ok (
            if above (order_of direction) (key_of w) w.level (key_of t) t.level
            then some (w, ws)
            else some (t, w ∷ rest))
  unfolding top
  top-cons w t ws rest kw kt e = rw (e, ◌>>=◌) (rw (kw, ◌>>=◌) (rw (kt, ◌>>=◌) refl))

  Under-Each :
      (w t : HeapWrap I) {rest ws : List (HeapWrap I)}
      → Picks t rest ws
      → Under w t
      → Each (Under t) rest
      → Each (Under w) ws
  Under-Each w t {rest} here h u = (
    h,
    Each-map (Under t) (Under w) rest
        (λ v q.
          above_trans (order_of direction) ord (key_of w) (key_of t) (key_of v) w.level t.level
            v.level h q)
        u,
  )
  Under-Each w t (there p) h u = (
    above_trans (order_of direction) ord (key_of w) (key_of t) _ w.level t.level _ h u.0,
    Under-Each w t p h u.1,
  )

  -- The top of a heap of wrappers with known keys and different levels is above all others.
  pub top_lem :
      (w : HeapWrap I) (ws : List (HeapWrap I))
      → Each KeyKnown (w ∷ ws)
      → ((i : ℕ) → count i (w ∷ ws) ≤ 1)
      → (t : HeapWrap I) × (rest : List (HeapWrap I)) × (top ops direction (w ∷ ws)
          ≡ ok (some (t, rest)))
        × Picks t rest (w ∷ ws)
        × Each (Under t) rest
  top_lem w [] k c = (w, [], unfold top in refl, here, tt)
  top_lem w (v ∷ ws) k c =
      let (t, rest, e, p, u) = top_lem v ws k.1 (λ i. omega (arith, c i)) in
      let kt = (Picks-Each KeyKnown t p k.1).0 in
      elim (Bool-cases (above (order_of direction) (key_of w) w.level (key_of t) t.level)) [
        | inl h ↦ (
          w,
          v ∷ ws,
          top-cons w t (v ∷ ws) rest k.0 kt e ∙ (rw h refl),
          here,
          Under-Each w t p h u,
        )
        | inr h ↦ (
          t,
          w ∷ rest,
          top-cons w t (v ∷ ws) rest k.0 kt e ∙ (rw h refl),
          there p,
          (
            above_total (order_of direction) ord (key_of w) (key_of t) w.level t.level h
                (λ same. ground (arith, c t.level, Picks-count t.level t p)),
            u,
          ),
        )
      ]
