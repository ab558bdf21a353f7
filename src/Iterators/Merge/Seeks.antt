-- ===== src/Iterators/Merge/Seeks.antt =====
-- What lies ahead of a `MergeIter`, and that a seek gets it there.
use todb.Prelude.{
  ℕ, ◌+◌, ◌<◌, ◌≡◌, refl, ◌∙◌, inl, inr, false, List, [], ◌∷◌, map, length, Run, ok, ◌>>=◌, arith,
  Bool-cases, if◌then◌else◌, ltb, ◌==◌, is_empty, length-map,
}
use todb.Bytes.{Bytes}
use todb.Iterators.Traits.{Iter, Scans, ScanOrder, skip_to}
use todb.Iterators.Merge.{
  HeapWrap, Direction, order_of, MergeIter, step_all, actives, inactives, build_heap,
  drain_to_items, seek_to_first, seek,
}
use todb.Iterators.Merge.Merged.{merge_all, nth, skip_to-merge_all}
use todb.Iterators.Merge.Heap.{Each, count, count-append, Each-append}
use todb.Iterators.Merge.Lists.{nth-bound, nth-skip_to}

-- `lists` are what the iterators scan, by level.
module _ {I V : Type 0} (ops : Iter I V) (direction : Direction)
    (ord : ScanOrder (order_of direction)) (lists : List (List (Bytes × V)))
    (scans : (i : ℕ) → Scans ops (order_of direction) (nth lists i)) where
  abbrev pub Home : HeapWrap I → Type 0
  Home w = (scans w.level).Good w.iter

  -- an iterator at what is left of its list
  abbrev pub Placed : List (List (Bytes × V)) → HeapWrap I → Type 0
  Placed xss w = (scans w.level).At w.iter (nth xss w.level)

  abbrev pub Live : List (List (Bytes × V)) → HeapWrap I → Type 0
  Live xss w = (is_empty (nth xss w.level) ≡ false) × Placed xss w

  -- each level has one wrapper
  abbrev pub Once : List (HeapWrap I) → List (HeapWrap I) → Type 0
  Once items wraps =
      (i : ℕ) → count i wraps + count i items ≡ (if ltb i (length lists) then 1 else 0)

  pub record MergeGood (s : MergeIter I) : Type 0 where
    pub home_items : Each Home s.items
    pub home_wraps : Each Home s.heap.wraps
    pub levels : Once s.items s.heap.wraps

  pub record MergeAt (s : MergeIter I) (zs : List (Bytes × V)) : Type 0 where
    pub xss : List (List (Bytes × V))
    pub towards : s.heap.direction ≡ direction
    pub live : Each (Live xss) s.heap.wraps
    pub home : Each Home s.items
    pub once : Once s.items s.heap.wraps
    pub covers : (i : ℕ) → is_empty (nth xss i) ≡ false → 0 < count i s.heap.wraps
    pub merged : zs ≡ merge_all (order_of direction) xss

  -- the loop of a seek, whose step moves each iterator to what is left of its list
  pub step_all_lem :
      (step : I → Run I) (yss : List (List (Bytes × V)))
      → ((i : ℕ) (x : I)
          → (scans i).Good x
          → (t : I) × (step x ≡ ok t) × (scans i).At t (nth yss i))
      → (ws : List (HeapWrap I)) → Each Home ws
      → (vs : List (HeapWrap I)) × (step_all step ws ≡ ok vs)
        × Each (Placed yss) vs
        × ((i : ℕ) → count i vs ≡ count i ws)
  unfolding step_all
  step_all_lem step yss f [] g = ([], refl, tt, λ i. refl)
  step_all_lem step yss f (w ∷ ws) g =
      let (t, e, p) = f w.level w.iter g.0 in
      let (vs, k, q, c) = step_all_lem step yss f ws g.1 in
      (
        record w { iter = t } ∷ vs,
        rw (e, ◌>>=◌) (rw (k, ◌>>=◌) refl),
        (p, q),
        λ i. omega (arith, c i),
      )

  pub actives-Live :
      (yss : List (List (Bytes × V))) (ws : List (HeapWrap I))
      → Each (Placed yss) ws
      → Each (Live yss) (actives ops ws)
  unfolding actives
  actives-Live yss [] p = tt
  actives-Live yss (w ∷ ws) p =
      let v = (scans w.level).valid_at w.iter (nth yss w.level) p.0 in
      elim (Bool-cases (ops.valid w.iter)) [
        | inl t ↦ rw (t, actives) ((ground (arith, v), p.0), actives-Live yss ws p.1)
        | inr f ↦ rw (f, actives) (actives-Live yss ws p.1)
      ]

  pub inactives-Home :
      (yss : List (List (Bytes × V))) (ws : List (HeapWrap I))
      → Each (Placed yss) ws
      → Each Home (inactives ops ws)
  unfolding inactives
  inactives-Home yss [] p = tt
  inactives-Home yss (w ∷ ws) p = elim (Bool-cases (ops.valid w.iter)) [
    | inl t ↦ rw (t, inactives) (inactives-Home yss ws p.1)
    | inr f ↦
        rw (f, inactives)
          ((scans w.level).good w.iter (nth yss w.level) p.0, inactives-Home yss ws p.1)
  ]

  pub count-parts :
      (i : ℕ) (ws : List (HeapWrap I))
      → count i (actives ops ws) + count i (inactives ops ws) ≡ count i ws
  unfolding actives inactives
  count-parts i [] = omega arith
  count-parts i (w ∷ ws) = elim (Bool-cases (ops.valid w.iter)) [
    | inl t ↦ rw (t, actives, inactives) (omega (arith, count-parts i ws))
    | inr f ↦ rw (f, actives, inactives) (omega (arith, count-parts i ws))
  ]

  pub count-actives :
      (yss : List (List (Bytes × V))) (i : ℕ) (ws : List (HeapWrap I))
      → Each (Placed yss) ws
      → is_empty (nth yss i) ≡ false
      → count i (inactives ops ws) ≡ 0
  unfolding inactives
  count-actives yss i [] p h = refl
  count-actives yss i (w ∷ ws) p h =
      let v = (scans w.level).valid_at w.iter (nth yss w.level) p.0 in
      elim (Bool-cases (ops.valid w.iter)) [
        | inl t ↦ rw (t, inactives) (count-actives yss i ws p.1 h)
        | inr f ↦
            rw (f, inactives)
              (elim (Bool-cases (w.level == i)) [
                | inr d ↦ ground (arith, count-actives yss i ws p.1 h)
                | inl e ↦
                    let same : w.level ≡ i = ground arith in
                    let full : is_empty (nth yss w.level) ≡ false = rw same h in cc (v, full, f)
              ])
      ]

  -- the end of a seek
  pub build_heap_lem :
      (yss : List (List (Bytes × V))) (ws vs : List (HeapWrap I))
      → length yss ≡ length lists
      → Each (Placed yss) vs
      → ((i : ℕ) → count i vs ≡ count i ws)
      → ((i : ℕ) → count i ws ≡ (if ltb i (length lists) then 1 else 0))
      → MergeAt (build_heap ops direction vs) (merge_all (order_of direction) yss)
  unfolding build_heap
  build_heap_lem yss ws vs n p c o = record {
    xss = yss;
    towards = refl;
    live = actives-Live yss vs p;
    home = inactives-Home yss vs p;
    once = λ i. count-parts i vs ∙ c i ∙ o i;
    covers = λ i h.
        let b : i < length lists = omega (arith, nth-bound yss i h) in
        ground (arith, count-parts i vs, count-actives yss i vs p h, c i, o i);
    merged = refl;
  }

  pub drained :
      (s : MergeIter I)
      → MergeGood s
      → Each Home (drain_to_items s)
        × ((i : ℕ) → count i (drain_to_items s) ≡ (if ltb i (length lists) then 1 else 0))
  unfolding drain_to_items
  drained s g = (
    Each-append Home s.items s.heap.wraps g.home_items g.home_wraps,
    λ i. omega (arith, count-append i s.items s.heap.wraps, g.levels i),
  )

  pub first_lem :
      (s : MergeIter I)
      → MergeGood s
      → (t : MergeIter I) × (seek_to_first ops direction s ≡ ok t)
        × MergeAt t (merge_all (order_of direction) lists)
  unfolding seek_to_first
  first_lem s g =
      let (home, once) = drained s g in
      let (vs, e, p, c) =
        step_all_lem ops.seek_to_first lists (λ i x q. (scans i).first_at x q) (drain_to_items s)
          home in
      (
        build_heap ops direction vs,
        rw (e, ◌>>=◌) refl,
        build_heap_lem lists (drain_to_items s) vs refl p c once,
      )

  pub seek_lem :
      (s : MergeIter I) (target : Bytes)
      → MergeGood s
      → (t : MergeIter I) × (seek ops direction s target ≡ ok t)
        × MergeAt t (skip_to (order_of direction) target (merge_all (order_of direction) lists))
  unfolding seek
  seek_lem s target g =
      let (home, once) = drained s g in
      let yss = map (skip_to (order_of direction) target) lists in
      let (vs, e, p, c) =
        step_all_lem (λ x. ops.seek x target) yss
          (λ i x q.
            rw (nth-skip_to (order_of direction) target lists i) ((scans i).seek_at x target q))
          (drain_to_items s) home in
      (
        build_heap ops direction vs,
        rw (e, ◌>>=◌) refl,
        rw (skip_to-merge_all (order_of direction) ord target lists) (
            build_heap_lem yss (drain_to_items s) vs
              (length-map lists (skip_to (order_of direction) target)) p c once),
      )
