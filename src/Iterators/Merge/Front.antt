-- ===== src/Iterators/Merge/Front.antt =====
-- The current entry of a `MergeIter`.
use todb.Prelude.{
  ℕ, ◌≤◌, ◌<◌, ◌≡◌, ◌≢◌, refl, sym, ◌∙◌, subst, true, false, not, List, [], ◌∷◌, set, Option, none,
  some, Run, ok, ◌>>=◌, arith, is_empty,
}
use todb.Bytes.{Bytes}
use todb.Iterators.Traits.{Iter, Scans, ScanOrder, head_key, head_value}
use todb.Iterators.Merge.{
  HeapWrap, Direction, order_of, MergeIter, top, above, valid, peek, key, value,
}
use todb.Iterators.Merge.Merged.{merge_all, nth}
use todb.Iterators.Merge.Heap.{
  Each, count, Picks, Picks-Each, Picks-count, Each-count, Each-map, top_lem, KeyKnown, Under,
  merge_all-advance, above_lower, above_higher,
}
use todb.Iterators.Merge.Lists.{merge_all-empty, HeadAfter-cons, HeadFree-cons, cons_of}
use todb.Iterators.Merge.Seeks.{Live, MergeAt}

-- `lists` are what the iterators scan, by level.
module _ {I V : Type 0} (ops : Iter I V) (direction : Direction)
    (ord : ScanOrder (order_of direction)) (lists : List (List (Bytes × V)))
    (scans : (i : ℕ) → Scans ops (order_of direction) (nth lists i)) where
  -- the key that a wrapper is compared by
  pub key_of : List (List (Bytes × V)) → HeapWrap I → Bytes
  key_of xss w = elim (nth xss w.level) [ [] ↦ [] | x ∷ xs ↦ x.0 ]

  pub Live-key :
      (xss : List (List (Bytes × V))) (w : HeapWrap I)
      → Live ops direction ord lists scans xss w
      → KeyKnown ops direction ord (key_of xss) w
  unfolding key_of
  Live-key xss w l = ground (arith, (scans w.level).key_at w.iter (nth xss w.level) l.1, l.0)

  -- The top of the heap holds the first entry of the merge.
  pub record Top (xss : List (List (Bytes × V))) (wraps : List (HeapWrap I)) : Type 0 where
    pub t : HeapWrap I
    pub rest : List (HeapWrap I)
    pub x : Bytes × V
    pub xs : List (Bytes × V)
    pub found : top ops direction wraps ≡ ok (some (t, rest))
    pub picked : Picks t rest wraps
    pub list : nth xss t.level ≡ x ∷ xs
    pub advanced :
        merge_all (order_of direction) xss ≡ x ∷ merge_all (order_of direction) (set xss t.level xs)

  pub leads :
      (xss : List (List (Bytes × V))) (t : HeapWrap I) (rest wraps : List (HeapWrap I)) (j : ℕ)
      → Picks t rest wraps
      → Each (Under ops direction ord (key_of xss) t) rest
      → ((i : ℕ) → is_empty (nth xss i) ≡ false → 0 < count i wraps)
      → is_empty (nth xss j) ≡ false
      → t.level ≢ j
      → (w : HeapWrap I) × (w.level ≡ j) × Under ops direction ord (key_of xss) t w
  leads xss t rest wraps j p u c h d =
      Each-count (Under ops direction ord (key_of xss) t) j rest u
        (ground (arith, c j h, Picks-count j t p))

  pub key_of-cons :
      (xss : List (List (Bytes × V))) (w : HeapWrap I) (x : Bytes × V) (xs : List (Bytes × V))
      → nth xss w.level ≡ x ∷ xs
      → key_of xss w ≡ x.0
  unfolding key_of
  key_of-cons xss w x xs e = rw (e, key_of) refl

  -- what the top has over the head of another level
  pub over :
      (xss : List (List (Bytes × V))) (t : HeapWrap I) (rest wraps : List (HeapWrap I)) (j : ℕ)
      (x y : Bytes × V) (xs ys : List (Bytes × V))
      → Picks t rest wraps
      → Each (Under ops direction ord (key_of xss) t) rest
      → ((i : ℕ) → is_empty (nth xss i) ≡ false → 0 < count i wraps)
      → nth xss t.level ≡ x ∷ xs
      → nth xss j ≡ y ∷ ys
      → t.level ≢ j
      → above (order_of direction) x.0 t.level y.0 j ≡ true
  over xss t rest wraps j x y xs ys p u c ex ey d =
      let (w, same, h) = leads xss t rest wraps j p u c (rw ey refl) d in
      let kt : key_of xss t ≡ x.0 = key_of-cons xss t x xs ex in
      let kw : key_of xss w ≡ y.0 = key_of-cons xss w y ys (rw same ey) in rw (← kt, ← kw, ← same) h

  pub Live-Top :
      (xss : List (List (Bytes × V))) (w : HeapWrap I) (ws : List (HeapWrap I))
      → Each (Live ops direction ord lists scans xss) (w ∷ ws)
      → ((i : ℕ) → count i (w ∷ ws) ≤ 1)
      → ((i : ℕ) → is_empty (nth xss i) ≡ false → 0 < count i (w ∷ ws))
      → Top xss (w ∷ ws)
  Live-Top xss w ws l o c =
      let ahead = order_of direction in
      let (t, rest, e, p, u) =
        top_lem ops direction ord (key_of xss) w ws
          (Each-map (Live ops direction ord lists scans xss)
            (KeyKnown ops direction ord (key_of xss)) (w ∷ ws) (Live-key xss) l)
          o in
      let (x, xs, ex) =
        cons_of (nth xss t.level) (Picks-Each (Live ops direction ord lists scans xss) t p l).0.0 in
      record {
        t = t;
        rest = rest;
        x = x;
        xs = xs;
        found = e;
        picked = p;
        list = ex;
        advanced =
            merge_all-advance ahead xss t.level x xs ex
              (λ j h. HeadAfter-cons ahead x.0 (nth xss j) λ y ys ey.
                above_lower ahead ord x.0 y.0 t.level j
                  (over xss t rest (w ∷ ws) j x y xs ys p u c ex ey (λ s. omega arith)) h)
              (λ j h. HeadFree-cons ahead x.0 (nth xss j) λ y ys ey.
                above_higher ahead ord x.0 y.0 t.level j
                  (over xss t rest (w ∷ ws) j x y xs ys p u c ex ey (λ s. omega arith)));
      }

  -- a heap with no wrapper stands for lists with no entry
  pub merge-done :
      (xss : List (List (Bytes × V)))
      → ((i : ℕ) → is_empty (nth xss i) ≡ false → 0 < count {I = I} i [])
      → merge_all (order_of direction) xss ≡ []
  merge-done xss c = merge_all-empty (order_of direction) xss λ i. ground (arith, c i)

  -- the top of a heap that is not empty, with what is known of its wrapper
  pub record Peeked (s : MergeIter I) (zs : List (Bytes × V)) (xss : List (List (Bytes × V)))
      : Type 0 where
    pub t : HeapWrap I
    pub rest : List (HeapWrap I)
    pub x : Bytes × V
    pub xs : List (Bytes × V)
    pub found : top ops s.heap.direction s.heap.wraps ≡ ok (some (t, rest))
    pub picked : Picks t rest s.heap.wraps
    pub list : nth xss t.level ≡ x ∷ xs
    pub at_t : (scans t.level).At t.iter (x ∷ xs)
    pub live : Each (Live ops direction ord lists scans xss) rest
    pub front : zs ≡ x ∷ merge_all (order_of direction) (set xss t.level xs)

  pub peeked :
      (s : MergeIter I) (w : HeapWrap I) (ws : List (HeapWrap I)) (zs : List (Bytes × V))
      → s.heap.wraps ≡ w ∷ ws
      → (m : MergeAt ops direction ord lists scans s zs) → Peeked s zs m.xss
  peeked s w ws zs e m =
      let top_w =
        Live-Top m.xss w ws (subst (Each (Live ops direction ord lists scans m.xss)) e m.live)
          (λ i. subst (λ (l : List (HeapWrap I)). count i l ≤ 1) e (ground (arith, m.once i)))
          (λ i h. subst (λ (l : List (HeapWrap I)). 0 < count i l) e (m.covers i h)) in
      let picked = subst (Picks top_w.t top_w.rest) (sym e) top_w.picked in
      let live = Picks-Each (Live ops direction ord lists scans m.xss) top_w.t picked m.live in
      record {
        t = top_w.t;
        rest = top_w.rest;
        x = top_w.x;
        xs = top_w.xs;
        found = cc (e, m.towards, top_w.found);
        picked = picked;
        list = top_w.list;
        at_t = subst ((scans top_w.t.level).At top_w.t.iter) top_w.list live.0.1;
        live = live.1;
        front = m.merged ∙ top_w.advanced;
      }

  pub no_wraps :
      (s : MergeIter I) (zs : List (Bytes × V))
      → s.heap.wraps ≡ []
      → MergeAt ops direction ord lists scans s zs
      → zs ≡ []
  no_wraps s zs e m =
      m.merged
      ∙ merge-done m.xss λ i h. subst (λ (l : List (HeapWrap I)). 0 < count i l) e (m.covers i h)

  pub peek-found :
      {T : Type 0} (read : I → Run (Option T)) (s : MergeIter I) (t : HeapWrap I)
      (rest : List (HeapWrap I))
      → top ops s.heap.direction s.heap.wraps ≡ ok (some (t, rest))
      → peek ops read s ≡ read t.iter
  unfolding peek
  peek-found read s t rest e = rw (e, ◌>>=◌) refl

  pub peek-none :
      {T : Type 0} (read : I → Run (Option T)) (s : MergeIter I)
      → s.heap.wraps ≡ []
      → peek ops read s ≡ ok none
  unfolding peek top
  peek-none read s e = rw (e, top) refl

  -- what the methods of `IterRead` give
  pub read_lem :
      (s : MergeIter I) (wraps : List (HeapWrap I)) (zs : List (Bytes × V))
      → s.heap.wraps ≡ wraps
      → MergeAt ops direction ord lists scans s zs
      → (valid ops direction s ≡ not (is_empty zs))
        × (key ops direction s ≡ ok (head_key zs))
        × (value ops direction s ≡ ok (head_value zs))
  unfolding valid key value
  read_lem s [] zs e m =
      rw (no_wraps s zs e m) (rw (e, valid) refl, peek-none ops.key s e, peek-none ops.value s e)
  read_lem s (w ∷ ws) zs e m =
      let p = peeked s w ws zs e m in
      rw p.front (
        rw (e, valid) refl,
        peek-found ops.key s p.t p.rest p.found
            ∙ (scans p.t.level).key_at p.t.iter (p.x ∷ p.xs) p.at_t,
        peek-found ops.value s p.t p.rest p.found
            ∙ (scans p.t.level).value_at p.t.iter (p.x ∷ p.xs) p.at_t,
      )
