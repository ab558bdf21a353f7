-- ===== src/Iterators/IndexTree/Stale.antt =====
-- What a second seek of an `IndexTreeIter` does: `reset` leaves `curr_iter_idx` at the bottom, so a
-- second descent stops at the root.
use todb.Prelude.{
  ℕ, zero, suc, ◌+◌, ◌-◌, ◌≤◌, ◌<◌, ◌≡◌, refl, inl, inr, true, false, [], ◌∷◌, get_elem?, Option,
  none, some, Run, ok, err, panic, no_fuel, unwrap, ◌>>=◌, arith, Bool-cases, leb, ltb,
  ok_injective, ltb_false→le, le→ltb_false, ltb→lt,
}
use todb.Bytes.{Bytes}
use todb.Iterators.Traits.{Iter}
use todb.Iterators.BlockIter.{NormalBlockIter}
use todb.Iterators.BlockIter.Scans.{block_forward}
use todb.Iterators.IndexEntryDecode.{index_entries}
use todb.Iterators.IndexTree.{
  LevelIter, IndexTreeIter, reset, last_index_level, load, push_iter, load_child, entries, descend,
  not_found, from_root, locate, valid, seek_to_first,
}

pub bind-ok :
    {A B : Type 0} (m : Run A) (f : A → Run B) {b : B}
    → (m >>= f) ≡ ok b
    → (a : A) × (m ≡ ok a) × (f a ≡ ok b)
bind-ok (ok a) f e = (a, refl, e)
bind-ok (err x) f e = cc e
bind-ok panic f e = cc e
bind-ok no_fuel f e = cc e

unwrap-ok : {A : Type 0} (m : Option A) {a : A} → unwrap m ≡ ok a → m ≡ some a
unwrap-ok none e = cc e
unwrap-ok (some x) e = cc e

last_index_level-ok :
    (t : IndexTreeIter) {l : ℕ} → last_index_level t ≡ ok l → l ≡ t.tree_height - 2
unfolding last_index_level
last_index_level-ok t e = ground arith

not_found-ok : (t : IndexTreeIter) {u : IndexTreeIter} → not_found t ≡ ok u → t ≡ u
unfolding not_found
not_found-ok t e = ground arith

past_one : {A : Type 0} (x : A) (i : ℕ) → 0 < i → get_elem? (x ∷ []) i ≡ none
past_one x zero h = absurd (omega arith)
past_one x (suc i) h = refl

module _ (raw : Iter NormalBlockIter Bytes) where
  invalid_level :
      (t : IndexTreeIter) (it : LevelIter)
      → get_elem? t.index_iters t.curr_iter_idx ≡ some it
      → (entries raw).valid it ≡ false
      → valid raw t ≡ false
  unfolding valid
  invalid_level t it e f = rw (e, valid) f

  -- A descent that ends on an entry has gone to the bottom.
  descend-bottom :
      (fuel : ℕ) (move : LevelIter → Run LevelIter) (t u : IndexTreeIter)
      → t.curr_iter_idx ≤ t.tree_height - 2
      → descend raw fuel move not_found t ≡ ok u
      → valid raw u ≡ true
      → (u.curr_iter_idx ≡ t.tree_height - 2) × (u.tree_height ≡ t.tree_height)
  unfolding descend push_iter
  descend-bottom zero move t u h e v = cc e
  descend-bottom (suc fuel) move t u h e v =
      let (last, el, r) = bind-ok (last_index_level t) _ e in
      let bottom = last_index_level-ok t el in
      elim (Bool-cases (ltb t.curr_iter_idx last)) [
        | inr f ↦
            let same : t ≡ u = ok_injective (rw f at r) in
            (rw (← same) (omega (arith, ltb_false→le t.curr_iter_idx last f)), rw (← same) refl)
        | inl below ↦
            let (it, found, s) =
              bind-ok (unwrap (get_elem? t.index_iters t.curr_iter_idx)) _ (rw below at r) in
            elim (Bool-cases ((entries raw).valid it)) [
              | inr f ↦
                  let same : t ≡ u = not_found-ok t (rw f at s) in
                  cc (
                    invalid_level t it (unwrap-ok (get_elem? t.index_iters t.curr_iter_idx) found)
                        f,
                    same,
                    v,
                  )
              | inl g ↦
                  let (child, loaded, d) = bind-ok (load_child raw t move it) _ (rw g at s) in
                  descend-bottom fuel move
                    (record (push_iter t child) { curr_iter_idx = t.curr_iter_idx + 1 }) u
                    (omega (arith, ltb→lt t.curr_iter_idx last below)) d v
            ]
      ]

  descend-at_bottom :
      (fuel : ℕ) (move : LevelIter → Run LevelIter) (stuck : IndexTreeIter → Run IndexTreeIter)
      (t u : IndexTreeIter)
      → t.curr_iter_idx ≡ t.tree_height - 2
      → descend raw fuel move stuck t ≡ ok u
      → t ≡ u
  unfolding descend
  descend-at_bottom zero move stuck t u c e = cc e
  descend-at_bottom (suc fuel) move stuck t u c e =
      let (last, el, r) = bind-ok (last_index_level t) _ e in
      let there : ltb t.curr_iter_idx last ≡ false =
        le→ltb_false t.curr_iter_idx last (omega (arith, last_index_level-ok t el)) in
      ok_injective (rw there at r)

  below_root :
      (s : IndexTreeIter) (root : LevelIter)
      → s.index_iters ≡ root ∷ []
      → 0 < s.curr_iter_idx
      → valid raw s ≡ false
  unfolding valid
  below_root s root e h =
      let nothing : get_elem? s.index_iters s.curr_iter_idx ≡ none =
        rw e (past_one root s.curr_iter_idx h) in
      rw (nothing, valid) refl

  -- A descent from the root that starts at the bottom leaves the iterator without an entry.
  from_root-stale :
      (move : LevelIter → Run LevelIter) (stuck : IndexTreeIter → Run IndexTreeIter)
      (t u : IndexTreeIter)
      → 2 < t.tree_height
      → t.curr_iter_idx ≡ t.tree_height - 2
      → from_root raw move stuck t ≡ ok u
      → valid raw u ≡ false
  unfolding from_root reset push_iter
  from_root-stale move stuck t u h c e =
      let tall : leb t.tree_height 1 ≡ false = ground arith in
      let (root, loaded, d) =
        bind-ok (load (reset t) move t.root_position) _ (rw (tall, from_root) at e) in
      let stays = push_iter (reset t) root in
      let same : stays ≡ u = descend-at_bottom t.tree_height move stuck stays u c d in
      rw (← same) (below_root stays root refl (omega (arith, c)))

  -- a seek that has found an entry ends at the bottom
  pub locate-bottom :
      (t u : IndexTreeIter) (target : Bytes)
      → t.curr_iter_idx ≡ 0
      → 2 < t.tree_height
      → locate raw t target ≡ ok u
      → valid raw u ≡ true
      → (u.curr_iter_idx ≡ u.tree_height - 2) × (2 < u.tree_height)
  unfolding locate reset push_iter from_root
  locate-bottom t u target c h e f =
      let tall : leb t.tree_height 1 ≡ false = ground arith in
      let lower : LevelIter → Run LevelIter = λ it. (index_entries block_forward).seek it target in
      let located : from_root raw lower not_found t ≡ ok u = e in
      let (root, loaded, d) =
        bind-ok (load (reset t) lower t.root_position) _ (rw (tall, from_root) at located) in
      let (bottom, height) =
        descend-bottom t.tree_height lower (push_iter (reset t) root) u (omega arith) d f in
      (omega arith, omega arith)

  pub locate-stale :
      (t u : IndexTreeIter) (target : Bytes)
      → 2 < t.tree_height
      → t.curr_iter_idx ≡ t.tree_height - 2
      → locate raw t target ≡ ok u
      → valid raw u ≡ false
  unfolding locate
  locate-stale t u target h c e = from_root-stale _ not_found t u h c e

  -- An index of three levels or more in which a seek has found an entry loses its entries: the next
  -- seek that returns, to whatever target, and the next seek to the first entry (the last one, in
  -- the reverse direction), leave the iterator without a current entry.
  pub second_seek-loses :
      (t u v w : IndexTreeIter) (target target' : Bytes)
      → t.curr_iter_idx ≡ 0
      → 2 < t.tree_height
      → locate raw t target ≡ ok u
      → valid raw u ≡ true
      → locate raw u target' ≡ ok v
      → seek_to_first raw u ≡ ok w
      → (valid raw v ≡ false) × (valid raw w ≡ false)
  unfolding seek_to_first
  second_seek-loses t u v w target target' c h e f g k =
      let (bottom, tall) = locate-bottom t u target c h e f in
      (
        locate-stale u v target' tall bottom g,
        from_root-stale (entries raw).seek_to_first _ u w tall bottom k,
      )
