-- ===== src/Iterators/Sst/Stale.antt =====
-- What a second scan of a file with a tall index reads.
use todb.Prelude.{◌<◌, ◌≡◌, refl, inl, inr, true, false, none, Run, ok, Bool-cases, ok_injective}
use todb.Bytes.{Bytes}
use todb.Iterators.Traits.{Iter}
use todb.Iterators.BlockIter.{NormalBlockIter}
use todb.Iterators.IndexTree.{IndexTreeIter}
use todb.Iterators.IndexTree
use todb.Iterators.IndexTree.Stale.{bind-ok, locate-bottom, locate-stale}
use todb.Iterators.Sst.{SstIter, DataIter, enter, seek, valid, rows, load_data_block_from_index}

module _ (raw : Iter NormalBlockIter Bytes) where
  enter-index :
      (move : DataIter → Run DataIter) (s t : SstIter)
      → enter raw move s ≡ ok t
      → t.index_iter ≡ s.index_iter
  unfolding enter
  enter-index move s t e =
      let (d, l, r) = bind-ok (load_data_block_from_index raw s) _ e in
      let (m, k, q) = bind-ok (move d) _ r in rw (← ok_injective q) refl

  no_data : (s t : SstIter) → record s { data_iter = none } ≡ t → valid raw t ≡ false
  unfolding valid
  no_data s t e = rw (← e) refl

  -- a seek that finds an entry has found one in the index
  seek-index :
      (s t : SstIter) (target : Bytes)
      → seek raw s target ≡ ok t
      → valid raw t ≡ true
      → (IndexTree.locate raw s.index_iter target ≡ ok t.index_iter)
        × (IndexTree.valid raw t.index_iter ≡ true)
  unfolding seek
  seek-index s t target e v =
      let (index, l, r) = bind-ok (IndexTree.locate raw s.index_iter target) _ e in
      elim (Bool-cases (IndexTree.valid raw index)) [
        | inr f ↦
            let none_left =
              no_data (record s { index_iter = index }) t (ok_injective (rw f at r)) in
            cc (none_left, v)
        | inl g ↦
            let same =
              enter-index (λ d. (rows raw).seek d target) (record s { index_iter = index }) t
                (rw g at r) in
            rw same (l, g)
      ]

  -- A file with an index of three levels or more in which a new iterator has found an entry reads
  -- as empty from then on: the next seek of the iterator that returns, to whatever target, leaves
  -- it without a current entry.
  pub sst_second_seek-loses :
      (s t u : SstIter) (target target' : Bytes)
      → s.index_iter.curr_iter_idx ≡ 0
      → 2 < s.index_iter.tree_height
      → seek raw s target ≡ ok t
      → valid raw t ≡ true
      → seek raw t target' ≡ ok u
      → valid raw u ≡ false
  sst_second_seek-loses s t u target target' c h e v f =
      let (located, found) = seek-index s t target e v in
      let (bottom, tall) = locate-bottom raw s.index_iter t.index_iter target c h located found in
      elim (Bool-cases (valid raw u)) [
        | inr g ↦ g
        | inl g ↦
            let (again, found') = seek-index t u target' f g in
            cc (locate-stale raw t.index_iter u.index_iter target' tall bottom again, found')
      ]
