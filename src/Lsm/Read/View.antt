-- ===== src/Lsm/Read/View.antt =====
-- What a client of `scan` reads from a store without SSTs.
use todb.Prelude.{ℕ, ◌≤◌, ◌<◌, ◌≡◌, refl, ◌∙◌, Bool, List, [], ◌∷◌, length, ok, ◌>>=◌, arith}
use todb.Bytes.{Bytes}
use todb.Iterators.Traits.{Scans, InOrder}
use todb.Iterators.TwoMerge.Merged.{merge}
use todb.Iterators.TwoMerge.Scans.{two_merge-Scans}
use todb.Iterators.TwoMerge.Priority.{InOrder-merge}
use todb.Iterators.TwoMerge.Versions.{
  versions, prefer-nil, versions_by_level, versions-merge, versions-merge_all,
}
use todb.Iterators.TwoMerge.Clients.{length-merge}
use todb.Iterators.Merge.{MergeIter, Direction, forward_scan, reverse_scan, order_of, merge_iter}
use todb.Iterators.Merge
use todb.Iterators.Merge.Merged.{merge_all, total_length, length-merge_all, InOrder-merge_all}
use todb.Iterators.Merge.Scans.{merge_iter-Scans, merge_iter-turn}
use todb.Iterators.Merge.Clients.{new-Good}
use todb.Iterators.DataEntryDecode.{EntryValue}
use todb.Memtable.SkipList.{SkipMap, Laws}
use todb.Memtable.{MemTable}
use todb.Lsm.State.{LsmState}
use todb.Lsm.Disk.{DiskManager}
use todb.Lsm.Range.{Bound, collect}
use todb.Lsm.Range.Bounds.{keep, in_range}
use todb.Lsm.Range.Reads.{scan_range}
use todb.Lsm.Read.{
  mem_rows, mem_side, mem_iters, sst_iter, level_iter, l0_side, ln_side, sst_side, SstSide, MemSide,
  MergedIter, merged_iter, l0_iters, ln_iters, start_of, stop_of, direction_of, build_merged_iter,
  scan,
}
use todb.Lsm.Read.Memtables.{
  order_laws, mem_values, mem_scans, length-mem_iters, mem_scans-Good, mem_values-AllInOrder,
  mem_turn, length-mem_values,
}
use todb.Lsm.Read.Sides.{no_scans, no_iters-Good, no_turn, new_lem, both_turn}

-- `fuel` is enough for the memtables `ts`
module _ {M : Type 0} (sm : SkipMap M) (laws : Laws sm) (fuel : ℕ) (ts : List (MemTable M)) where
  mem_all : Direction → List (Bytes × EntryValue)
  mem_all d = merge_all (order_of d) (mem_values sm laws d ts)

  sst_all : Direction → List (Bytes × EntryValue)
  sst_all d = merge (order_of d) (merge_all (order_of d) []) (merge_all (order_of d) [])

  all_rows : Direction → List (Bytes × EntryValue)
  all_rows d = merge (order_of d) (mem_all d) (sst_all d)

  mem_all-Scans : (d : Direction) → Scans (mem_side sm d) (order_of d) (mem_all d)
  unfolding mem_all
  mem_all-Scans d =
      merge_iter-Scans (mem_rows sm d) d (order_laws d) (mem_values sm laws d ts)
        (mem_scans sm laws d ts)

  mem_all-InOrder : (d : Direction) → InOrder (order_of d) (mem_all d)
  unfolding mem_all
  mem_all-InOrder d =
      InOrder-merge_all (order_of d) (order_laws d) (mem_values sm laws d ts)
        (mem_values-AllInOrder sm laws d ts)

  nothing-InOrder :
      (d : Direction) → InOrder {V = EntryValue} (order_of d) (merge_all (order_of d) [])
  nothing-InOrder d = InOrder-merge_all (order_of d) (order_laws d) [] tt

  sst_all-InOrder : (d : Direction) → InOrder (order_of d) (sst_all d)
  unfolding sst_all
  sst_all-InOrder d =
      InOrder-merge (order_of d) (order_laws d) (merge_all (order_of d) [])
        (merge_all (order_of d) []) (nothing-InOrder d) (nothing-InOrder d)

  length-sst_all : (d : Direction) → length (sst_all d) ≡ 0
  unfolding sst_all merge_all merge
  length-sst_all d = refl

  module _ (enough : 0 < fuel) where
    nothing-short :
        (d : Direction) → length {A = Bytes × EntryValue} (merge_all (order_of d) []) < fuel
    unfolding merge_all
    nothing-short d = enough

    sst-short : (d : Direction) → length (sst_all d) < fuel
    sst-short d = omega (arith, enough, length-sst_all d)

    sst_all-Scans : (d : Direction) → Scans (sst_side d fuel) (order_of d) (sst_all d)
    unfolding sst_all
    sst_all-Scans d =
        two_merge-Scans (l0_side d) (ln_side d) (order_of d) (order_laws d) fuel
          (merge_all (order_of d) []) (merge_all (order_of d) []) (no_scans (sst_iter d) d)
          (no_scans (level_iter d) d) (nothing-InOrder d) (nothing-short d)

    all-Scans : (d : Direction) → Scans (merged_iter sm d fuel) (order_of d) (all_rows d)
    unfolding all_rows
    all-Scans d =
        two_merge-Scans (mem_side sm d) (sst_side d fuel) (order_of d) (order_laws d) fuel
          (mem_all d) (sst_all d) (mem_all-Scans d) (sst_all-Scans d) (sst_all-InOrder d)
          (sst-short d)

    mem_side_turn :
        (d : Direction) (s : MemSide sm)
        → (mem_all-Scans forward_scan).Good s
        → (mem_all-Scans d).Good s
    unfolding mem_all-Scans mem_all
    mem_side_turn d =
        merge_iter-turn (mem_rows sm forward_scan) (mem_rows sm d) forward_scan d
          (order_laws forward_scan) (order_laws d) (mem_values sm laws forward_scan ts)
          (mem_values sm laws d ts) (mem_scans sm laws forward_scan ts) (mem_scans sm laws d ts)
          (length-mem_values sm laws d ts) (mem_turn sm laws d ts)

    sst_turn :
        (d : Direction) (s : SstSide)
        → (sst_all-Scans forward_scan).Good s
        → (sst_all-Scans d).Good s
    unfolding sst_all-Scans sst_all
    sst_turn d =
        both_turn (l0_side forward_scan) (l0_side d) (ln_side forward_scan) (ln_side d) d fuel
          (merge_all (order_of forward_scan) []) (merge_all (order_of d) [])
          (merge_all (order_of forward_scan) []) (merge_all (order_of d) [])
          (no_scans (sst_iter forward_scan) forward_scan) (no_scans (sst_iter d) d)
          (no_scans (level_iter forward_scan) forward_scan) (no_scans (level_iter d) d)
          (nothing-InOrder forward_scan) (nothing-InOrder d) (nothing-short forward_scan)
          (nothing-short d) (no_turn (sst_iter forward_scan) (sst_iter d) d)
          (no_turn (level_iter forward_scan) (level_iter d) d)

    all_turn :
        (d : Direction) (s : MergedIter sm) → (all-Scans forward_scan).Good s → (all-Scans d).Good s
    unfolding all-Scans all_rows
    all_turn d =
        both_turn (mem_side sm forward_scan) (mem_side sm d) (sst_side forward_scan fuel)
          (sst_side d fuel) d fuel (mem_all forward_scan) (mem_all d) (sst_all forward_scan)
          (sst_all d) (mem_all-Scans forward_scan) (mem_all-Scans d) (sst_all-Scans forward_scan)
          (sst_all-Scans d) (sst_all-InOrder forward_scan) (sst_all-InOrder d)
          (sst-short forward_scan) (sst-short d) (mem_side_turn d) (sst_turn d)

    build_lem :
        (disk : DiskManager) (st : LsmState M)
        → st.active_mem ∷ st.imm_memtables ≡ ts
        → st.levels ≡ []
        → (m : MergedIter sm) × (build_merged_iter sm fuel disk st ≡ ok m)
          × (all-Scans forward_scan).Good m
    unfolding build_merged_iter l0_iters ln_iters all-Scans sst_all-Scans all_rows sst_all
        mem_all-Scans mem_all
    build_lem disk st e l =
        let (sst, e1, g1) =
          new_lem (l0_side forward_scan) (ln_side forward_scan) fuel
            (merge_all (order_of forward_scan) []) (merge_all (order_of forward_scan) [])
            (no_scans (sst_iter forward_scan) forward_scan)
            (no_scans (level_iter forward_scan) forward_scan) (nothing-InOrder forward_scan)
            (nothing-short forward_scan) (Merge.new []) (Merge.new [])
            (no_iters-Good (sst_iter forward_scan) forward_scan)
            (no_iters-Good (level_iter forward_scan) forward_scan) in
        let (m, e2, g2) =
          new_lem (mem_side sm forward_scan) (sst_side forward_scan fuel) fuel
            (mem_all forward_scan) (sst_all forward_scan) (mem_all-Scans forward_scan)
            (sst_all-Scans forward_scan) (sst_all-InOrder forward_scan) (sst-short forward_scan)
            (Merge.new (mem_iters sm ts)) sst
            (new-Good (mem_rows sm forward_scan) forward_scan (order_laws forward_scan)
              (mem_values sm laws forward_scan ts) (mem_scans sm laws forward_scan ts)
              (mem_iters sm ts) (length-mem_iters sm laws forward_scan ts)
              (mem_scans-Good sm laws forward_scan ts))
            g1 in
        (m, rw e (rw (l, ◌>>=◌) (rw (e1, ◌>>=◌) e2)), g2)

  versions-all_rows :
      (d : Direction) (k : Bytes)
      → versions k (all_rows d) ≡ versions_by_level k (mem_values sm laws d ts)
  unfolding all_rows mem_all sst_all merge_all merge versions
  versions-all_rows d k =
      versions-merge (order_of d) (order_laws d) k (mem_all d) (sst_all d) (mem_all-InOrder d)
        (sst_all-InOrder d)
      ∙ prefer-nil (versions k (mem_all d))
      ∙ versions-merge_all (order_of d) (order_laws d) k (mem_values sm laws d ts)
          (mem_values-AllInOrder sm laws d ts)

  length-all_rows : (d : Direction) → length (all_rows d) ≤ total_length (mem_values sm laws d ts)
  unfolding all_rows mem_all
  length-all_rows d = omega (
    arith,
    length-merge (order_of d) (mem_all d) (sst_all d),
    length-sst_all d,
    length-merge_all (order_of d) (mem_values sm laws d ts),
  )

  all_rows-InOrder : (d : Direction) → InOrder (order_of d) (all_rows d)
  unfolding all_rows
  all_rows-InOrder d =
      InOrder-merge (order_of d) (order_laws d) (mem_all d) (sst_all d) (mem_all-InOrder d)
        (sst_all-InOrder d)

module _ {M : Type 0} (sm : SkipMap M) (laws : Laws sm) where
  -- A scan of a store that has no SSTs, in either direction, from the call of `scan` through the
  -- client's loop to its end, reads without an error or a panic exactly the entries of a list in
  -- scan order that lie within both bounds; under each key the list holds the value of every
  -- memtable that has the key, and no others, the newest memtable first. The skip list keeps the
  -- promises of `Laws`, and there is a round per entry and one more.
  pub scan-view :
      (fuel : ℕ) (disk : DiskManager) (st : LsmState M) (lower upper : Bound) (reverse : Bool)
      (k : Bytes)
      → st.levels ≡ []
      → total_length (mem_values sm laws (direction_of reverse) (st.active_mem ∷ st.imm_memtables))
        < fuel
      → (zs : List (Bytes × EntryValue)) × ((scan sm fuel disk st lower upper reverse
            >>= collect
                (merged_iter sm (direction_of reverse) fuel)
                (order_of (direction_of reverse))
                fuel)
          ≡ ok (
              keep
                (in_range
                  (order_of (direction_of reverse))
                  (start_of (direction_of reverse) lower upper)
                  (stop_of (direction_of reverse) lower upper))
                zs))
        × InOrder (order_of (direction_of reverse)) zs
        × (versions k zs
            ≡ versions_by_level k
                (mem_values sm laws (direction_of reverse) (st.active_mem ∷ st.imm_memtables)))
  unfolding scan
  scan-view fuel disk st lower upper reverse k no_ssts enough =
      let d = direction_of reverse in
      let ts = st.active_mem ∷ st.imm_memtables in
      let some_fuel : 0 < fuel = omega arith in
      let (m, e, g) = build_lem sm laws fuel ts some_fuel disk st refl no_ssts in
      (
        all_rows sm laws fuel ts d,
        rw (e, ◌>>=◌)
            (scan_range (merged_iter sm d fuel) (order_of d) (all_rows sm laws fuel ts d)
              (all-Scans sm laws fuel ts some_fuel d) (order_laws d) fuel m (start_of d lower upper)
              (stop_of d lower upper) (all_rows-InOrder sm laws fuel ts d)
              (all_turn sm laws fuel ts some_fuel d m g)
              (omega (arith, length-all_rows sm laws fuel ts d))),
        all_rows-InOrder sm laws fuel ts d,
        versions-all_rows sm laws fuel ts d k,
      )
