-- ===== src/Lsm/Read/Sides.antt =====
-- The sides of the merged iterator: sides without SSTs, and two-way merges that turn around.
use todb.Prelude.{ℕ, ◌<◌, ◌≡◌, refl, List, [], length, none, ok}
use todb.Bytes.{Bytes}
use todb.Iterators.Traits.{Iter, Scans, InOrder}
use todb.Iterators.TwoMerge.{TwoMergeIter, two_merge, settle}
use todb.Iterators.TwoMerge
use todb.Iterators.TwoMerge.Merged.{merge}
use todb.Iterators.TwoMerge.Scans.{two_merge-Scans, two_merge-Good, two_merge-Good_sides}
use todb.Iterators.Merge.{MergeIter, Direction, forward_scan, reverse_scan, order_of, merge_iter}
use todb.Iterators.Merge
use todb.Iterators.Merge.Merged.{merge_all}
use todb.Iterators.Merge.Scans.{merge_iter-Scans, merge_iter-turn}
use todb.Iterators.Merge.Clients.{new-Good}
use todb.Lsm.Read.Memtables.{nowhere, none-Scans, order_laws}

-- a merge of no iterators scans nothing
module _ {I V : Type 0} (ops : Iter I V) (d : Direction) where
  pub no_scans : Scans (merge_iter ops d) (order_of d) (merge_all (order_of d) [])
  no_scans = merge_iter-Scans ops d (order_laws d) [] (λ i. none-Scans ops (order_of d))

  pub no_iters-Good : no_scans.Good (Merge.new [])
  unfolding no_scans
  no_iters-Good =
      new-Good ops d (order_laws d) [] (λ i. none-Scans ops (order_of d)) [] refl (λ i x e. cc e)

-- and may be sought in both directions
module _ {I V : Type 0} (ops opsd : Iter I V) (d : Direction) where
  pub no_turn : (s : MergeIter I) → (no_scans ops forward_scan).Good s → (no_scans opsd d).Good s
  unfolding no_scans
  no_turn =
      merge_iter-turn ops opsd forward_scan d (order_laws forward_scan) (order_laws d) [] []
        (λ i. none-Scans ops (order_of forward_scan)) (λ i. none-Scans opsd (order_of d)) refl
        (λ i x g. absurd (nowhere ops (order_of forward_scan) x g))

-- `new` of a two-way merge puts it at the first entry of the merge
module _ {A B V : Type 0} (opsa : Iter A V) (opsb : Iter B V) (fuel : ℕ) (la lb : List (Bytes × V))
    (sa : Scans opsa (order_of forward_scan) la) (sb : Scans opsb (order_of forward_scan) lb)
    (order_b : InOrder (order_of forward_scan) lb) (enough : length lb < fuel) where
  abbrev pub both :
      Scans
        (two_merge opsa opsb (order_of forward_scan) fuel)
        (order_of forward_scan)
        (merge (order_of forward_scan) la lb)
  both =
      two_merge-Scans opsa opsb (order_of forward_scan) (order_laws forward_scan) fuel la lb sa sb
        order_b enough

  pub new_lem :
      (a : A) (b : B)
      → sa.Good a
      → sb.Good b
      → (t : TwoMergeIter A B) × (TwoMerge.new opsa opsb (order_of forward_scan) fuel a b ≡ ok t)
        × both.Good t
  unfolding TwoMerge.new TwoMerge.seek_to_first
  new_lem a b g h =
      let s : TwoMergeIter A B = record { a = a; b = b; current = none } in
      let (t, e, p) = both.first_at s (
        two_merge-Good opsa opsb (order_of forward_scan) (order_laws forward_scan) fuel la lb sa sb
          order_b enough s g h) in
      (t, e, both.good t (merge (order_of forward_scan) la lb) p)

-- a two-way merge that may be sought forwards may be sought in direction `d`, where its sides may
module _ {A B V : Type 0} (opsa opsd : Iter A V) (opsb opse : Iter B V) (d : Direction) (fuel : ℕ)
    (la ld lb le : List (Bytes × V)) (sa : Scans opsa (order_of forward_scan) la)
    (sd : Scans opsd (order_of d) ld) (sb : Scans opsb (order_of forward_scan) lb)
    (se : Scans opse (order_of d) le) (order_b : InOrder (order_of forward_scan) lb)
    (order_e : InOrder (order_of d) le) (enough : length lb < fuel)
    (enough_e : length le < fuel) where
  pub both_turn :
      ((a : A) → sa.Good a → sd.Good a)
      → ((b : B) → sb.Good b → se.Good b)
      → (s : TwoMergeIter A B) → (both opsa opsb fuel la lb sa sb order_b enough).Good s
      → (two_merge-Scans opsd opse
            (order_of d)
            (order_laws d)
            fuel
            ld
            le
            sd
            se
            order_e
            enough_e).Good
          s
  both_turn turn_a turn_b s g =
      let (h, k) =
        two_merge-Good_sides opsa opsb (order_of forward_scan) (order_laws forward_scan) fuel la lb
          sa sb order_b enough s g in
      two_merge-Good opsd opse (order_of d) (order_laws d) fuel ld le sd se order_e enough_e s
        (turn_a s.a h) (turn_b s.b k)
