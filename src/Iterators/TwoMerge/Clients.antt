-- ===== src/Iterators/TwoMerge/Clients.antt =====
-- What the client of a `TwoMergeIter` reads.
use todb.Prelude.{ℕ, ◌+◌, ◌≤◌, ◌<◌, ◌≡◌, Bool, List, [], ◌∷◌, ok, length, arith}
use todb.Bytes.{Bytes}
use todb.Iterators.Traits.{Iter, Scans, ScanOrder, InOrder, skip_to}
use todb.Iterators.Drain.{scan_all, scan_from, scan_all_lem, scan_from_lem}
use todb.Iterators.TwoMerge.{TwoMergeIter, two_merge}
use todb.Iterators.TwoMerge.Merged.{merge}
use todb.Iterators.TwoMerge.Scans.{two_merge-Scans, two_merge-Good}
use todb.Iterators.TwoMerge.Priority.{InOrder-merge}
use todb.Iterators.TwoMerge.Versions.{versions, prefer, versions-merge}

pub length-merge :
    {V : Type 0} (ahead : Bytes → Bytes → Bool) (xs ys : List (Bytes × V))
    → length (merge ahead xs ys) ≤ length xs + length ys
unfolding merge
length-merge ahead [] ys = omega arith
length-merge ahead (x ∷ xs) [] = omega arith
length-merge ahead (x ∷ xs) (y ∷ ys) =
    ground (arith, length-merge ahead (x ∷ xs) ys, length-merge ahead xs (y ∷ ys))

-- `la` and `lb` are what the two sides scan, in an order `ahead`; `fuel` bounds the rounds of
-- `skip_b_if_equal` and `rounds` those of the client.
module _ {A B V : Type 0} (opsa : Iter A V) (opsb : Iter B V) (ahead : Bytes → Bytes → Bool)
    (ord : ScanOrder ahead) (fuel rounds : ℕ) (la lb : List (Bytes × V)) (sa : Scans opsa ahead la)
    (sb : Scans opsb ahead lb) (order_a : InOrder ahead la) (order_b : InOrder ahead lb)
    (enough : length lb < fuel) (enough_rounds : length la + length lb < rounds)
    (s : TwoMergeIter A B) (good_a : sa.Good s.a) (good_b : sb.Good s.b) where
  merges : Scans (two_merge opsa opsb ahead fuel) ahead (merge ahead la lb)
  merges = two_merge-Scans opsa opsb ahead ord fuel la lb sa sb order_b enough

  good : merges.Good s
  unfolding merges
  good = two_merge-Good opsa opsb ahead ord fuel la lb sa sb order_b enough s good_a good_b

  short : length (merge ahead la lb) < rounds
  short = omega (arith, length-merge ahead la lb)

  -- A scan of a merge iterator from its first entry ends without an error or a panic, with entries
  -- in scan order; under each key it holds all values that side A has, in their order, and where A
  -- has none all values that side B has, so the entries of B under a key of A are left out. The two sides are iterators that keep the promises of `Scans` for lists in
  -- scan order, with fuel for one round per entry.
  pub two_merge-scan_all :
      (k : Bytes)
      → (zs : List (Bytes × V)) × (scan_all (two_merge opsa opsb ahead fuel) rounds s ≡ ok zs)
        × InOrder ahead zs
        × (versions k zs ≡ prefer (versions k la) (versions k lb))
  two_merge-scan_all k = (
    merge ahead la lb,
    scan_all_lem (two_merge opsa opsb ahead fuel) ahead (merge ahead la lb) merges rounds s good
        short,
    InOrder-merge ahead ord la lb order_a order_b,
    versions-merge ahead ord k la lb order_a order_b,
  )

  -- A scan of a merge iterator from a target reads exactly the entries of the whole scan that are
  -- not ahead of the target, under the same promises of its two sides: they keep `Scans` for lists
  -- in scan order, with fuel for one round per entry.
  pub two_merge-scan_from :
      (target : Bytes)
      → (zs : List (Bytes × V)) × (scan_all (two_merge opsa opsb ahead fuel) rounds s ≡ ok zs)
        × (scan_from (two_merge opsa opsb ahead fuel) rounds target s
            ≡ ok (skip_to ahead target zs))
  two_merge-scan_from target = (
    merge ahead la lb,
    scan_all_lem (two_merge opsa opsb ahead fuel) ahead (merge ahead la lb) merges rounds s good
        short,
    scan_from_lem (two_merge opsa opsb ahead fuel) ahead (merge ahead la lb) merges rounds target s
        good short,
  )
