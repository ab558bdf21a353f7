-- ===== src/Iterators/Merge/Scans.antt =====
-- A `MergeIter` over iterators that scan their lists scans the merge of the lists.
use todb.Prelude.{ℕ, ◌≡◌, refl, List, length}
use todb.Bytes.{Bytes}
use todb.Iterators.Traits.{Iter, Scans, ScanOrder}
use todb.Iterators.Merge.{Direction, order_of, merge_iter, MergeIter}
use todb.Iterators.Merge.Merged.{merge_all, nth}
use todb.Iterators.Merge.Heap.{Each-map}
use todb.Iterators.Merge.Seeks.{Home, Live, MergeGood, MergeAt, first_lem, seek_lem}
use todb.Iterators.Merge.Front.{read_lem}
use todb.Iterators.Merge.Steps.{next_lem}

-- `lists` are what the iterators scan, by level.
module _ {I V : Type 0} (ops : Iter I V) (direction : Direction)
    (ord : ScanOrder (order_of direction)) (lists : List (List (Bytes × V)))
    (scans : (i : ℕ) → Scans ops (order_of direction) (nth lists i)) where
  -- A merge iterator over iterators that scan their lists, one to a level, scans the merge of the
  -- lists in every respect: no method fails, the current entry is the head of what lies ahead,
  -- `next` drops that head, and a seek skips to the target in the merge.
  pub merge_iter-Scans :
      Scans (merge_iter ops direction) (order_of direction) (merge_all (order_of direction) lists)
  merge_iter-Scans = record {
    Good = MergeGood ops direction ord lists scans;
    At = MergeAt ops direction ord lists scans;
    good = λ s zs m. record {
      home_items = m.home;
      home_wraps =
          Each-map (Live ops direction ord lists scans m.xss) (Home ops direction ord lists scans)
            s.heap.wraps (λ w l. (scans w.level).good w.iter (nth m.xss w.level) l.1) m.live;
      levels = m.once;
    };
    valid_at = λ s zs m. (read_lem ops direction ord lists scans s s.heap.wraps zs refl m).0;
    key_at = λ s zs m. (read_lem ops direction ord lists scans s s.heap.wraps zs refl m).1;
    value_at = λ s zs m. (read_lem ops direction ord lists scans s s.heap.wraps zs refl m).2;
    first_at = first_lem ops direction ord lists scans;
    seek_at = seek_lem ops direction ord lists scans;
    next_at = λ s zs m. next_lem ops direction ord lists scans s s.heap.wraps zs refl m;
  }

  -- where a merge iterator may be sought in
  pub merge_iter-Good :
      (s : MergeIter I) → MergeGood ops direction ord lists scans s → merge_iter-Scans.Good s
  unfolding merge_iter-Scans
  merge_iter-Good s g = g

  pub merge_iter-Good_parts :
      (s : MergeIter I) → merge_iter-Scans.Good s → MergeGood ops direction ord lists scans s
  unfolding merge_iter-Scans
  merge_iter-Good_parts s g = g

-- A merge iterator that may be sought in one direction may be sought in the other, where its
-- iterators may.
module _ {I V : Type 0} (ops opsd : Iter I V) (d e : Direction) (ord : ScanOrder (order_of d))
    (orde : ScanOrder (order_of e)) (lists others : List (List (Bytes × V)))
    (scans : (i : ℕ) → Scans ops (order_of d) (nth lists i))
    (scanse : (i : ℕ) → Scans opsd (order_of e) (nth others i))
    (same : length others ≡ length lists)
    (turn : (i : ℕ) (x : I) → (scans i).Good x → (scanse i).Good x) where
  pub merge_iter-turn :
      (s : MergeIter I)
      → (merge_iter-Scans ops d ord lists scans).Good s
      → (merge_iter-Scans opsd e orde others scanse).Good s
  merge_iter-turn s g =
      let parts = merge_iter-Good_parts ops d ord lists scans s g in
      let home = Home ops d ord lists scans in
      let home' = Home opsd e orde others scanse in
      merge_iter-Good opsd e orde others scanse s (record {
        home_items = Each-map home home' s.items (λ w h. turn w.level w.iter h) parts.home_items;
        home_wraps =
            Each-map home home' s.heap.wraps (λ w h. turn w.level w.iter h) parts.home_wraps;
        levels = rw same parts.levels;
      })
