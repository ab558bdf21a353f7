-- ===== src/Iterators/Merge/Clients.antt =====
-- What the client of a `MergeIter` reads.
use todb.Prelude.{
  ℕ, suc, ◌+◌, ◌<◌, ◌≡◌, refl, subst, List, [], ◌∷◌, length, some, ok, arith, if◌then◌else◌, ltb,
  get_elem?,
}
use todb.Bytes.{Bytes}
use todb.Iterators.Traits.{Iter, Scans, ScanOrder, InOrder, skip_to}
use todb.Iterators.Drain.{scan_all, scan_from, scan_all_lem, scan_from_lem}
use todb.Iterators.TwoMerge.Priority.{find}
use todb.Iterators.Merge.{HeapWrap, Direction, order_of, enumerate, new, merge_iter}
use todb.Iterators.Merge.Merged.{
  merge_all, nth, find_by_level, total_length, AllInOrder, length-merge_all, InOrder-merge_all,
  find-merge_all,
}
use todb.Iterators.Merge.Heap.{Each, count}
use todb.Iterators.Merge.Seeks.{Home}
use todb.Iterators.Merge.Scans.{merge_iter-Scans, merge_iter-Good}

add-zero : (n : ℕ) → n + 0 ≡ n
add-zero n = omega arith

add-suc : (n m : ℕ) → n + suc m ≡ suc n + m
add-suc n m = omega arith

zero-add : (n : ℕ) → n ≡ 0 + n
zero-add n = omega arith

module _ {I : Type 0} where
  -- levels are handed out once each
  count-enumerate :
      (i level : ℕ) (xs : List I)
      → count i (enumerate level xs)
        ≡ (if ltb i level then 0 else if ltb i (level + length xs) then 1 else 0)
  unfolding enumerate
  count-enumerate i level [] = ground arith
  count-enumerate i level (x ∷ xs) = ground (arith, count-enumerate i (suc level) xs)

  Each-enumerate :
      (P : HeapWrap I → Type 0) (level : ℕ) (xs : List I)
      → ((i : ℕ) (x : I) → get_elem? xs i ≡ some x → P (record { level = level + i; iter = x }))
      → Each P (enumerate level xs)
  unfolding enumerate
  Each-enumerate P level [] f = tt
  Each-enumerate P level (x ∷ xs) f = (
    subst (λ (l : ℕ). P (record { level = l; iter = x })) (add-zero level) (f 0 x refl),
    Each-enumerate P (suc level) xs λ i y e.
        subst (λ (l : ℕ). P (record { level = l; iter = y })) (add-suc level i) (f (suc i) y e),
  )

-- `lists` are what the iterators scan, by level, in an order `order_of direction`.
module _ {I V : Type 0} (ops : Iter I V) (direction : Direction)
    (ord : ScanOrder (order_of direction)) (lists : List (List (Bytes × V)))
    (scans : (i : ℕ) → Scans ops (order_of direction) (nth lists i)) where
  -- a merge iterator that was just made may be sought in
  pub new-Good :
      (iters : List I)
      → length iters ≡ length lists
      → ((i : ℕ) (x : I) → get_elem? iters i ≡ some x → (scans i).Good x)
      → (merge_iter-Scans ops direction ord lists scans).Good (new iters)
  unfolding new
  new-Good iters same good = merge_iter-Good ops direction ord lists scans (new iters) (record {
    home_items =
        Each-enumerate (Home ops direction ord lists scans) 0 iters
          λ i x e. subst (λ (l : ℕ). (scans l).Good x) (zero-add i) (good i x e);
    home_wraps = tt;
    levels = λ i. ground (arith, count-enumerate i 0 iters);
  })

  module _ (in_order : AllInOrder (order_of direction) lists) (rounds : ℕ)
      (enough : total_length lists < rounds) (iters : List I) (levels : length iters ≡ length lists)
      (good : (i : ℕ) (x : I) → get_elem? iters i ≡ some x → (scans i).Good x) where
    -- A scan of a new merge iterator from its first entry ends without an error or a panic, in
    -- scan order, with exactly as many entries as its iterators have together; under any key the
    -- first value is that of the first iterator in the vector that holds the key. The iterators
    -- keep the promises of `Scans` for lists in scan order, and there is a round per entry.
    pub merge_iter-scan_all :
        (k : Bytes)
        → (zs : List (Bytes × V)) × (scan_all (merge_iter ops direction) rounds (new iters) ≡ ok zs)
          × InOrder (order_of direction) zs
          × (length zs ≡ total_length lists)
          × (find k zs ≡ find_by_level k lists)
    merge_iter-scan_all k = (
      merge_all (order_of direction) lists,
      scan_all_lem (merge_iter ops direction) (order_of direction)
          (merge_all (order_of direction) lists) (merge_iter-Scans ops direction ord lists scans)
          rounds (new iters) (new-Good iters levels good)
          (omega (arith, length-merge_all (order_of direction) lists)),
      InOrder-merge_all (order_of direction) ord lists in_order,
      length-merge_all (order_of direction) lists,
      find-merge_all (order_of direction) ord k lists in_order,
    )

    -- A scan of a new merge iterator from a target reads exactly the entries of its whole scan
    -- that are not ahead of the target, under the same promises of its iterators: they keep
    -- `Scans` for lists in scan order, and there is a round per entry.
    pub merge_iter-scan_from :
        (target : Bytes)
        → (zs : List (Bytes × V)) × (scan_all (merge_iter ops direction) rounds (new iters) ≡ ok zs)
          × (scan_from (merge_iter ops direction) rounds target (new iters)
              ≡ ok (skip_to (order_of direction) target zs))
    merge_iter-scan_from target = (
      merge_all (order_of direction) lists,
      scan_all_lem (merge_iter ops direction) (order_of direction)
          (merge_all (order_of direction) lists) (merge_iter-Scans ops direction ord lists scans)
          rounds (new iters) (new-Good iters levels good)
          (omega (arith, length-merge_all (order_of direction) lists)),
      scan_from_lem (merge_iter ops direction) (order_of direction)
          (merge_all (order_of direction) lists) (merge_iter-Scans ops direction ord lists scans)
          rounds target (new iters) (new-Good iters levels good)
          (omega (arith, length-merge_all (order_of direction) lists)),
    )
