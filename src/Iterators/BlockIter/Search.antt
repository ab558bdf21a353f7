-- ===== src/Iterators/BlockIter/Search.antt =====
-- The binary search of `NormalBlockIter`, in both directions.
use todb.Prelude.{
  ℕ, zero, suc, ◌+◌, ◌-◌, ◌/◌, ◌≤◌, ◌<◌, ◌≡◌, ap, ◌∙◌, Bool, true, false, inl, inr, List, get_elem?,
  length, some, ok, ltb, ◌>>=◌, arith, Bool-cases, get_elem?-lt, ltb→lt, ltb_false→le,
}
use todb.Bytes.{Bytes}
use todb.Bytes.Order.{lt_bytes, le_bytes?, lt_bytes_trans, lt_bytes_asym}
use todb.Iterators.BlockIter.{
  NormalBlockIter, at, key, goes_right, search, seek, rev_seek, then_some, checked_pred,
}
use todb.Iterators.BlockIter.RoundTrip.{Reads, lt_of_get_elem?}

-- `n` splits the keys into those that pass the test and those that do not.
pub record Splits (below : Bytes → Bool) (keys : List Bytes) (n : ℕ) : Type 0 where
  pub bound : n ≤ length keys
  pub before : (i : ℕ) (k : Bytes) → i < n → get_elem? keys i ≡ some k → below k ≡ true
  pub after : (i : ℕ) (k : Bytes) → n ≤ i → get_elem? keys i ≡ some k → below k ≡ false

-- A key in front of one that passes the test passes it too.
abbrev pub IsMonotone : (Bytes → Bool) → List Bytes → Type 0
IsMonotone below keys =
    (i j : ℕ) (k l : Bytes)
    → i ≤ j
    → get_elem? keys i ≡ some k
    → get_elem? keys j ≡ some l
    → below l ≡ true
    → below k ≡ true

-- Strictly ascending keys.
abbrev pub IsSorted : List Bytes → Type 0
IsSorted keys =
    (i j : ℕ) (k l : Bytes)
    → i < j
    → get_elem? keys i ≡ some k
    → get_elem? keys j ≡ some l
    → lt_bytes k l ≡ true

-- One round of the loop, by the way it goes.
module _ (below : Bytes → Bool) (it : NormalBlockIter) (fuel lo hi : ℕ) where
  abbrev middle : ℕ
  middle = lo + (hi - lo) / 2

  search_ends : ltb lo hi ≡ false → search (suc fuel) below it lo hi ≡ ok lo
  unfolding search
  search_ends done = rw (done, search)

  search_right :
      (k : Bytes)
      → ltb lo hi ≡ true
      → key (at it (some middle)) ≡ ok (some k)
      → below k ≡ true
      → search (suc fuel) below it lo hi ≡ search fuel below it (middle + 1) hi
  unfolding search
  search_right k more g t = rw (more, search) (rw (g, ◌>>=◌) (rw (t, goes_right)))

  search_left :
      (k : Bytes)
      → ltb lo hi ≡ true
      → key (at it (some middle)) ≡ ok (some k)
      → below k ≡ false
      → search (suc fuel) below it lo hi ≡ search fuel below it lo middle
  unfolding search
  search_left k more g t = rw (more, search) (rw (g, ◌>>=◌) (rw (t, goes_right)))

module _ (below : Bytes → Bool) {it : NormalBlockIter} {keys values : List Bytes}
    (reads : Reads it keys values) (mono : IsMonotone below keys) where
  -- what the loop keeps: all below `lo` passes the test, and all from `hi` on does not
  record Inv (lo hi : ℕ) : Type 0 where
    ordered : lo ≤ hi
    inside : hi ≤ length keys
    before : (i : ℕ) (k : Bytes) → i < lo → get_elem? keys i ≡ some k → below k ≡ true
    after : (i : ℕ) (k : Bytes) → hi ≤ i → get_elem? keys i ≡ some k → below k ≡ false

  right-Inv :
      (lo hi mid : ℕ) (k : Bytes)
      → Inv lo hi
      → mid < hi
      → get_elem? keys mid ≡ some k
      → below k ≡ true
      → Inv (mid + 1) hi
  right-Inv lo hi mid k inv h g b = record {
    ordered = omega arith;
    inside = inv.inside;
    before = λ i l p q. mono i mid l k (omega arith) q g b;
    after = inv.after;
  }

  left-Inv :
      (lo hi mid : ℕ) (k : Bytes)
      → Inv lo hi
      → lo ≤ mid
      → mid < hi
      → get_elem? keys mid ≡ some k
      → below k ≡ false
      → Inv lo mid
  left-Inv lo hi mid k inv h h' g b = record {
    ordered = h;
    inside = omega (arith, inv.inside);
    before = inv.before;
    after = λ i l p q. elim (Bool-cases (below l)) [
      | inl t ↦ absurd (ground (arith, mono mid i k l p g q t))
      | inr f ↦ f
    ];
  }

  search-Splits :
      (fuel lo hi : ℕ)
      → Inv lo hi
      → hi - lo < fuel
      → (n : ℕ) × (search fuel below it lo hi ≡ ok n) × Splits below keys n
  search-Splits zero lo hi inv f = absurd (omega arith)
  search-Splits (suc fuel) lo hi inv f = elim (Bool-cases (ltb lo hi)) [
    | inr done ↦
        let e : lo ≡ hi = omega (arith, inv.ordered, ltb_false→le lo hi done) in
        (
          lo,
          search_ends below it fuel lo hi done,
          record {
            bound = omega (arith, inv.inside);
            before = inv.before;
            after = λ i k p q. inv.after i k (omega arith) q;
          },
        )
    | inl more ↦
        let mid : ℕ = lo + (hi - lo) / 2 in
        let h : lo < hi = ltb→lt lo hi more in
        let (k, g) = get_elem?-lt keys mid (omega (arith, inv.inside)) in
        elim (Bool-cases (below k)) [
          | inl t ↦
              let (n, e, s) =
                search-Splits fuel (mid + 1) hi (right-Inv lo hi mid k inv (omega arith) g t)
                  (omega arith) in
              (n, search_right below it fuel lo hi k more (reads.key_at mid k g) t ∙ e, s)
          | inr b ↦
              let (n, e, s) =
                search-Splits fuel lo mid (left-Inv lo hi mid k inv (omega arith) (omega arith) g b)
                  (omega arith) in
              (n, search_left below it fuel lo hi k more (reads.key_at mid k g) b ∙ e, s)
        ]
  ]

  search_whole : (n : ℕ) × (search (it.count + 1) below it 0 it.count ≡ ok n) × Splits below keys n
  search_whole =
      search-Splits (it.count + 1) 0 it.count
        (record {
          ordered = omega arith;
          inside = omega (arith, reads.count);
          before = λ i k p q. absurd (omega arith);
          after = λ i k p q. absurd (omega (arith, reads.count, lt_of_get_elem? keys i q));
        })
        (omega arith)

-- Sorted keys pass `k < target` in front, and `k <= target` too.
lt-IsMonotone :
    (keys : List Bytes) (target : Bytes) → IsSorted keys → IsMonotone (λ k. lt_bytes k target) keys
lt-IsMonotone keys target sorted i j k l h p q b = elim (Bool-cases (ltb i j)) [
  | inl t ↦ lt_bytes_trans k l target (sorted i j k l (ltb→lt i j t) p q) b
  | inr f ↦
      let e : i ≡ j = omega (arith, ltb_false→le i j f) in
      let kl : k ≡ l = cc (p, q, ap (get_elem? keys) e) in rw kl b
]

le-IsMonotone :
    (keys : List Bytes) (target : Bytes) → IsSorted keys → IsMonotone (λ k. le_bytes? k target) keys
le-IsMonotone keys target sorted i j k l h p q b = elim (Bool-cases (ltb i j)) [
  | inl t ↦
      ground
        (arith, sorted i j k l (ltb→lt i j t) p q, lt_bytes_trans target k l, lt_bytes_asym k l)
  | inr f ↦
      let e : i ≡ j = omega (arith, ltb_false→le i j f) in
      let kl : k ≡ l = cc (p, q, ap (get_elem? keys) e) in rw kl b
]

-- On sorted keys the forward `seek` returns, at the first key that is not below the target, or past
-- the end.
pub seek-lower_bound :
    (it : NormalBlockIter) (keys values : List Bytes) (target : Bytes)
    → Reads it keys values
    → IsSorted keys
    → (n : ℕ) × (seek it target ≡ ok (at it (then_some (ltb n (length keys)) n)))
      × Splits (λ k. lt_bytes k target) keys n
unfolding seek
seek-lower_bound it keys values target reads sorted =
    let (n, e, s) =
      search_whole (λ k. lt_bytes k target) reads (lt-IsMonotone keys target sorted) in
    (n, rw (e, ◌>>=◌) (rw reads.count), s)

-- The reverse `seek` returns, at the last key that is not above the target, or before the start.
pub rev_seek-upper_bound :
    (it : NormalBlockIter) (keys values : List Bytes) (target : Bytes)
    → Reads it keys values
    → IsSorted keys
    → (n : ℕ) × (rev_seek it target ≡ ok (at it (checked_pred n)))
      × Splits (λ k. le_bytes? k target) keys n
unfolding rev_seek
rev_seek-upper_bound it keys values target reads sorted =
    let (n, e, s) =
      search_whole (λ k. le_bytes? k target) reads (le-IsMonotone keys target sorted) in
    (n, rw (e, ◌>>=◌), s)
