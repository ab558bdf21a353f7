-- ===== src/Iterators/Concat.antt =====
-- crates/storage/src/iterators/concat_iter.rs: `ConcatIter`, over any iterators, with the forward
-- methods and the reverse ones (`rev_`).
pub mod Scans
use todb.Prelude.{
  ℕ, zero, suc, ◌+◌, Bool, true, false, not, ◌||◌, List, [], ◌∷◌, length, get_elem?, set, Option,
  none, some, Run, ok, unwrap, ◌>>=◌, if◌then◌else◌, ◌==◌,
}
use todb.Bytes.{Bytes}
use todb.Iterators.Traits.{Iter}

pub record ConcatIter (I : Type 0) : Type 0 where
  pub iter : List I
  pub curr : ℕ

module _ {I V : Type 0} (ops : Iter I V) where
  unfoldable pub new : List I → ConcatIter I
  new iter = record { iter = iter; curr = 0 }

  unfoldable pub valid : ConcatIter I → Bool
  valid c = elim (get_elem? c.iter c.curr) [ none ↦ false | some x ↦ ops.valid x ]

  unfoldable pub key : ConcatIter I → Run (Option Bytes)
  key c = elim (valid c) [
    | false ↦ ok none
    | true ↦ do x ← unwrap (get_elem? c.iter c.curr); ops.key x
  ]

  unfoldable pub value : ConcatIter I → Run (Option V)
  value c = elim (valid c) [
    | false ↦ ok none
    | true ↦ do x ← unwrap (get_elem? c.iter c.curr); ops.value x
  ]

  -- the loop `while self.curr < self.iter.len()` from `curr` on, which moves each iterator by
  -- `step` until one is valid: the iterators and `curr` after it
  unfoldable pub walk : (I → Run I) → ℕ → List I → Run (List I × ℕ)
  walk step curr [] = ok ([], curr)
  walk step zero (x ∷ xs) = do
    y ← step x
    elim (ops.valid y) [
      | true ↦ ok (y ∷ xs, 0)
      | false ↦ do r ← walk step zero xs; ok (y ∷ r.0, suc r.1)
    ]
  walk step (suc n) (x ∷ xs) = do r ← walk step n xs; ok (x ∷ r.0, suc r.1)

  -- the iterator after that loop
  abbrev pub walked : Run (List I × ℕ) → Run (ConcatIter I)
  walked m = m >>= λ (r : List I × ℕ). ok (record { iter = r.0; curr = r.1 })

  unfoldable pub seek_to_first : ConcatIter I → Run (ConcatIter I)
  seek_to_first c = walked (walk ops.seek_to_first 0 c.iter)

  unfoldable pub seek : ConcatIter I → Bytes → Run (ConcatIter I)
  seek c target = walked (walk (λ x. ops.seek x target) 0 c.iter)

  unfoldable pub next : ConcatIter I → Run (ConcatIter I)
  next c = elim (valid c) [
    | false ↦ ok c
    | true ↦ do
      x ← unwrap (get_elem? c.iter c.curr)
      y ← ops.next x
      let iter = set c.iter c.curr y
      elim (ops.valid y) [
        | true ↦ ok (record { iter = iter; curr = c.curr })
        | false ↦ walked (walk ops.seek_to_first (c.curr + 1) iter)
      ]
  ]

  abbrev pub concat_iter : Iter (ConcatIter I) V
  concat_iter = record {
    valid = valid;
    key = key;
    value = value;
    seek_to_first = seek_to_first;
    seek = seek;
    next = next;
  }

  -- the loop of the reverse methods from `curr` down, which stops at the first iterator even when
  -- that is not valid
  unfoldable pub walk_back : (I → Run I) → ℕ → List I → Run (ConcatIter I)
  walk_back step zero iter = do
    x ← unwrap (get_elem? iter 0)
    y ← step x
    ok (record { iter = set iter 0 y; curr = 0 })
  walk_back step (suc n) iter = do
    x ← unwrap (get_elem? iter (suc n))
    y ← step x
    elim (ops.valid y) [
      | true ↦ ok (record { iter = set iter (suc n) y; curr = suc n })
      | false ↦ walk_back step n (set iter (suc n) y)
    ]

  -- the last index of a list that is not empty
  abbrev pub from_last : (I → Run I) → ConcatIter I → ℕ → Run (ConcatIter I)
  from_last step c zero = ok c
  from_last step c (suc n) = walk_back step n c.iter

  unfoldable pub rev_seek_to_first : ConcatIter I → Run (ConcatIter I)
  rev_seek_to_first c = from_last ops.seek_to_first c (length c.iter)

  -- `curr` is 0 when no iterator is valid after its seek
  unfoldable pub rev_seek : ConcatIter I → Bytes → Run (ConcatIter I)
  rev_seek c target = from_last (λ x. ops.seek x target) (record c { curr = 0 }) (length c.iter)

  unfoldable pub rev_next : ConcatIter I → Run (ConcatIter I)
  rev_next c = elim (valid c) [
    | false ↦ ok c
    | true ↦ do
      x ← unwrap (get_elem? c.iter c.curr)
      y ← ops.next x
      let moved : ConcatIter I = record { iter = set c.iter c.curr y; curr = c.curr }
      elim (ops.valid y) [ true ↦ ok moved | false ↦ from_last ops.seek_to_first moved c.curr ]
  ]

  -- `ConcatIter` as a reverse iterator
  abbrev pub rev_concat_iter : Iter (ConcatIter I) V
  rev_concat_iter = record {
    valid = valid;
    key = key;
    value = value;
    seek_to_first = rev_seek_to_first;
    seek = rev_seek;
    next = rev_next;
  }
