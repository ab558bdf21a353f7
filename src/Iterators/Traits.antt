-- ===== src/Iterators/Traits.antt =====
-- crates/storage/src/iterators/storage_iter.rs: the iterator traits, and what an iterator promises
-- to the one above it.
--
-- `ForwardIter` and `ReverseIter` have the same methods, so one record stands for both: an iterator
-- has a value of it for each direction that it can scan in.
use mathlib.Core.Option
use mathlib.Core.List.{head?, tail}
use todb.Prelude.{
  ◌≤◌, length, arith, ◌≡◌, inl, inr, Bool-cases, Bool, true, false, not, List, [], ◌∷◌, Option, Run,
  ok, is_empty, if◌then◌else◌,
}
use todb.Bytes.{Bytes}
use todb.Bytes.Order.{lt_bytes, lt_bytes_irrefl, lt_bytes_trans, lt_bytes_total}

-- the methods of `IterRead` and of `ForwardIter` or `ReverseIter`
pub record Iter (I V : Type 0) : Type 0 where
  pub valid : I → Bool
  pub key : I → Run (Option Bytes)
  pub value : I → Run (Option V)
  pub seek_to_first : I → Run I
  pub seek : I → Bytes → Run I
  pub next : I → Run I

-- `ahead a b`: a scan in this direction meets `a` before `b`.
pub record ScanOrder (ahead : Bytes → Bytes → Bool) : Type 0 where
  pub irrefl : (a : Bytes) → ahead a a ≡ false
  pub trans : (a b c : Bytes) → ahead a b ≡ true → ahead b c ≡ true → ahead a c ≡ true
  pub total : (a b : Bytes) → ahead a b ≡ false → ahead b a ≡ false → a ≡ b

abbrev pub forward : Bytes → Bytes → Bool
forward a b = lt_bytes a b

abbrev pub backward : Bytes → Bytes → Bool
backward a b = lt_bytes b a

pub ScanOrder-forward : ScanOrder forward
ScanOrder-forward = record {
  irrefl = lt_bytes_irrefl;
  trans = lt_bytes_trans;
  total = lt_bytes_total;
}

pub ScanOrder-backward : ScanOrder backward
ScanOrder-backward = record {
  irrefl = lt_bytes_irrefl;
  trans = λ a b c p q. lt_bytes_trans c b a q p;
  total = λ a b p q. lt_bytes_total a b q p;
}

module _ {V : Type 0} where
  -- what a scan from the first key at or behind `target` meets
  unfoldable pub skip_to : (Bytes → Bytes → Bool) → Bytes → List (Bytes × V) → List (Bytes × V)
  skip_to ahead target [] = []
  skip_to ahead target ((k, v) ∷ xs) =
      if ahead k target then skip_to ahead target xs else (k, v) ∷ xs

  abbrev pub head_key : List (Bytes × V) → Option Bytes
  head_key xs = Option.map (λ (x : Bytes × V). x.0) (head? xs)

  abbrev pub head_value : List (Bytes × V) → Option V
  head_value xs = Option.map (λ (x : Bytes × V). x.1) (head? xs)

-- An iterator that scans `all`: `At s xs` says that `xs` is what lies ahead of the state `s`, its
-- current entry first. No method fails on a state that is `Good`.
pub record Scans {I V : Type 0} (ops : Iter I V) (ahead : Bytes → Bytes → Bool)
    (all : List (Bytes × V)) : Type 1 where
  pub Good : I → Type 0
  pub At : I → List (Bytes × V) → Type 0
  pub good : (s : I) (xs : List (Bytes × V)) → At s xs → Good s
  pub valid_at : (s : I) (xs : List (Bytes × V)) → At s xs → ops.valid s ≡ not (is_empty xs)
  pub key_at : (s : I) (xs : List (Bytes × V)) → At s xs → ops.key s ≡ ok (head_key xs)
  pub value_at : (s : I) (xs : List (Bytes × V)) → At s xs → ops.value s ≡ ok (head_value xs)
  pub first_at : (s : I) → Good s → (t : I) × (ops.seek_to_first s ≡ ok t) × At t all
  pub seek_at :
      (s : I) (target : Bytes)
      → Good s
      → (t : I) × (ops.seek s target ≡ ok t) × At t (skip_to ahead target all)
  pub next_at :
      (s : I) (xs : List (Bytes × V)) → At s xs → (t : I) × (ops.next s ≡ ok t) × At t (tail xs)

-- `z` before `t`, and `t` not behind `y`
pub before_trans :
    (ahead : Bytes → Bytes → Bool)
    → ScanOrder ahead
    → (z t y : Bytes) → ahead z t ≡ true
    → ahead y t ≡ false
    → ahead z y ≡ true
before_trans ahead ord z t y p q = elim (Bool-cases (ahead t y)) [
  | inl h ↦ ord.trans z t y p h
  | inr h ↦ rw (ord.total y t q h) p
]

module _ {V : Type 0} where
  -- no entry of the list comes before `k` in the scan
  abbrev pub NoneBefore : (Bytes → Bytes → Bool) → Bytes → List (Bytes × V) → Type 0
  NoneBefore ahead k [] = Unit
  NoneBefore ahead k (x ∷ xs) = (ahead x.0 k ≡ false) × NoneBefore ahead k xs

  -- the list is in scan order; equal keys may stand side by side
  abbrev pub InOrder : (Bytes → Bytes → Bool) → List (Bytes × V) → Type 0
  InOrder ahead [] = Unit
  InOrder ahead (x ∷ xs) = NoneBefore ahead x.0 xs × InOrder ahead xs

  pub length-skip_to :
      (ahead : Bytes → Bytes → Bool) (target : Bytes) (xs : List (Bytes × V))
      → length (skip_to ahead target xs) ≤ length xs
  unfolding skip_to
  length-skip_to ahead target [] = omega arith
  length-skip_to ahead target (x ∷ xs) = ground (arith, length-skip_to ahead target xs)
