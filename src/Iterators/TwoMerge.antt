-- ===== src/Iterators/TwoMerge.antt =====
-- crates/storage/src/iterators/two_merge_iter.rs: `TwoMergeIter`. The methods of both directions
-- differ in the comparison of the two keys alone; `ahead` is the order of the scan.
pub mod Merged
pub mod Scans
pub mod Priority
pub mod Versions
pub mod Clients
use todb.Prelude.{
  ℕ, zero, suc, Bool, true, false, not, ◌&&◌, Option, none, some, Run, ok, panic, no_fuel, ◌>>=◌,
  unwrap,
}
use todb.Bytes.{Bytes}
use todb.Bytes.Order.{eq_bytes}
use todb.Iterators.Traits.{Iter}

pub data Current : Type 0 where
  side_a side_b : Current

pub record TwoMergeIter (A B : Type 0) : Type 0 where
  pub a : A
  pub b : B
  pub current : Option Current

-- `a.key() == b.key()`
abbrev pub same_key : Option Bytes → Option Bytes → Bool
same_key none none = true
same_key none (some b) = false
same_key (some a) none = false
same_key (some a) (some b) = eq_bytes a b

module _ {A B V : Type 0} (opsa : Iter A V) (opsb : Iter B V) (ahead : Bytes → Bytes → Bool)
    (fuel : ℕ) where
  -- `choose` and `choose_reverse`: on equal keys the side A, whose key is then not behind B's
  unfoldable pub choose : A → B → Run (Option Current)
  choose a b = elim (opsa.valid a) [
    | false ↦ elim (opsb.valid b) [ false ↦ ok none | true ↦ ok (some side_b) ]
    | true ↦ elim (opsb.valid b) [
      | false ↦ ok (some side_a)
      | true ↦ do
        ak ← opsa.key a
        ak ← unwrap ak
        bk ← opsb.key b
        bk ← unwrap bk
        elim (ahead bk ak) [ false ↦ ok (some side_a) | true ↦ ok (some side_b) ]
    ]
  ]

  -- the condition of the loop below
  unfoldable pub b_is_equal : A → B → Run Bool
  b_is_equal a b = elim (opsa.valid a && opsb.valid b) [
    | false ↦ ok false
    | true ↦ do ak ← opsa.key a; bk ← opsb.key b; ok (same_key ak bk)
  ]

  -- `skip_b_if_equal` and `skip_b_if_equal_rev`
  unfoldable pub skip_b_if_equal : ℕ → A → B → Run B
  skip_b_if_equal zero a b = no_fuel
  skip_b_if_equal (suc n) a b = do
    equal ← b_is_equal a b
    elim equal [ false ↦ ok b | true ↦ do b ← opsb.next b; skip_b_if_equal n a b ]

  -- the end of `new` and of every method that moves: skip, then choose
  unfoldable pub settle : A → B → Run (TwoMergeIter A B)
  settle a b = do
    b ← skip_b_if_equal fuel a b
    current ← choose a b
    ok (record { a = a; b = b; current = current })

  unfoldable pub seek_to_first : TwoMergeIter A B → Run (TwoMergeIter A B)
  seek_to_first s = do a ← opsa.seek_to_first s.a; b ← opsb.seek_to_first s.b; settle a b

  -- `new` seeks both sides to their first entries
  unfoldable pub new : A → B → Run (TwoMergeIter A B)
  new a b = do a ← opsa.seek_to_first a; b ← opsb.seek_to_first b; settle a b

  unfoldable pub seek : TwoMergeIter A B → Bytes → Run (TwoMergeIter A B)
  seek s target = do a ← opsa.seek s.a target; b ← opsb.seek s.b target; settle a b

  -- the `match self.current` of `next`
  unfoldable pub advance : Option Current → TwoMergeIter A B → Run (TwoMergeIter A B)
  advance none s = ok s
  advance (some side_a) s = do a ← opsa.next s.a; settle a s.b
  advance (some side_b) s = do b ← opsb.next s.b; settle s.a b

  unfoldable pub next : TwoMergeIter A B → Run (TwoMergeIter A B)
  next s = advance s.current s

  unfoldable pub valid : TwoMergeIter A B → Bool
  valid s = elim s.current [ none ↦ false | some _ ↦ true ]

  unfoldable pub key : TwoMergeIter A B → Run (Option Bytes)
  key s = elim s.current [
    | none ↦ ok none
    | some c ↦ elim c [ side_a ↦ opsa.key s.a | side_b ↦ opsb.key s.b ]
  ]

  unfoldable pub value : TwoMergeIter A B → Run (Option V)
  value s = elim s.current [
    | none ↦ ok none
    | some c ↦ elim c [ side_a ↦ opsa.value s.a | side_b ↦ opsb.value s.b ]
  ]

  -- `TwoMergeIter` as an iterator of the direction of `ahead`
  abbrev pub two_merge : Iter (TwoMergeIter A B) V
  two_merge = record {
    valid = valid;
    key = key;
    value = value;
    seek_to_first = seek_to_first;
    seek = seek;
    next = next;
  }
