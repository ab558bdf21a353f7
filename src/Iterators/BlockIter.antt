-- ===== src/Iterators/BlockIter.antt =====
-- crates/storage/src/iterators/block_iter.rs: `NormalBlockIter`. The methods that the forward and
-- the reverse trait both have carry `rev_` in the reverse one.
pub mod Parts
pub mod RoundTrip
pub mod Search
pub mod Entries
pub mod Scans
pub mod Ascending
use todb.Prelude.{
  ℕ, zero, suc, ◌+◌, ◌-◌, ◌/◌, Bool, true, false, List, [], ◌∷◌, get_elem?, Option, none, some, ltb,
  Run, ok, panic, no_fuel, ◌>>=◌, if◌then◌else◌,
}
use todb.Bytes.{Bytes, slice, from_be}
use todb.Bytes.Order.{lt_bytes, le_bytes?}

pub record NormalBlockIter : Type 0 where
  pub block : Bytes
  pub key_offsets : List ℕ
  pub values_offsets : List ℕ
  pub count : ℕ
  pub curr : Option ℕ

-- `v[i]`, which panics out of range
unfoldable pub index : List ℕ → ℕ → Run ℕ
index v i = elim (get_elem? v i) [ none ↦ panic | some x ↦ ok x ]

-- One of the two loops of `parse_header`: `n` numbers from `start` on, and `start` after them.
unfoldable pub parse_offsets : ℕ → Bytes → ℕ → Run (List ℕ × ℕ)
parse_offsets zero block start = ok ([], start)
parse_offsets (suc n) block start = do
  buf ← slice block start (start + 4)
  (offs, end) ← parse_offsets n block (start + 4)
  ok (from_be buf ∷ offs, end)

-- `new`, which runs `parse_header`
unfoldable pub new : Bytes → Run NormalBlockIter
new block = do
  buf ← slice block 0 4
  let count = from_be buf
  (key_offsets, start) ← parse_offsets (count + 1) block 4
  (values_offsets, end) ← parse_offsets (count + 1) block start
  ok (record {
    block = block;
    key_offsets = key_offsets;
    values_offsets = values_offsets;
    count = count;
    curr = none;
  })

abbrev pub at : NormalBlockIter → Option ℕ → NormalBlockIter
at it c = record it { curr = c }

abbrev pub valid : NormalBlockIter → Bool
valid it = elim it.curr [ none ↦ false | some _ ↦ true ]

-- the bytes between two neighbouring offsets
unfoldable pub between : Bytes → List ℕ → Option ℕ → Run (Option Bytes)
between block offsets none = ok none
between block offsets (some i) = do
  start ← index offsets i
  end ← index offsets (i + 1)
  part ← slice block start end
  ok (some part)

unfoldable pub key : NormalBlockIter → Run (Option Bytes)
key it = between it.block it.key_offsets it.curr

unfoldable pub value : NormalBlockIter → Run (Option Bytes)
value it = between it.block it.values_offsets it.curr

-- `(b).then_some(i)`
abbrev pub then_some : Bool → ℕ → Option ℕ
then_some b i = if b then some i else none

-- `i.checked_sub(1)`
abbrev pub checked_pred : ℕ → Option ℕ
checked_pred zero = none
checked_pred (suc i) = some i

unfoldable pub seek_to_first : NormalBlockIter → NormalBlockIter
seek_to_first it = at it (then_some (ltb 0 it.count) 0)

-- the test of the binary search on the key that was read: `Some(k) if k < *target`
abbrev pub goes_right : (Bytes → Bool) → Option Bytes → Bool
goes_right below none = false
goes_right below (some k) = below k

-- The `while lo < hi` of both `seek`s, over the test on a key. `self.curr = Some(mid)` is set in
-- each round and set anew after the loop, so the loop returns `lo` alone.
unfoldable pub search : ℕ → (Bytes → Bool) → NormalBlockIter → ℕ → ℕ → Run ℕ
search zero below it lo hi = no_fuel
search (suc fuel) below it lo hi = elim (ltb lo hi) [
  | false ↦ ok lo
  | true ↦
      (let mid = lo + (hi - lo) / 2 in
        do
          k ← key (at it (some mid))
          elim (goes_right below k) [
            | true ↦ search fuel below it (mid + 1) hi
            | false ↦ search fuel below it lo mid
          ])
]

-- `ForwardIter::seek` and `IndexBlockIter::seek`
unfoldable pub seek : NormalBlockIter → Bytes → Run NormalBlockIter
seek it target = do
  lo ← search (it.count + 1) (λ k. lt_bytes k target) it 0 it.count
  ok (at it (then_some (ltb lo it.count) lo))

unfoldable pub next : NormalBlockIter → NormalBlockIter
next it = elim it.curr [ none ↦ it | some i ↦ at it (then_some (ltb (i + 1) it.count) (i + 1)) ]

unfoldable pub rev_seek_to_first : NormalBlockIter → NormalBlockIter
rev_seek_to_first it = at it (then_some (ltb 0 it.count) (it.count - 1))

unfoldable pub rev_seek : NormalBlockIter → Bytes → Run NormalBlockIter
rev_seek it target = do
  lo ← search (it.count + 1) (λ k. le_bytes? k target) it 0 it.count
  ok (at it (checked_pred lo))

unfoldable pub rev_next : NormalBlockIter → NormalBlockIter
rev_next it = at it (elim it.curr [ none ↦ none | some i ↦ checked_pred i ])
