-- ===== src/Iterators/BlockIter/Scans.antt =====
-- A `NormalBlockIter` scans the entries of its block, forward and backward.
use mathlib.Core.List.{tail}
use todb.Prelude.{
  ℕ, zero, suc, ◌-◌, ◌≤◌, ◌<◌, ◌≡◌, refl, sym, ap, ◌∙◌, inl, inr, not, List, reverse, length, take,
  drop, get_elem?, get_elem?-lt, is_empty, ltb, Option, none, some, ok, arith, Bool-cases, ltb→lt,
  ltb_false→le, take_all,
}
use todb.Bytes.{Bytes}
use todb.Iterators.Traits.{Iter, Scans, forward, backward, head_key, head_value}
use todb.Iterators.BlockIter.{
  NormalBlockIter, at, valid, key, value, between, then_some, checked_pred, seek_to_first, seek,
  next, rev_seek_to_first, rev_seek, rev_next,
}
use todb.Iterators.BlockIter.RoundTrip.{Reads}
use todb.Iterators.BlockIter.Search.{IsSorted, seek-lower_bound, rev_seek-upper_bound}
use todb.Iterators.BlockIter.Entries.{
  zip_entries, length-zip_entries-le, drop-zip_entries, drop-zip_entries_end,
  reverse-take-zip_entries, skip_to-forward, skip_to-backward,
}

-- the two impls of the traits
abbrev pub block_forward : Iter NormalBlockIter Bytes
block_forward = record {
  valid = valid;
  key = key;
  value = value;
  seek_to_first = λ it. ok (seek_to_first it);
  seek = seek;
  next = λ it. ok (next it);
}

abbrev pub block_reverse : Iter NormalBlockIter Bytes
block_reverse = record {
  valid = valid;
  key = key;
  value = value;
  seek_to_first = λ it. ok (rev_seek_to_first it);
  seek = rev_seek;
  next = λ it. ok (rev_next it);
}

-- no position: no key and no value
key-none : (it : NormalBlockIter) → key (at it none) ≡ ok none
unfolding key between
key-none it = refl

value-none : (it : NormalBlockIter) → value (at it none) ≡ ok none
unfolding value between
value-none it = refl

last_index : (n : ℕ) → then_some (ltb 0 n) (n - 1) ≡ checked_pred n
last_index zero = ground arith
last_index (suc n) = ground arith

module _ (it : NormalBlockIter) (keys values : List Bytes) (same : length values ≡ length keys)
    (reads : Reads it keys values) (sorted : IsSorted keys) where
  abbrev entries : List (Bytes × Bytes)
  entries = zip_entries keys values

  abbrev IsOver : NormalBlockIter → Type 0
  IsOver s = (c : Option ℕ) × (s ≡ at it c)

  Reads-at : (c : Option ℕ) → Reads (at it c) keys values
  Reads-at c = record { count = reads.count; key_at = reads.key_at; value_at = reads.value_at }

  -- the state stands at index `i`, or past the end
  record ForwardAt (s : NormalBlockIter) (xs : List (Bytes × Bytes)) : Type 0 where
    i : ℕ
    state : s ≡ at it (then_some (ltb i (length keys)) i)
    ahead : xs ≡ drop i entries

  -- the state stands at the last of the first `m` entries, or before the first
  record BackwardAt (s : NormalBlockIter) (xs : List (Bytes × Bytes)) : Type 0 where
    m : ℕ
    bound : m ≤ length keys
    state : s ≡ at it (checked_pred m)
    ahead : xs ≡ reverse (take m entries)

  -- what is read at an index that lies ahead
  abbrev Shows : NormalBlockIter → List (Bytes × Bytes) → Type 0
  Shows s xs =
      (valid s ≡ not (is_empty xs)) × (key s ≡ ok (head_key xs)) × (value s ≡ ok (head_value xs))

  entry_at :
      (i : ℕ)
      → i < length keys
      → (k : Bytes) × (v : Bytes) × (get_elem? keys i ≡ some k) × (get_elem? values i ≡ some v)
  entry_at i h =
      let (k, p) = get_elem?-lt keys i h in
      let (v, q) = get_elem?-lt values i (omega arith) in (k, v, p, q)

  forward-Shows : (s : NormalBlockIter) (xs : List (Bytes × Bytes)) → ForwardAt s xs → Shows s xs
  forward-Shows s xs f = elim (Bool-cases (ltb f.i (length keys))) [
    | inl h ↦
        let (k, v, p, q) = entry_at f.i (ltb→lt f.i (length keys) h) in
        rw f.state (
          rw f.ahead (
            rw h (
              rw (drop-zip_entries keys values f.i p q)
                (refl, reads.key_at f.i k p, reads.value_at f.i v q))))
    | inr h ↦ rw f.state (
        rw f.ahead (
          rw h (
            rw (drop-zip_entries_end keys values f.i (ltb_false→le f.i (length keys) h))
              (refl, key-none it, value-none it))))
  ]

  from_end-Shows :
      (m : ℕ) → m ≤ length keys → Shows (at it (checked_pred m)) (reverse (take m entries))
  from_end-Shows zero b = (refl, key-none it, value-none it)
  from_end-Shows (suc i) b =
      let (k, v, p, q) = entry_at i b in
      rw (reverse-take-zip_entries keys values i p q)
        (refl, reads.key_at i k p, reads.value_at i v q)

  backward-Shows : (s : NormalBlockIter) (xs : List (Bytes × Bytes)) → BackwardAt s xs → Shows s xs
  backward-Shows s xs f = rw f.state (rw f.ahead (from_end-Shows f.m f.bound))

  forward_next :
      (s : NormalBlockIter) (xs : List (Bytes × Bytes))
      → ForwardAt s xs
      → ForwardAt (next s) (tail xs)
  unfolding next
  forward_next s xs f = elim (Bool-cases (ltb f.i (length keys))) [
    | inl h ↦
        let (k, v, p, q) = entry_at f.i (ltb→lt f.i (length keys) h) in
        record {
          i = suc f.i;
          state = rw f.state (rw h (rw reads.count (ground arith)));
          ahead = rw f.ahead (rw (drop-zip_entries keys values f.i p q) refl);
        }
    | inr h ↦ record {
      i = f.i;
      state = rw f.state (rw h refl);
      ahead =
          rw f.ahead
            (rw (drop-zip_entries_end keys values f.i (ltb_false→le f.i (length keys) h)) refl);
    }
  ]

  backward_step :
      (m : ℕ)
      → m ≤ length keys
      → BackwardAt (rev_next (at it (checked_pred m))) (tail (reverse (take m entries)))
  unfolding rev_next
  backward_step zero b = record { m = zero; bound = b; state = refl; ahead = refl }
  backward_step (suc i) b =
      let (k, v, p, q) = entry_at i b in
      record {
        m = i;
        bound = omega arith;
        state = refl;
        ahead = rw (reverse-take-zip_entries keys values i p q) refl;
      }

  -- Over sorted keys the forward impl scans the entries in the order of the block.
  pub block_forward-Scans : Scans block_forward forward entries
  unfolding seek_to_first
  block_forward-Scans = record {
    Good = IsOver;
    At = ForwardAt;
    good = λ s xs f. (then_some (ltb f.i (length keys)) f.i, f.state);
    valid_at = λ s xs f. (forward-Shows s xs f).0;
    key_at = λ s xs f. (forward-Shows s xs f).1;
    value_at = λ s xs f. (forward-Shows s xs f).2;
    first_at = λ s g. (
      seek_to_first s,
      refl,
      record { i = 0; state = rw (g.1) (rw reads.count refl); ahead = refl },
    );
    seek_at = λ s target g.
        let (n, e, p) = seek-lower_bound (at it g.0) keys values target (Reads-at g.0) sorted in
        (
          at it (then_some (ltb n (length keys)) n),
          rw (g.1) e,
          record { i = n; state = refl; ahead = skip_to-forward forward target keys values n p },
        );
    next_at = λ s xs f. (next s, refl, forward_next s xs f);
  }

  -- The reverse impl scans them from the last to the first.
  pub block_reverse-Scans : Scans block_reverse backward (reverse entries)
  unfolding rev_seek_to_first
  block_reverse-Scans = record {
    Good = IsOver;
    At = BackwardAt;
    good = λ s xs f. (checked_pred f.m, f.state);
    valid_at = λ s xs f. (backward-Shows s xs f).0;
    key_at = λ s xs f. (backward-Shows s xs f).1;
    value_at = λ s xs f. (backward-Shows s xs f).2;
    first_at = λ s g. (
      rev_seek_to_first s,
      refl,
      record {
        m = length keys;
        bound = omega arith;
        state =
            rw (g.1) (
              ap (at it) (last_index it.count)
              ∙ ap (λ (n : ℕ). at it (checked_pred n)) reads.count);
        ahead =
            ap reverse (sym (take_all (length keys) entries (length-zip_entries-le keys values)));
      },
    );
    seek_at = λ s target g.
        let (n, e, p) = rev_seek-upper_bound (at it g.0) keys values target (Reads-at g.0) sorted in
        (
          at it (checked_pred n),
          rw (g.1) e,
          record {
            m = n;
            bound = p.bound;
            state = refl;
            ahead = skip_to-backward backward target keys values n p;
          },
        );
    next_at = λ s xs f. (rev_next s, refl, rw f.state (rw f.ahead (backward_step f.m f.bound)));
  }

  -- any state of the iterator may be sought in
  pub block_forward-Good : (c : Option ℕ) → block_forward-Scans.Good (at it c)
  unfolding block_forward-Scans
  block_forward-Good c = (c, refl)

  pub block_reverse-Good : (c : Option ℕ) → block_reverse-Scans.Good (at it c)
  unfolding block_reverse-Scans
  block_reverse-Good c = (c, refl)
