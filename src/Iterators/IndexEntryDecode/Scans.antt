-- ===== src/Iterators/IndexEntryDecode/Scans.antt =====
-- An `IndexEntryDecodeIter` over an iterator of encoded positions scans the bytes of the positions.
use mathlib.Core.List.{tail}
use todb.Prelude.{
  ◌≡◌, refl, inl, inr, Bool, not, List, [], ◌∷◌, Option, none, some, Run, ok, ◌>>=◌, is_empty,
  length, arith, Bool-cases,
}
use todb.Bytes.{Bytes, slice_from}
use todb.Builder.IndexBlock.{index_value_version}
use todb.Iterators.Traits.{Iter, Scans, skip_to, head_key, head_value}
use todb.Iterators.IndexEntryDecode.{
  IndexEntryDecodeIter, IndexEntryHeader, decode_header, refresh, valid, key, value, seek_to_first,
  seek, next, index_entries,
}

unfoldable pub raw_positions : List (Bytes × Bytes) → List (Bytes × Bytes)
raw_positions [] = []
raw_positions (x ∷ xs) = (x.0, index_value_version ∷ x.1) ∷ raw_positions xs

-- every payload has the length of a position
abbrev pub ArePositions : List (Bytes × Bytes) → Type 0
ArePositions [] = Unit
ArePositions (x ∷ xs) = (length x.1 ≡ 8) × ArePositions xs

abbrev the_header : IndexEntryHeader
the_header = record { format_version = index_value_version; payload_start = 1 }

abbrev headers : List (Bytes × Bytes) → Option IndexEntryHeader
headers [] = none
headers (x ∷ xs) = some the_header

skip_to-raw_positions :
    (ahead : Bytes → Bytes → Bool) (target : Bytes) (xs : List (Bytes × Bytes))
    → skip_to ahead target (raw_positions xs) ≡ raw_positions (skip_to ahead target xs)
unfolding skip_to raw_positions
skip_to-raw_positions ahead target [] = refl
skip_to-raw_positions ahead target (x ∷ xs) = elim (Bool-cases (ahead x.0 target)) [
  | inl t ↦ rw (t, skip_to) (skip_to-raw_positions ahead target xs)
  | inr f ↦ rw (f, skip_to) refl
]

tail-raw_positions : (xs : List (Bytes × Bytes)) → tail (raw_positions xs) ≡ raw_positions (tail xs)
unfolding raw_positions
tail-raw_positions [] = refl
tail-raw_positions (x ∷ xs) = refl

ArePositions-skip_to :
    (ahead : Bytes → Bytes → Bool) (target : Bytes) (xs : List (Bytes × Bytes))
    → ArePositions xs
    → ArePositions (skip_to ahead target xs)
unfolding skip_to
ArePositions-skip_to ahead target [] a = tt
ArePositions-skip_to ahead target (x ∷ xs) a = elim (Bool-cases (ahead x.0 target)) [
  | inl t ↦ rw (t, skip_to) (ArePositions-skip_to ahead target xs a.1)
  | inr f ↦ rw (f, skip_to) a
]

ArePositions-tail : (xs : List (Bytes × Bytes)) → ArePositions xs → ArePositions (tail xs)
ArePositions-tail [] a = tt
ArePositions-tail (x ∷ xs) a = a.1

-- the header of an encoded position is accepted
decode-encode : (v : Bytes) → length v ≡ 8 → decode_header (index_value_version ∷ v) ≡ ok the_header
unfolding decode_header
decode-encode v h = rw h refl

module _ {I : Type 0} (ops : Iter I Bytes) (ahead : Bytes → Bytes → Bool)
    (all : List (Bytes × Bytes)) (raw : List (Bytes × Bytes)) (encoded : raw ≡ raw_positions all)
    (sized : ArePositions all) (scans : Scans ops ahead raw) where
  record DecodeAt (s : IndexEntryDecodeIter I) (xs : List (Bytes × Bytes)) : Type 0 where
    input_at : scans.At s.input (raw_positions xs)
    header_is : s.header ≡ headers xs
    sized_ahead : ArePositions xs

  refresh_lem :
      (i : I) (xs : List (Bytes × Bytes))
      → scans.At i (raw_positions xs)
      → ArePositions xs
      → (t : IndexEntryDecodeIter I) × (refresh ops i ≡ ok t) × DecodeAt t xs
  unfolding refresh raw_positions
  refresh_lem i [] p a = (
    record { input = i; header = none },
    ground (arith, scans.valid_at i [] p),
    record { input_at = p; header_is = refl; sized_ahead = a },
  )
  refresh_lem i (x ∷ xs) p a = (
    record { input = i; header = some the_header },
    rw (scans.valid_at i _ p, ◌>>=◌)
        (rw (scans.value_at i _ p, ◌>>=◌) (rw (decode-encode x.1 a.0, ◌>>=◌))),
    record { input_at = p; header_is = refl; sized_ahead = a },
  )

  value_lem :
      (s : IndexEntryDecodeIter I) (xs : List (Bytes × Bytes))
      → DecodeAt s xs
      → value ops s ≡ ok (head_value xs)
  unfolding value raw_positions slice_from
  value_lem s [] d = ground (arith, scans.valid_at s.input [] d.input_at)
  value_lem s (x ∷ xs) d =
      let xs' : List (Bytes × Bytes) = raw_positions (x ∷ xs) in
      ground (
        arith,
        scans.valid_at s.input xs' d.input_at,
        scans.value_at s.input xs' d.input_at,
        d.header_is,
      )

  key_lem :
      (s : IndexEntryDecodeIter I) (xs : List (Bytes × Bytes))
      → DecodeAt s xs
      → (valid ops s ≡ not (is_empty xs)) × (key ops s ≡ ok (head_key xs))
  unfolding valid key raw_positions
  key_lem s [] d = (scans.valid_at s.input [] d.input_at, scans.key_at s.input [] d.input_at)
  key_lem s (x ∷ xs) d = (scans.valid_at s.input _ d.input_at, scans.key_at s.input _ d.input_at)

  move_lem :
      (m : Run I) (xs : List (Bytes × Bytes))
      → ArePositions xs
      → (t : I) × (m ≡ ok t) × scans.At t (raw_positions xs)
      → (t : IndexEntryDecodeIter I) × ((m >>= refresh ops) ≡ ok t) × DecodeAt t xs
  move_lem m xs a (i, e, p) = let (t, k, d) = refresh_lem i xs p a in (t, rw (e, ◌>>=◌) k, d)

  -- over an iterator that scans encoded positions, the decoder scans their bytes
  pub index_entries-Scans : Scans (index_entries ops) ahead all
  unfolding seek_to_first seek next
  index_entries-Scans = record {
    Good = λ s. scans.Good s.input;
    At = DecodeAt;
    good = λ s xs d. scans.good s.input (raw_positions xs) d.input_at;
    valid_at = λ s xs d. (key_lem s xs d).0;
    key_at = λ s xs d. (key_lem s xs d).1;
    value_at = value_lem;
    first_at = λ s g.
        move_lem (ops.seek_to_first s.input) all sized (rw encoded at (scans.first_at s.input g));
    seek_at = λ s target g.
        move_lem (ops.seek s.input target) (skip_to ahead target all)
          (ArePositions-skip_to ahead target all sized)
          (rw (← skip_to-raw_positions ahead target all)
            (rw encoded at (scans.seek_at s.input target g)));
    next_at = λ s xs d.
        move_lem (ops.next s.input) (tail xs) (ArePositions-tail xs d.sized_ahead)
          (rw (← tail-raw_positions xs) (scans.next_at s.input (raw_positions xs) d.input_at));
  }

  -- a decoder may be sought in where its input may
  pub index_entries-Good :
      (s : IndexEntryDecodeIter I) → scans.Good s.input → index_entries-Scans.Good s
  unfolding index_entries-Scans
  index_entries-Good s g = g
