-- ===== src/Iterators/DataEntryDecode/Scans.antt =====
-- A `DataEntryDecodeIter` over an iterator of encoded values scans the values.
use mathlib.Core.List.{tail}
use todb.Prelude.{
  ◌≡◌, refl, inl, inr, Bool, not, List, [], ◌∷◌, Option, none, some, Run, ok, ◌>>=◌, is_empty,
  arith, Bool-cases,
}
use todb.Bytes.{Bytes, slice_from}
use todb.Builder.DataBlock.{data_entry_version, kind_put, kind_delete}
use todb.Iterators.Traits.{Iter, Scans, skip_to, head_key, head_value}
use todb.Iterators.DataEntryDecode.{
  EntryValue, put, delete, EntryHeader, put_kind, delete_kind, DataEntryDecodeIter, refresh,
  decode_entry_header, decode_valid, decode_key, decode_value, decode_seek_to_first, decode_seek,
  decode_next, decode_entries,
}

-- the encoding of a value that the data block builder writes
abbrev pub encode_value : EntryValue → Bytes
encode_value (put v) = data_entry_version ∷ kind_put ∷ v
encode_value delete = data_entry_version ∷ kind_delete ∷ []

unfoldable pub raw_entries : List (Bytes × EntryValue) → List (Bytes × Bytes)
raw_entries [] = []
raw_entries (x ∷ xs) = (x.0, encode_value x.1) ∷ raw_entries xs

abbrev header_for : EntryValue → EntryHeader
header_for (put v) = record { entry_kind = put_kind; payload_start = 2 }
header_for delete = record { entry_kind = delete_kind; payload_start = 2 }

abbrev headers : List (Bytes × EntryValue) → Option EntryHeader
headers [] = none
headers (x ∷ xs) = some (header_for x.1)

skip_to-raw_entries :
    (ahead : Bytes → Bytes → Bool) (target : Bytes) (xs : List (Bytes × EntryValue))
    → skip_to ahead target (raw_entries xs) ≡ raw_entries (skip_to ahead target xs)
unfolding skip_to raw_entries
skip_to-raw_entries ahead target [] = refl
skip_to-raw_entries ahead target (x ∷ xs) = elim (Bool-cases (ahead x.0 target)) [
  | inl t ↦ rw (t, skip_to) (skip_to-raw_entries ahead target xs)
  | inr f ↦ rw (f, skip_to) refl
]

tail-raw_entries : (xs : List (Bytes × EntryValue)) → tail (raw_entries xs) ≡ raw_entries (tail xs)
unfolding raw_entries
tail-raw_entries [] = refl
tail-raw_entries (x ∷ xs) = refl

-- the header of an encoded value is accepted
decode-encode : (v : EntryValue) → decode_entry_header (encode_value v) ≡ ok (header_for v)
unfolding decode_entry_header
decode-encode (put v) = refl
decode-encode delete = refl

module _ {I : Type 0} (ops : Iter I Bytes) (ahead : Bytes → Bytes → Bool)
    (all : List (Bytes × EntryValue)) (raw : List (Bytes × Bytes)) (encoded : raw ≡ raw_entries all)
    (scans : Scans ops ahead raw) where
  record DecodeAt (s : DataEntryDecodeIter I) (xs : List (Bytes × EntryValue)) : Type 0 where
    input_at : scans.At s.input (raw_entries xs)
    header : s.entry_header ≡ headers xs

  refresh_lem :
      (i : I) (xs : List (Bytes × EntryValue))
      → scans.At i (raw_entries xs)
      → (t : DataEntryDecodeIter I) × (refresh ops i ≡ ok t) × DecodeAt t xs
  unfolding refresh raw_entries
  refresh_lem i [] p = (
    record { input = i; entry_header = none },
    ground (arith, scans.valid_at i [] p),
    record { input_at = p; header = refl },
  )
  refresh_lem i (x ∷ xs) p = (
    record { input = i; entry_header = some (header_for x.1) },
    rw (scans.valid_at i _ p, ◌>>=◌)
        (rw (scans.value_at i _ p, ◌>>=◌) (rw (decode-encode x.1, ◌>>=◌))),
    record { input_at = p; header = refl },
  )

  value_lem :
      (s : DataEntryDecodeIter I) (xs : List (Bytes × EntryValue))
      → DecodeAt s xs
      → decode_value ops s ≡ ok (head_value xs)
  unfolding decode_value raw_entries slice_from
  value_lem s [] d = ground (arith, scans.valid_at s.input [] d.input_at)
  value_lem s ((k, put v) ∷ xs) d =
      let xs' : List (Bytes × Bytes) = raw_entries ((k, put v) ∷ xs) in
      ground (
        arith,
        scans.valid_at s.input xs' d.input_at,
        scans.value_at s.input xs' d.input_at,
        d.header,
      )
  value_lem s ((k, delete) ∷ xs) d =
      let xs' : List (Bytes × Bytes) = raw_entries ((k, delete) ∷ xs) in
      ground (
        arith,
        scans.valid_at s.input xs' d.input_at,
        scans.value_at s.input xs' d.input_at,
        d.header,
      )

  key_lem :
      (s : DataEntryDecodeIter I) (xs : List (Bytes × EntryValue))
      → DecodeAt s xs
      → (decode_valid ops s ≡ not (is_empty xs)) × (decode_key ops s ≡ ok (head_key xs))
  unfolding decode_valid decode_key raw_entries
  key_lem s [] d = (scans.valid_at s.input [] d.input_at, scans.key_at s.input [] d.input_at)
  key_lem s (x ∷ xs) d = (scans.valid_at s.input _ d.input_at, scans.key_at s.input _ d.input_at)

  move_lem :
      (m : Run I) (xs : List (Bytes × EntryValue))
      → (t : I) × (m ≡ ok t) × scans.At t (raw_entries xs)
      → (t : DataEntryDecodeIter I) × ((m >>= refresh ops) ≡ ok t) × DecodeAt t xs
  move_lem m xs (i, e, p) = let (t, k, d) = refresh_lem i xs p in (t, rw (e, ◌>>=◌) k, d)

  -- Over an iterator that scans the encodings of `all`, the decoder scans `all`: no entry is refused,
  -- and every tombstone comes out as one.
  pub decode_entries-Scans : Scans (decode_entries ops) ahead all
  unfolding decode_seek_to_first decode_seek decode_next
  decode_entries-Scans = record {
    Good = λ s. scans.Good s.input;
    At = DecodeAt;
    good = λ s xs d. scans.good s.input (raw_entries xs) d.input_at;
    valid_at = λ s xs d. (key_lem s xs d).0;
    key_at = λ s xs d. (key_lem s xs d).1;
    value_at = value_lem;
    first_at =
        λ s g. move_lem (ops.seek_to_first s.input) all (rw encoded at (scans.first_at s.input g));
    seek_at = λ s target g. move_lem (ops.seek s.input target) (skip_to ahead target all) (
        rw (← skip_to-raw_entries ahead target all)
          (rw encoded at (scans.seek_at s.input target g)));
    next_at = λ s xs d.
        move_lem (ops.next s.input) (tail xs)
          (rw (← tail-raw_entries xs) (scans.next_at s.input (raw_entries xs) d.input_at));
  }

  -- a decoder may be sought in where its input may
  pub decode_entries-Good :
      (s : DataEntryDecodeIter I) → scans.Good s.input → decode_entries-Scans.Good s
  unfolding decode_entries-Scans
  decode_entries-Good s g = g
