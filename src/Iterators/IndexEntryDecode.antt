-- ===== src/Iterators/IndexEntryDecode.antt =====
-- crates/storage/src/iterators/index_entry_decode_iter.rs: `IndexEntryDecodeIter`, over any iterator
-- of raw values. The impls of both directions have the same text.
pub mod Scans
use todb.Prelude.{
  ℕ, ◌+◌, Bool, not, List, [], ◌∷◌, Option, none, some, Run, ok, err, invalid_value, assert, ◌>>=◌,
  ◌>>◌, ◌==◌, length, if◌then◌else◌,
}
use todb.Bytes.{Bytes, slice_from, from_be}
use todb.Builder.IndexBlock.{Position, index_value_version}
use todb.Iterators.Traits.{Iter}

abbrev pub position_len : ℕ
position_len = 8

pub record IndexEntryHeader : Type 0 where
  pub format_version : ℕ
  pub payload_start : ℕ

pub record IndexEntryDecodeIter (I : Type 0) : Type 0 where
  pub input : I
  pub header : Option IndexEntryHeader

-- `IndexEntryDecodeIter::new`
abbrev pub new : {I : Type 0} → I → IndexEntryDecodeIter I
new input = record { input = input; header = none }

unfoldable pub decode_header : Bytes → Run IndexEntryHeader
decode_header [] = err invalid_value
decode_header (version ∷ payload) =
    if not (version == index_value_version)
    then err invalid_value
    else if not (length (version ∷ payload) == 1 + position_len)
    then err invalid_value
    else ok (record { format_version = version; payload_start = 1 })

-- `Position::from` on the payload of an index entry
unfoldable pub position_of : Bytes → Run Position
position_of b = do assert (length b == position_len); ok (record { offset = from_be b })

module _ {I : Type 0} (ops : Iter I Bytes) where
  -- `ok_or_else` on the value of a valid input
  abbrev pub header_of : Option Bytes → Run IndexEntryHeader
  header_of none = err invalid_value
  header_of (some v) = decode_header v

  unfoldable pub refresh : I → Run (IndexEntryDecodeIter I)
  refresh input =
      if not (ops.valid input)
      then ok (record { input = input; header = none })
      else do v ← ops.value input; h ← header_of v; ok (record { input = input; header = some h })

  unfoldable pub valid : IndexEntryDecodeIter I → Bool
  valid s = ops.valid s.input

  unfoldable pub key : IndexEntryDecodeIter I → Run (Option Bytes)
  key s = ops.key s.input

  -- the payload of a value under its header
  abbrev pub payload_of : Option Bytes → Option IndexEntryHeader → Run (Option Bytes)
  payload_of none h = ok none
  payload_of (some v) none = ok none
  payload_of (some v) (some h) = do payload ← slice_from v h.payload_start; ok (some payload)

  unfoldable pub value : IndexEntryDecodeIter I → Run (Option Bytes)
  value s =
      if not (ops.valid s.input) then ok none else do v ← ops.value s.input; payload_of v s.header

  unfoldable pub seek_to_first : IndexEntryDecodeIter I → Run (IndexEntryDecodeIter I)
  seek_to_first s = do input ← ops.seek_to_first s.input; refresh input

  -- `seek`, and `seek_lower_bound` over the forward methods of the input
  unfoldable pub seek : IndexEntryDecodeIter I → Bytes → Run (IndexEntryDecodeIter I)
  seek s target = do input ← ops.seek s.input target; refresh input

  unfoldable pub next : IndexEntryDecodeIter I → Run (IndexEntryDecodeIter I)
  next s = do input ← ops.next s.input; refresh input

  abbrev pub index_entries : Iter (IndexEntryDecodeIter I) Bytes
  index_entries = record {
    valid = valid;
    key = key;
    value = value;
    seek_to_first = seek_to_first;
    seek = seek;
    next = next;
  }
