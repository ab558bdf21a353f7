-- ===== src/Iterators/DataEntryDecode.antt =====
-- crates/storage/src/iterators/data_entry_decode_iter.rs: `DataEntryDecodeIter`, over any iterator
-- of raw values. The impls of both directions have the same text.
pub mod Scans
use todb.Prelude.{
  ℕ, Bool, not, List, [], ◌∷◌, Option, none, some, Run, ok, err, invalid_value, ◌>>=◌, ◌==◌, ltb,
  length, if◌then◌else◌,
}
use todb.Bytes.{Bytes, slice_from}
use todb.Builder.DataBlock.{data_entry_version}
use todb.Iterators.Traits.{Iter}

pub data EntryKind : Type 0 where
  put_kind delete_kind : EntryKind

pub record EntryHeader : Type 0 where
  pub entry_kind : EntryKind
  pub payload_start : ℕ

-- `EntryValue`
pub data EntryValue : Type 0 where
  put : Bytes → EntryValue
  delete : EntryValue

pub record DataEntryDecodeIter (I : Type 0) : Type 0 where
  pub input : I
  pub entry_header : Option EntryHeader

-- the `match buf[1]`
abbrev pub kind_of : ℕ → Run EntryKind
kind_of b = if b == 0 then ok put_kind else if b == 1 then ok delete_kind else err invalid_value

unfoldable pub decode_entry_header : Bytes → Run EntryHeader
decode_entry_header [] = err invalid_value
decode_entry_header (version ∷ []) = err invalid_value
decode_entry_header (version ∷ kind ∷ payload) =
    if not (version == data_entry_version)
    then err invalid_value
    else do k ← kind_of kind; ok (record { entry_kind = k; payload_start = 2 })

-- the `match entry_header.entry_kind`
abbrev pub entry_value_of : EntryKind → Bytes → EntryValue
entry_value_of put_kind payload = put payload
entry_value_of delete_kind payload = delete

module _ {I : Type 0} (ops : Iter I Bytes) where
  -- `ok_or_else` on the value of a valid input
  abbrev pub header_of : Option Bytes → Run EntryHeader
  header_of none = err invalid_value
  header_of (some v) = decode_entry_header v

  -- `refresh`, of an input that has just moved
  unfoldable pub refresh : I → Run (DataEntryDecodeIter I)
  refresh input =
      if not (ops.valid input) then ok (record { input = input; entry_header = none }) else do
        v ← ops.value input
        h ← header_of v
        ok (record { input = input; entry_header = some h })

  unfoldable pub decode_valid : DataEntryDecodeIter I → Bool
  decode_valid s = ops.valid s.input

  unfoldable pub decode_key : DataEntryDecodeIter I → Run (Option Bytes)
  decode_key s = ops.key s.input

  -- the payload of a value under its header
  abbrev pub payload_of : Option Bytes → Option EntryHeader → Run (Option EntryValue)
  payload_of none h = ok none
  payload_of (some v) none = ok none
  payload_of (some v) (some h) = do
    payload ← slice_from v h.payload_start
    ok (some (entry_value_of h.entry_kind payload))

  unfoldable pub decode_value : DataEntryDecodeIter I → Run (Option EntryValue)
  decode_value s =
      if not (ops.valid s.input)
      then ok none
      else do v ← ops.value s.input; payload_of v s.entry_header

  unfoldable pub decode_seek_to_first : DataEntryDecodeIter I → Run (DataEntryDecodeIter I)
  decode_seek_to_first s = do input ← ops.seek_to_first s.input; refresh input

  unfoldable pub decode_seek : DataEntryDecodeIter I → Bytes → Run (DataEntryDecodeIter I)
  decode_seek s target = do input ← ops.seek s.input target; refresh input

  unfoldable pub decode_next : DataEntryDecodeIter I → Run (DataEntryDecodeIter I)
  decode_next s = do input ← ops.next s.input; refresh input

  abbrev pub decode_entries : Iter (DataEntryDecodeIter I) EntryValue
  decode_entries = record {
    valid = decode_valid;
    key = decode_key;
    value = decode_value;
    seek_to_first = decode_seek_to_first;
    seek = decode_seek;
    next = decode_next;
  }
