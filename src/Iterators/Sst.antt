-- ===== src/Iterators/Sst.antt =====
-- crates/storage/src/iterators/sst_iter.rs: `SstIter`, the entries of a whole file.
--
-- `raw` are the block iterator methods of the direction. The reverse `seek` walks to earlier blocks
-- and takes a round of fuel more than the file has bytes.
pub mod Stale
use todb.Prelude.{
  ℕ, zero, suc, Bool, true, false, Option, none, some, Run, ok, err, no_fuel, invalid_value, ◌>>=◌,
  length,
}
use todb.Bytes.{Bytes}
use todb.Builder.DataBlock.{SstOption}
use todb.Builder.IndexBlock.{Position}
use todb.Builder.Footer.{SstFooter}
use todb.Block.{InMemoryBlockReader, read_block}
use todb.Iterators.Traits.{Iter}
use todb.Iterators.BlockIter.{NormalBlockIter}
use todb.Iterators.BlockIter
use todb.Iterators.DataEntryDecode.{DataEntryDecodeIter, EntryValue, decode_entries}
use todb.Iterators.IndexTree.{IndexTreeIter, reverse_seek}
use todb.Iterators.IndexTree

abbrev pub DataIter : Type 0
DataIter = DataEntryDecodeIter NormalBlockIter

pub record SstIter : Type 0 where
  pub reader : InMemoryBlockReader
  pub option : SstOption
  pub index_iter : IndexTreeIter
  pub data_iter : Option DataIter

unfoldable pub new : InMemoryBlockReader → SstFooter → SstOption → SstIter
new reader footer option = record {
  reader = reader;
  option = option;
  index_iter = IndexTree.new reader footer option;
  data_iter = none;
}

-- `ok_or_else` on the position of a valid index
abbrev pub position_or_err : Option Position → Run Position
position_or_err none = err invalid_value
position_or_err (some p) = ok p

module _ (raw : Iter NormalBlockIter Bytes) where
  abbrev pub rows : Iter DataIter EntryValue
  rows = decode_entries raw

  unfoldable pub load_data_block_from_index : SstIter → Run DataIter
  load_data_block_from_index s = do
    p ← IndexTree.value raw s.index_iter
    p ← position_or_err p
    block ← read_block s.reader p
    it ← BlockIter.new block
    ok (record { input = it; entry_header = none })

  unfoldable pub valid : SstIter → Bool
  valid s = elim s.data_iter [ none ↦ false | some d ↦ rows.valid d ]

  unfoldable pub key : SstIter → Run (Option Bytes)
  key s = elim s.data_iter [ none ↦ ok none | some d ↦ rows.key d ]

  unfoldable pub value : SstIter → Run (Option EntryValue)
  value s = elim s.data_iter [ none ↦ ok none | some d ↦ rows.value d ]

  -- the data block of the index entry, moved by `move`
  unfoldable pub enter : (DataIter → Run DataIter) → SstIter → Run SstIter
  enter move s = do
    d ← load_data_block_from_index s
    d ← move d
    ok (record s { data_iter = some d })

  -- with no entry in the index the data iterator stays what it was
  unfoldable pub seek_to_first : SstIter → Run SstIter
  seek_to_first s = do
    index ← IndexTree.seek_to_first raw s.index_iter
    let s = record s { index_iter = index }
    elim (IndexTree.valid raw index) [ false ↦ ok s | true ↦ enter rows.seek_to_first s ]

  -- the forward `seek`
  unfoldable pub seek : SstIter → Bytes → Run SstIter
  seek s target = do
    index ← IndexTree.locate raw s.index_iter target
    let s = record s { index_iter = index }
    elim (IndexTree.valid raw index) [
      | false ↦ ok (record s { data_iter = none })
      | true ↦ enter (λ d. rows.seek d target) s
    ]

  -- the loop of the reverse `seek`
  unfoldable pub seek_back : ℕ → Bytes → SstIter → Run SstIter
  seek_back zero target s = no_fuel
  seek_back (suc fuel) target s = elim (IndexTree.valid raw s.index_iter) [
    | false ↦ ok (record s { data_iter = none })
    | true ↦ do
      d ← load_data_block_from_index s
      d ← rows.seek d target
      elim (rows.valid d) [
        | true ↦ ok (record s { data_iter = some d })
        | false ↦ do
          index ← IndexTree.next raw s.index_iter
          seek_back fuel target (record s { index_iter = index })
      ]
  ]

  -- the reverse `seek`
  unfoldable pub rev_seek : SstIter → Bytes → Run SstIter
  rev_seek s target = do
    index ← reverse_seek raw s.index_iter target
    seek_back (suc (length s.reader.buf)) target (record s { index_iter = index })

  -- the end of `next`, in a block that `d` has left
  unfoldable pub next_block : SstIter → Run SstIter
  next_block s = do
    index ← IndexTree.next raw s.index_iter
    let s = record s { index_iter = index }
    elim (IndexTree.valid raw index) [ false ↦ ok s | true ↦ enter rows.seek_to_first s ]

  unfoldable pub next : SstIter → Run SstIter
  next s = elim s.data_iter [
    | none ↦ ok s
    | some d ↦ do
      d ← rows.next d
      let s = record s { data_iter = some d }
      elim (rows.valid d) [ true ↦ ok s | false ↦ next_block s ]
  ]

  -- `SstIter` as a forward iterator
  abbrev pub sst_forward : Iter SstIter EntryValue
  sst_forward = record {
    valid = valid;
    key = key;
    value = value;
    seek_to_first = seek_to_first;
    seek = seek;
    next = next;
  }

  -- and as a reverse one
  abbrev pub sst_reverse : Iter SstIter EntryValue
  sst_reverse = record {
    valid = valid;
    key = key;
    value = value;
    seek_to_first = seek_to_first;
    seek = rev_seek;
    next = next;
  }
