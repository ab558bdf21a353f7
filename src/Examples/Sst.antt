-- ===== src/Examples/Sst.antt =====
-- Small files, and a flush.
use todb.Prelude.{
  ◌<◌, ◌≡◌, ◌≢◌, refl, Bool, true, false, [], ◌∷◌, ◌++◌, some, Run, ok, err, panic, no_fuel, arith,
}
use todb.Bytes.{Bytes, resize, be_bytes, le_bytes, slice, slice_from, from_le, from_be}
use todb.Bytes.Order.{lt_bytes}
use todb.Builder.Layout.{push_offsets, advance_offset, extend_u32s, extend_all}
use todb.Builder.DataBlock.{SstOption}
use todb.Builder.DataBlock
use todb.Builder.IndexBlock
use todb.Builder.Footer.{SstFooter}
use todb.Builder.Footer
use todb.Builder.Footer.RoundTrip.{FitsFooter}
use todb.Builder.Sst.{SstBuilder}
use todb.Builder.Sst
use todb.Builder.Sst.Levels.{operations_end}
use todb.Block.{InMemoryBlockReader, DefaultSstWriter}
use todb.Block
use todb.Iterators.BlockIter.Scans.{block_forward}
use todb.Iterators.BlockIter
use todb.Iterators.IndexEntryDecode
use todb.Iterators.DataEntryDecode
use todb.Iterators.IndexTree
use todb.Iterators.Sst.{SstIter}
use todb.Iterators.Sst as SstScan
use todb.Iterators.Sst.Stale.{sst_second_seek-loses}
use todb.Lsm.Disk.{read_footer}
use todb.Lsm.Disk.Tail.{finish-read_footer}

abbrev pub or_value : {A : Type 0} → A → Run A → A
or_value d (ok a) = a
or_value d (err e) = d
or_value d panic = d
or_value d no_fuel = d

abbrev pub is_ok : {A : Type 0} → Run A → Bool
is_ok (ok a) = true
is_ok (err e) = false
is_ok panic = false
is_ok no_fuel = false

pub or_value-ok : {A : Type 0} (d : A) (m : Run A) → is_ok m ≡ true → m ≡ ok (or_value d m)
or_value-ok d (ok a) h = refl
or_value-ok d (err e) h = cc h
or_value-ok d panic h = cc h
or_value-ok d no_fuel h = cc h

abbrev pub option : SstOption
option = record { block_size = 64 }

abbrev pub writer : DefaultSstWriter
writer = record { inner = Block.new; option = option }

-- with an entry in the block that is being filled
abbrev pub builder : SstBuilder
builder = record {
  writer = writer;
  data_builder = record {
    option = option;
    entries = DataBlock.put (5 ∷ []) (7 ∷ []) ∷ [];
    estimated_size = 12;
  };
  index_builders = [];
  option = option;
  first_key = some (5 ∷ []);
  last_key = some (5 ∷ []);
}

operations_end_example :
    (Sst.add builder (6 ∷ []) (8 ∷ []) ≢ no_fuel)
    × (Sst.add_delete builder (6 ∷ []) ≢ no_fuel)
    × (Sst.finish builder ≢ no_fuel)
operations_end_example = operations_end builder (6 ∷ []) (8 ∷ [])

abbrev pub blank_footer : SstFooter
blank_footer = record {
  root_index_block_position = record { offset = 0 };
  tree_height = 0;
  first_key = [];
  last_key = [];
}

pub finished : SstFooter × DefaultSstWriter
finished = or_value (blank_footer, writer) (Sst.finish builder)

finishes : is_ok (Sst.finish builder) ≡ true
unfolding Sst.finish Sst.flush_data_block Block.sst_write_block DataBlock.finish resize
    DataBlock.encode be_bytes extend_u32s push_offsets extend_all Sst.add_index_entry Sst.grown
    IndexBlock.would_exceed Sst.push_index_entry IndexBlock.add Sst.flush_levels Sst.flush_level
    Sst.flush_index_block Block.sst_write_footer Block.write_block Footer.encode Footer.footer_body
    IndexBlock.encode IndexBlock.finish advance_offset Sst.flush_top Sst.footer_of Sst.root_position
    Sst.top_is_wide le_bytes
finishes = refl

pub finish_ok : Sst.finish builder ≡ ok (finished.0, finished.1)
unfolding finished
finish_ok = or_value-ok (blank_footer, writer) (Sst.finish builder) finishes

pub finish_fits : FitsFooter finished.0
unfolding finished Sst.finish Sst.flush_data_block Block.sst_write_block DataBlock.finish resize
    DataBlock.encode be_bytes extend_u32s push_offsets extend_all Sst.add_index_entry Sst.grown
    IndexBlock.would_exceed Sst.push_index_entry IndexBlock.add Sst.flush_levels Sst.flush_level
    Sst.flush_index_block Block.sst_write_footer Block.write_block Footer.encode Footer.footer_body
    IndexBlock.encode IndexBlock.finish advance_offset Sst.flush_top Sst.footer_of Sst.root_position
    Sst.top_is_wide le_bytes
finish_fits = (omega arith, omega arith, omega arith)

finish-read_footer_example : read_footer finished.1.inner.buf ≡ ok finished.0
finish-read_footer_example = finish-read_footer builder finished.0 finished.1 finish_ok finish_fits

-- a file with an index of three levels: a data block, its index block, and the root over it
abbrev file : Bytes
file =
    (DataBlock.finish (record builder.data_builder { option = option })).0
    ++ ((IndexBlock.finish (record {
      option = option;
      entries = record { end_key = 5 ∷ []; child = record { offset = 0 } } ∷ [];
      estimated_size = 18;
    })).0
        ++ (IndexBlock.finish (record {
          option = option;
          entries = record { end_key = 5 ∷ []; child = record { offset = 64 } } ∷ [];
          estimated_size = 18;
        })).0)

abbrev tall : SstIter
tall =
    SstScan.new (record { buf = file; block_size = 64 })
      (record {
        root_index_block_position = record { offset = 128 };
        tree_height = 3;
        first_key = 5 ∷ [];
        last_key = 5 ∷ [];
      })
      option

found : SstIter
found = or_value tall (SstScan.seek block_forward tall (3 ∷ []))

finds : is_ok (SstScan.seek block_forward tall (3 ∷ [])) ≡ true
unfolding SstScan.new SstScan.seek IndexTree.locate IndexTree.from_root IndexTree.new IndexTree.load
    Block.read_block IndexTree.reset DataBlock.finish resize DataBlock.encode be_bytes extend_u32s
    push_offsets extend_all IndexBlock.finish IndexBlock.encode slice BlockIter.new advance_offset
    from_be from_le le_bytes slice_from lt_bytes BlockIter.between BlockIter.index BlockIter.key
    BlockIter.next BlockIter.parse_offsets BlockIter.search BlockIter.seek BlockIter.seek_to_first
    BlockIter.value DataEntryDecode.decode_entry_header DataEntryDecode.decode_key
    DataEntryDecode.decode_next DataEntryDecode.decode_seek DataEntryDecode.decode_seek_to_first
    DataEntryDecode.decode_valid DataEntryDecode.decode_value DataEntryDecode.refresh
    IndexEntryDecode.decode_header IndexEntryDecode.key IndexEntryDecode.next
    IndexEntryDecode.position_of IndexEntryDecode.refresh IndexEntryDecode.seek
    IndexEntryDecode.seek_to_first IndexEntryDecode.valid IndexEntryDecode.value IndexTree.descend
    IndexTree.last_index_level IndexTree.load_child IndexTree.not_found IndexTree.push_iter
    IndexTree.valid IndexTree.value SstScan.enter SstScan.load_data_block_from_index
finds = refl

found_valid : SstScan.valid block_forward found ≡ true
unfolding found SstScan.valid SstScan.new SstScan.seek IndexTree.locate IndexTree.from_root
    IndexTree.new IndexTree.load Block.read_block IndexTree.reset DataBlock.finish resize
    DataBlock.encode be_bytes extend_u32s push_offsets extend_all IndexBlock.finish
    IndexBlock.encode slice BlockIter.new advance_offset from_be from_le le_bytes slice_from
    lt_bytes BlockIter.between BlockIter.index BlockIter.key BlockIter.next BlockIter.parse_offsets
    BlockIter.search BlockIter.seek BlockIter.seek_to_first BlockIter.value
    DataEntryDecode.decode_entry_header DataEntryDecode.decode_key DataEntryDecode.decode_next
    DataEntryDecode.decode_seek DataEntryDecode.decode_seek_to_first DataEntryDecode.decode_valid
    DataEntryDecode.decode_value DataEntryDecode.refresh IndexEntryDecode.decode_header
    IndexEntryDecode.key IndexEntryDecode.next IndexEntryDecode.position_of IndexEntryDecode.refresh
    IndexEntryDecode.seek IndexEntryDecode.seek_to_first IndexEntryDecode.valid
    IndexEntryDecode.value IndexTree.descend IndexTree.last_index_level IndexTree.load_child
    IndexTree.not_found IndexTree.push_iter IndexTree.valid IndexTree.value SstScan.enter
    SstScan.load_data_block_from_index
found_valid = refl

again : SstIter
again = or_value tall (SstScan.seek block_forward found (5 ∷ []))

seeks_again : is_ok (SstScan.seek block_forward found (5 ∷ [])) ≡ true
unfolding found SstScan.new SstScan.seek IndexTree.locate IndexTree.from_root IndexTree.new
    IndexTree.load Block.read_block IndexTree.reset DataBlock.finish resize DataBlock.encode
    be_bytes extend_u32s push_offsets extend_all IndexBlock.finish IndexBlock.encode slice
    BlockIter.new advance_offset from_be from_le le_bytes slice_from lt_bytes BlockIter.between
    BlockIter.index BlockIter.key BlockIter.next BlockIter.parse_offsets BlockIter.search
    BlockIter.seek BlockIter.seek_to_first BlockIter.value DataEntryDecode.decode_entry_header
    DataEntryDecode.decode_key DataEntryDecode.decode_next DataEntryDecode.decode_seek
    DataEntryDecode.decode_seek_to_first DataEntryDecode.decode_valid DataEntryDecode.decode_value
    DataEntryDecode.refresh IndexEntryDecode.decode_header IndexEntryDecode.key
    IndexEntryDecode.next IndexEntryDecode.position_of IndexEntryDecode.refresh
    IndexEntryDecode.seek IndexEntryDecode.seek_to_first IndexEntryDecode.valid
    IndexEntryDecode.value IndexTree.descend IndexTree.last_index_level IndexTree.load_child
    IndexTree.not_found IndexTree.push_iter IndexTree.valid IndexTree.value SstScan.enter
    SstScan.load_data_block_from_index
seeks_again = refl

found_ok : SstScan.seek block_forward tall (3 ∷ []) ≡ ok found
unfolding found
found_ok = or_value-ok tall (SstScan.seek block_forward tall (3 ∷ [])) finds

again_ok : SstScan.seek block_forward found (5 ∷ []) ≡ ok again
unfolding again
again_ok = or_value-ok tall (SstScan.seek block_forward found (5 ∷ [])) seeks_again

starts_at_root : tall.index_iter.curr_iter_idx ≡ 0
unfolding SstScan.new IndexTree.new
starts_at_root = refl

is_tall : 2 < tall.index_iter.tree_height
unfolding SstScan.new IndexTree.new
is_tall = omega arith

sst_second_seek-loses_example : SstScan.valid block_forward again ≡ false
sst_second_seek-loses_example =
    sst_second_seek-loses block_forward tall found again (3 ∷ []) (5 ∷ []) starts_at_root is_tall
      found_ok found_valid again_ok
