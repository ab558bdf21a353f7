-- ===== src/Examples/Tables.antt =====
-- An index block of 128 bytes, and a footer.
use todb.Prelude.{◌++◌, ◌≤◌, ◌≡◌, refl, ok, [], ◌∷◌, map, reverse, length, arith}
use todb.Bytes.{Bytes, slice, slice_from, be_bytes, le_bytes}
use todb.Bytes.Order.{lt_bytes}
use todb.Builder.Layout.{push_offsets, advance_offset, extend_u32s, extend_all}
use todb.Builder.IndexBlock.{Position, IndexEntry, IndexBlockBuilder, finish}
use todb.Builder.IndexBlock
use todb.Wal.IndexWriter.{footer_block}
use todb.Wal.IndexWriter.Footer.{footer_block-decode}
use todb.Builder.Footer.{footer_body, SstFooter, encode, decode}
use todb.Builder.Footer.RoundTrip.{Answers, decode-Answers}
use todb.Iterators.Traits.{forward, backward, skip_to}
use todb.Iterators.Drain.{scan_all, scan_from}
use todb.Iterators.BlockIter.{NormalBlockIter}
use todb.Iterators.BlockIter
use todb.Iterators.BlockIter.Scans.{block_forward, block_reverse}
use todb.Iterators.BlockIter.Search.{IsSorted}
use todb.Iterators.BlockIter.Ascending.{IsAscending-IsSorted}
use todb.Iterators.IndexEntryDecode.{index_entries}
use todb.Iterators.IndexEntryDecode
use todb.Iterators.IndexBlockRoundTrip.{child_of, end_keys, index_finish-scan}

abbrev tree_level : IndexBlockBuilder
tree_level = record {
  option = record { block_size = 128 };
  entries =
      record { end_key = 1 ∷ []; child = record { offset = 0 } }
      ∷ record { end_key = 5 ∷ []; child = record { offset = 128 } }
      ∷ [];
  estimated_size = 36;
}

tree_level-IsSorted : IsSorted (end_keys tree_level.entries)
unfolding lt_bytes
tree_level-IsSorted = IsAscending-IsSorted (end_keys tree_level.entries) ((refl, tt), (tt, tt))

fits : length (IndexBlock.encode tree_level.entries) ≤ 128
unfolding IndexBlock.encode push_offsets advance_offset extend_u32s extend_all be_bytes le_bytes
fits = omega arith

index_finish-scan_example :
    (it : NormalBlockIter) × (BlockIter.new ((finish tree_level).0) ≡ ok it)
    × (scan_all (index_entries block_forward) 3 (IndexEntryDecode.new it)
        ≡ ok (map child_of tree_level.entries))
    × (scan_all (index_entries block_reverse) 3 (IndexEntryDecode.new it)
        ≡ ok (reverse (map child_of tree_level.entries)))
    × (scan_from (index_entries block_forward) 3 (3 ∷ []) (IndexEntryDecode.new it)
        ≡ ok (skip_to forward (3 ∷ []) (map child_of tree_level.entries)))
    × (scan_from (index_entries block_reverse) 3 (3 ∷ []) (IndexEntryDecode.new it)
        ≡ ok (skip_to backward (3 ∷ []) (reverse (map child_of tree_level.entries))))
index_finish-scan_example =
    index_finish-scan tree_level tree_level-IsSorted fits (omega arith) 3 (omega arith) (3 ∷ [])

abbrev footer : SstFooter
footer = record {
  root_index_block_position = record { offset = 256 };
  tree_height = 3;
  first_key = 1 ∷ [];
  last_key = 9 ∷ 9 ∷ [];
}

decode-Answers_example : Answers (decode (1 ∷ 2 ∷ 3 ∷ 4 ∷ 5 ∷ []))
decode-Answers_example = decode-Answers (1 ∷ 2 ∷ 3 ∷ 4 ∷ 5 ∷ [])

footer_fits : length (encode footer) ≤ 64
unfolding encode footer_body be_bytes le_bytes
footer_fits = omega arith

footer_block-decode_example :
    (block body trailer : Bytes) × (encode footer ≡ body ++ trailer)
    × (length trailer ≡ 4)
    × (footer_block 64 (encode footer) ≡ ok block)
    × (slice block 0 (length body) ≡ ok body)
    × (slice_from block 60 ≡ ok trailer)
    × (decode (body ++ trailer) ≡ ok footer)
footer_block-decode_example =
    footer_block-decode 64 footer (omega arith, omega arith, omega arith) footer_fits
