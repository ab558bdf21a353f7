-- ===== src/Examples/Blocks.antt =====
-- Two data blocks of 64 bytes, read in both directions and merged.
use todb.Builder.DataBlock
use todb.Builder.DataBlock.ExactFit.{would_exceed-add_exact}
use todb.Prelude.{
  false, panic, ℕ, ◌+◌, ◌≤◌, ◌<◌, ◌≡◌, refl, List, [], ◌∷◌, ◌++◌, reverse, map, length, none, ok,
  arith, ltb,
}
use todb.Bytes.{Bytes, u32_mod, le_bytes, be_bytes}
use todb.Bytes.Order.{lt_bytes, le_bytes?}
use todb.Builder.Layout.{sum, push_offsets, advance_offset, extend_u32s, extend_all}
use todb.Builder.DataBlock.{
  SstOption, put, delete, DataBlockBuilder, encode, finish, would_exceed, add, add_delete,
}
use todb.Builder.DataBlock.Size.{Grown, start, put_next, delete_next, encode-fits}
use todb.Iterators.Traits.{forward, backward, skip_to, InOrder, ScanOrder-forward}
use todb.Iterators.Drain.{scan_all, scan_from}
use todb.Iterators.BlockIter.{NormalBlockIter, new, at, seek, rev_seek, then_some, checked_pred}
use todb.Iterators.BlockIter.RoundTrip.{parsed, block_of, Reads-parsed}
use todb.Iterators.BlockIter.Search.{IsSorted, Splits, seek-lower_bound, rev_seek-upper_bound}
use todb.Iterators.BlockIter.Ascending.{IsAscending-IsSorted}
use todb.Iterators.BlockIter.Scans.{block_forward, block_reverse}
use todb.Iterators.DataEntryDecode.{EntryValue, DataEntryDecodeIter, decode_entries}
use todb.Iterators.DataBlockRoundTrip.{
  decoded, decoder, keys_of, iterator, reads_forward, Good-forward, finish-scan_all,
  finish-scan_from,
}
use todb.Iterators.Concat.{ConcatIter, concat_iter}
use todb.Iterators.Concat.Scans.{Part, concat, AllGood, concat_iter-scan}
use todb.Iterators.TwoMerge.{TwoMergeIter, two_merge}
use todb.Iterators.TwoMerge.Versions.{versions, prefer}
use todb.Iterators.TwoMerge.Clients.{two_merge-scan_all, two_merge-scan_from}

abbrev opt : SstOption
opt = record { block_size = 64 }

abbrev newer : DataBlockBuilder
newer = record {
  option = opt;
  entries = put (1 ∷ []) (10 ∷ []) ∷ delete (2 ∷ []) ∷ [];
  estimated_size = 23;
}

abbrev older : DataBlockBuilder
older = record {
  option = opt;
  entries = put (2 ∷ []) (20 ∷ []) ∷ put (3 ∷ []) (30 ∷ []) ∷ [];
  estimated_size = 24;
}

newer-IsSorted : IsSorted (keys_of newer.entries)
unfolding lt_bytes
newer-IsSorted = IsAscending-IsSorted (keys_of newer.entries) ((refl, tt), (tt, tt))

older-IsSorted : IsSorted (keys_of older.entries)
unfolding lt_bytes
older-IsSorted = IsAscending-IsSorted (keys_of older.entries) ((refl, tt), (tt, tt))

fits_newer : length (encode newer.entries) ≤ 64
unfolding encode push_offsets advance_offset extend_u32s extend_all be_bytes le_bytes
fits_newer = omega arith

fits_older : length (encode older.entries) ≤ 64
unfolding encode push_offsets advance_offset extend_u32s extend_all be_bytes le_bytes
fits_older = omega arith

small : 64 < u32_mod
small = omega arith

newer-Grown : Grown opt newer
unfolding would_exceed add add_delete
newer-Grown = delete_next (2 ∷ []) (put_next (1 ∷ []) (10 ∷ []) start refl refl) refl refl

encode-fits_example :
    (length (encode newer.entries) ≡ 12 + 23) × (length (encode newer.entries) ≤ 64)
encode-fits_example = encode-fits opt newer newer-Grown (omega arith)

finish-scan_all_example :
    (it : NormalBlockIter) × (new ((finish newer).0) ≡ ok it)
    × (scan_all (decode_entries block_forward) 3 (decoder it) ≡ ok (map decoded newer.entries))
    × (scan_all (decode_entries block_reverse) 3 (decoder it)
        ≡ ok (reverse (map decoded newer.entries)))
finish-scan_all_example = finish-scan_all newer newer-IsSorted fits_newer small 3 (omega arith)

finish-scan_from_example :
    (it : NormalBlockIter) × (new ((finish newer).0) ≡ ok it)
    × (scan_from (decode_entries block_forward) 3 (2 ∷ []) (decoder it)
        ≡ ok (skip_to forward (2 ∷ []) (map decoded newer.entries)))
    × (scan_from (decode_entries block_reverse) 3 (2 ∷ []) (decoder it)
        ≡ ok (skip_to backward (2 ∷ []) (reverse (map decoded newer.entries))))
finish-scan_from_example =
    finish-scan_from newer newer-IsSorted fits_newer small 3 (omega arith) (2 ∷ [])

abbrev keys : List Bytes
keys = (1 ∷ []) ∷ (4 ∷ []) ∷ []

abbrev values : List Bytes
values = (7 ∷ []) ∷ (8 ∷ []) ∷ []

abbrev block_iter : NormalBlockIter
block_iter = parsed (block_of keys values ++ []) keys values

keys-IsSorted : IsSorted keys
unfolding lt_bytes
keys-IsSorted = IsAscending-IsSorted keys ((refl, tt), (tt, tt))

seek-lower_bound_example :
    (n : ℕ) × (seek block_iter (3 ∷ []) ≡ ok (at block_iter (then_some (ltb n 2) n)))
    × Splits (λ k. lt_bytes k (3 ∷ [])) keys n
unfolding sum
seek-lower_bound_example =
    seek-lower_bound block_iter keys values (3 ∷ [])
      (Reads-parsed keys values [] refl (omega arith)) keys-IsSorted

rev_seek-upper_bound_example :
    (n : ℕ) × (rev_seek block_iter (3 ∷ []) ≡ ok (at block_iter (checked_pred n)))
    × Splits (λ k. le_bytes? k (3 ∷ [])) keys n
unfolding sum
rev_seek-upper_bound_example =
    rev_seek-upper_bound block_iter keys values (3 ∷ [])
      (Reads-parsed keys values [] refl (omega arith)) keys-IsSorted

abbrev merged :
    TwoMergeIter (DataEntryDecodeIter NormalBlockIter) (DataEntryDecodeIter NormalBlockIter)
merged = record {
  a = decoder (iterator newer newer-IsSorted fits_newer small);
  b = decoder (iterator older older-IsSorted fits_older small);
  current = none;
}

two_merge-scan_all_example :
    (zs : List (Bytes × EntryValue)) × (scan_all
        (two_merge (decode_entries block_forward) (decode_entries block_forward) forward 3)
        5
        merged
      ≡ ok zs)
    × InOrder forward zs
    × (versions (2 ∷ []) zs
        ≡ prefer
            (versions (2 ∷ []) (map decoded newer.entries))
            (versions (2 ∷ []) (map decoded older.entries)))
unfolding lt_bytes
two_merge-scan_all_example =
    two_merge-scan_all (decode_entries block_forward) (decode_entries block_forward) forward
      ScanOrder-forward 3 5 (map decoded newer.entries) (map decoded older.entries)
      (reads_forward newer newer-IsSorted fits_newer small)
      (reads_forward older older-IsSorted fits_older small) ((refl, tt), (tt, tt))
      ((refl, tt), (tt, tt)) (omega arith) (omega arith) merged
      (Good-forward newer newer-IsSorted fits_newer small)
      (Good-forward older older-IsSorted fits_older small) (2 ∷ [])

two_merge-scan_from_example :
    (zs : List (Bytes × EntryValue)) × (scan_all
        (two_merge (decode_entries block_forward) (decode_entries block_forward) forward 3)
        5
        merged
      ≡ ok zs)
    × (scan_from
          (two_merge (decode_entries block_forward) (decode_entries block_forward) forward 3)
          5
          (3 ∷ [])
          merged
        ≡ ok (skip_to forward (3 ∷ []) zs))
unfolding lt_bytes
two_merge-scan_from_example =
    two_merge-scan_from (decode_entries block_forward) (decode_entries block_forward) forward
      ScanOrder-forward 3 5 (map decoded newer.entries) (map decoded older.entries)
      (reads_forward newer newer-IsSorted fits_newer small)
      (reads_forward older older-IsSorted fits_older small) ((refl, tt), (tt, tt))
      ((refl, tt), (tt, tt)) (omega arith) (omega arith) merged
      (Good-forward newer newer-IsSorted fits_newer small)
      (Good-forward older older-IsSorted fits_older small) (3 ∷ [])

abbrev tiny : SstOption
tiny = record { block_size = 24 }

would_exceed-add_exact_example :
    (would_exceed (DataBlock.new tiny) (1 ∷ []) (2 ∷ []) ≡ false)
    × (add (DataBlock.new tiny) (1 ∷ []) (2 ∷ []) ≡ panic)
would_exceed-add_exact_example = would_exceed-add_exact tiny (1 ∷ []) (2 ∷ []) refl

abbrev parts : List (Part (decode_entries block_forward) forward)
parts =
    (map decoded newer.entries, reads_forward newer newer-IsSorted fits_newer small)
    ∷ (map decoded older.entries, reads_forward older older-IsSorted fits_older small)
    ∷ []

abbrev chained : ConcatIter (DataEntryDecodeIter NormalBlockIter)
chained = record { iter = merged.a ∷ merged.b ∷ []; curr = 0 }

chained-AllGood : AllGood (decode_entries block_forward) forward chained.iter parts
unfolding AllGood
chained-AllGood = (
  Good-forward newer newer-IsSorted fits_newer small,
  (Good-forward older older-IsSorted fits_older small, tt),
)

parts_short : length (concat (decode_entries block_forward) forward parts) < 5
unfolding concat
parts_short = omega arith

concat_iter-scan_example :
    (scan_all (concat_iter (decode_entries block_forward)) 5 chained
      ≡ ok (concat (decode_entries block_forward) forward parts))
    × (scan_from (concat_iter (decode_entries block_forward)) 5 (3 ∷ []) chained
        ≡ ok (skip_to forward (3 ∷ []) (concat (decode_entries block_forward) forward parts)))
concat_iter-scan_example =
    concat_iter-scan (decode_entries block_forward) forward parts chained 5 (3 ∷ []) chained-AllGood
      parts_short
