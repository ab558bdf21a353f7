-- ===== src/Iterators/DataBlockRoundTrip.antt =====
-- A data block that the builder finishes, read back by the decoding block iterator
-- (crates/storage/src/builder/data_block.rs, crates/storage/src/iterators/block_iter.rs,
-- crates/storage/src/iterators/data_entry_decode_iter.rs).
use mathlib.Core.List.{reverse-append}
use todb.Prelude.{
  ℕ, ◌+◌, ◌-◌, ◌≤◌, ◌<◌, ◌≡◌, refl, sym, ap, ap₂, ◌∙◌, List, [], ◌∷◌, ◌++◌, reverse, map, length,
  replicate, none, ok, arith, length-map, length-reverse,
}
use todb.Bytes.{Bytes, u32_mod, resize-append}
use todb.Builder.Layout.{sum}
use todb.Builder.DataBlock.{
  BlockEntry, entry_key, value_len, envelope, envelope_len, DataBlockBuilder, encode, finish,
}
use todb.Iterators.Traits.{Scans, forward, backward, skip_to}
use todb.Iterators.Drain.{scan_all, scan_from, scan_all_lem, scan_from_lem}
use todb.Iterators.BlockIter.{NormalBlockIter, new}
use todb.Iterators.BlockIter.RoundTrip.{
  block_of, header_size, lens, IsAddressable, parsed, Reads, new-block_of, Reads-parsed,
  length-block_of,
}
use todb.Iterators.BlockIter.Search.{IsSorted}
use todb.Iterators.BlockIter.Entries.{zip_entries}
use todb.Iterators.BlockIter.Scans.{
  block_forward, block_reverse, block_forward-Scans, block_reverse-Scans, block_forward-Good,
  block_reverse-Good,
}
use todb.Iterators.DataEntryDecode.{EntryValue, DataEntryDecodeIter, decode_entries}
use todb.Iterators.DataEntryDecode
use todb.Iterators.DataEntryDecode.Scans.{
  raw_entries, encode_value, decode_entries-Scans, decode_entries-Good,
}
use todb.Builder.DataBlock

-- what a reader is to see of an entry
abbrev pub decoded : BlockEntry → Bytes × EntryValue
decoded (DataBlock.put k v) = (k, DataEntryDecode.put v)
decoded (DataBlock.delete k) = (k, DataEntryDecode.delete)

abbrev pub keys_of : List BlockEntry → List Bytes
keys_of es = map entry_key es

-- a fresh decoder over a block iterator, as `DataBlockIter::from_block` makes it
abbrev pub decoder : NormalBlockIter → DataEntryDecodeIter NormalBlockIter
decoder it = record { input = it; entry_header = none }

raw-decoded :
    (es : List BlockEntry)
    → zip_entries (keys_of es) (map envelope es) ≡ raw_entries (map decoded es)
unfolding zip_entries raw_entries
raw-decoded [] = refl
raw-decoded (DataBlock.put k v ∷ es) = rw (raw-decoded es)
raw-decoded (DataBlock.delete k ∷ es) = rw (raw-decoded es)

raw-append :
    (xs ys : List (Bytes × EntryValue)) → raw_entries (xs ++ ys) ≡ raw_entries xs ++ raw_entries ys
unfolding raw_entries
raw-append [] ys = refl
raw-append (x ∷ xs) ys = rw (raw-append xs ys)

raw-reverse : (xs : List (Bytes × EntryValue)) → raw_entries (reverse xs) ≡ reverse (raw_entries xs)
unfolding raw_entries
raw-reverse [] = refl
raw-reverse (x ∷ xs) =
    ap raw_entries (reverse-append (x ∷ []) xs)
    ∙ raw-append (reverse xs) (x ∷ [])
    ∙ ap (λ (ys : List (Bytes × Bytes)). ys ++ (x.0, encode_value x.1) ∷ []) (raw-reverse xs)
    ∙ sym (reverse-append ((x.0, encode_value x.1) ∷ []) (raw_entries xs))

key_lens :
    (es : List BlockEntry) → map (λ (e : BlockEntry). length (entry_key e)) es ≡ lens (keys_of es)
key_lens [] = refl
key_lens (e ∷ es) = rw (key_lens es)

val_lens : (es : List BlockEntry) → map envelope_len es ≡ lens (map envelope es)
val_lens [] = refl
val_lens (DataBlock.put k v ∷ es) =
    ap₂ (λ (n : ℕ) (ns : List ℕ). n ∷ ns) (omega arith) (val_lens es)
val_lens (DataBlock.delete k ∷ es) =
    ap₂ (λ (n : ℕ) (ns : List ℕ). n ∷ ns) (omega arith) (val_lens es)

-- The builder writes the layout that the iterator's lemmas are about.
encode-block_of : (es : List BlockEntry) → encode es ≡ block_of (keys_of es) (map envelope es)
unfolding encode block_of
encode-block_of es = rw (key_lens es) (rw (val_lens es) (rw (length-map es entry_key)))

pub length-encode :
    (es : List BlockEntry)
    → length (encode es)
      ≡ header_size (keys_of es) + sum (lens (keys_of es)) + sum (lens (map envelope es))
length-encode es =
    ap length (encode-block_of es)
    ∙ length-block_of (keys_of es) (map envelope es) []
        (length-map es envelope ∙ sym (length-map es entry_key))

module _ (b : DataBlockBuilder) (sorted : IsSorted (keys_of b.entries))
    (fits : length (encode b.entries) ≤ b.option.block_size)
    (small : b.option.block_size < u32_mod) where
  abbrev values : List Bytes
  values = map envelope b.entries

  abbrev pad : Bytes
  pad = replicate (b.option.block_size - length (encode b.entries)) 0

  same : length values ≡ length (keys_of b.entries)
  same = length-map b.entries envelope ∙ sym (length-map b.entries entry_key)

  addressable : IsAddressable (keys_of b.entries) values
  addressable = omega (arith, length-encode b.entries)

  abbrev pub iterator : NormalBlockIter
  iterator = parsed (block_of (keys_of b.entries) values ++ pad) (keys_of b.entries) values

  new-finish : new ((finish b).0) ≡ ok iterator
  unfolding finish
  new-finish =
      ap new (
        resize-append b.option.block_size (encode b.entries) fits
        ∙ ap (λ (bs : Bytes). bs ++ pad) (encode-block_of b.entries))
      ∙ new-block_of (keys_of b.entries) values pad same addressable

  reads : Reads iterator (keys_of b.entries) values
  reads = Reads-parsed (keys_of b.entries) values pad same addressable

  pub reads_forward : Scans (decode_entries block_forward) forward (map decoded b.entries)
  reads_forward =
      decode_entries-Scans block_forward forward (map decoded b.entries)
        (zip_entries (keys_of b.entries) values) (raw-decoded b.entries)
        (block_forward-Scans iterator (keys_of b.entries) values same reads sorted)

  reads_reverse : Scans (decode_entries block_reverse) backward (reverse (map decoded b.entries))
  reads_reverse =
      decode_entries-Scans block_reverse backward (reverse (map decoded b.entries))
        (reverse (zip_entries (keys_of b.entries) values))
        (ap reverse (raw-decoded b.entries) ∙ sym (raw-reverse (map decoded b.entries)))
        (block_reverse-Scans iterator (keys_of b.entries) values same reads sorted)

  pub Good-forward : reads_forward.Good (decoder iterator)
  unfolding reads_forward
  Good-forward =
      decode_entries-Good block_forward forward (map decoded b.entries)
        (zip_entries (keys_of b.entries) values) (raw-decoded b.entries)
        (block_forward-Scans iterator (keys_of b.entries) values same reads sorted)
        (decoder iterator)
        (block_forward-Good iterator (keys_of b.entries) values same reads sorted none)

  Good-reverse : reads_reverse.Good (decoder iterator)
  unfolding reads_reverse
  Good-reverse =
      decode_entries-Good block_reverse backward (reverse (map decoded b.entries))
        (reverse (zip_entries (keys_of b.entries) values))
        (ap reverse (raw-decoded b.entries) ∙ sym (raw-reverse (map decoded b.entries)))
        (block_reverse-Scans iterator (keys_of b.entries) values same reads sorted)
        (decoder iterator)
        (block_reverse-Good iterator (keys_of b.entries) values same reads sorted none)

  module _ (fuel : ℕ) (enough : length b.entries < fuel) where
    short : length (map decoded b.entries) < fuel
    short = omega (arith, length-map b.entries decoded)

    short_reverse : length (reverse (map decoded b.entries)) < fuel
    short_reverse = omega (arith, length-reverse (map decoded b.entries), short)

    -- The block that `finish` returns for entries with strictly ascending keys, whose encoding fits
    -- the block, is accepted by `new`; scanned from the first entry the decoder gives the builder's
    -- entries, tombstones included, in order, and scanned by the reverse impl it gives them in
    -- reverse order.
    pub finish-scan_all :
        (it : NormalBlockIter) × (new ((finish b).0) ≡ ok it)
        × (scan_all (decode_entries block_forward) fuel (decoder it) ≡ ok (map decoded b.entries))
        × (scan_all (decode_entries block_reverse) fuel (decoder it)
            ≡ ok (reverse (map decoded b.entries)))
    finish-scan_all = (
      iterator,
      new-finish,
      scan_all_lem (decode_entries block_forward) forward (map decoded b.entries) reads_forward fuel
          (decoder iterator) Good-forward short,
      scan_all_lem (decode_entries block_reverse) backward (reverse (map decoded b.entries))
          reads_reverse fuel (decoder iterator) Good-reverse short_reverse,
    )

    -- In the block that `finish` returns for entries with strictly ascending keys, whose encoding
    -- fits the block, a seek to any key, in either direction, is followed by exactly the entries
    -- that are not ahead of that key in the direction of the scan.
    pub finish-scan_from :
        (target : Bytes)
        → (it : NormalBlockIter) × (new ((finish b).0) ≡ ok it)
          × (scan_from (decode_entries block_forward) fuel target (decoder it)
              ≡ ok (skip_to forward target (map decoded b.entries)))
          × (scan_from (decode_entries block_reverse) fuel target (decoder it)
              ≡ ok (skip_to backward target (reverse (map decoded b.entries))))
    finish-scan_from target = (
      iterator,
      new-finish,
      scan_from_lem (decode_entries block_forward) forward (map decoded b.entries) reads_forward
          fuel target (decoder iterator) Good-forward short,
      scan_from_lem (decode_entries block_reverse) backward (reverse (map decoded b.entries))
          reads_reverse fuel target (decoder iterator) Good-reverse short_reverse,
    )
