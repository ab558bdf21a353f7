-- ===== src/Iterators/IndexBlockRoundTrip.antt =====
-- An index block that the builder finishes, read back by the decoding block iterator
-- (crates/storage/src/builder/index_block.rs, crates/storage/src/iterators/block_iter.rs,
-- crates/storage/src/iterators/index_entry_decode_iter.rs).
use mathlib.Core.List.{reverse-append}
use todb.Prelude.{
  ℕ, ◌+◌, ◌-◌, ◌≤◌, ◌<◌, ◌≡◌, refl, sym, ap, ap₂, ◌∙◌, List, [], ◌∷◌, ◌++◌, reverse, map, length,
  replicate, none, ok, arith, length-map, length-reverse,
}
use todb.Bytes.{Bytes, u32_mod, u64_mod, be_bytes, length-be_bytes, from_be-be_bytes, resize-append}
use todb.Builder.Layout.{sum}
use todb.Builder.IndexBlock.{
  Position, IndexEntry, IndexBlockBuilder, index_value_len, index_value, index_value_version,
  encode, finish,
}
use todb.Iterators.Traits.{Scans, forward, backward, skip_to}
use todb.Iterators.Drain.{scan_all, scan_from, scan_all_lem, scan_from_lem}
use todb.Iterators.BlockIter.{NormalBlockIter}
use todb.Iterators.BlockIter.RoundTrip.{
  block_of, header_size, lens, IsAddressable, parsed, Reads, new-block_of, Reads-parsed,
  length-block_of,
}
use todb.Iterators.BlockIter.Search.{IsSorted}
use todb.Iterators.BlockIter.Entries.{zip_entries}
use todb.Iterators.BlockIter.Scans.{
  block_forward, block_reverse, block_forward-Scans, block_reverse-Scans, block_forward-Good,
  block_reverse-Good,
}
use todb.Iterators.IndexEntryDecode.{IndexEntryDecodeIter, position_of, index_entries}
use todb.Iterators.IndexEntryDecode.Scans.{
  raw_positions, ArePositions, index_entries-Scans, index_entries-Good,
}
use todb.Iterators.BlockIter
use todb.Iterators.IndexEntryDecode

-- what a reader is to see of an entry: its last key, and the bytes of the child's position
abbrev pub child_of : IndexEntry → Bytes × Bytes
child_of e = (e.end_key, be_bytes 8 e.child.offset)

abbrev pub end_keys : List IndexEntry → List Bytes
end_keys es = map (λ (e : IndexEntry). e.end_key) es

raw-children :
    (es : List IndexEntry)
    → zip_entries (end_keys es) (map index_value es) ≡ raw_positions (map child_of es)
unfolding zip_entries raw_positions
raw-children [] = refl
raw-children (e ∷ es) = rw (raw-children es)

raw-append :
    (xs ys : List (Bytes × Bytes)) → raw_positions (xs ++ ys) ≡ raw_positions xs ++ raw_positions ys
unfolding raw_positions
raw-append [] ys = refl
raw-append (x ∷ xs) ys = rw (raw-append xs ys)

raw-reverse : (xs : List (Bytes × Bytes)) → raw_positions (reverse xs) ≡ reverse (raw_positions xs)
unfolding raw_positions
raw-reverse [] = refl
raw-reverse (x ∷ xs) =
    ap raw_positions (reverse-append (x ∷ []) xs)
    ∙ raw-append (reverse xs) (x ∷ [])
    ∙ ap (λ (ys : List (Bytes × Bytes)). ys ++ (x.0, index_value_version ∷ x.1) ∷ [])
        (raw-reverse xs)
    ∙ sym (reverse-append ((x.0, index_value_version ∷ x.1) ∷ []) (raw_positions xs))

ArePositions-append :
    (xs ys : List (Bytes × Bytes)) → ArePositions xs → ArePositions ys → ArePositions (xs ++ ys)
ArePositions-append [] ys a b = b
ArePositions-append (x ∷ xs) ys a b = (a.0, ArePositions-append xs ys a.1 b)

ArePositions-reverse : (xs : List (Bytes × Bytes)) → ArePositions xs → ArePositions (reverse xs)
ArePositions-reverse [] a = tt
ArePositions-reverse (x ∷ xs) a =
    rw (reverse-append (x ∷ []) xs)
      (ArePositions-append (reverse xs) (x ∷ []) (ArePositions-reverse xs a.1) (a.0, tt))

ArePositions-children : (es : List IndexEntry) → ArePositions (map child_of es)
ArePositions-children [] = tt
ArePositions-children (e ∷ es) = (length-be_bytes 8 e.child.offset, ArePositions-children es)

key_lens :
    (es : List IndexEntry) → map (λ (e : IndexEntry). length e.end_key) es ≡ lens (end_keys es)
key_lens [] = refl
key_lens (e ∷ es) = rw (key_lens es)

val_lens :
    (es : List IndexEntry)
    → map (λ (e : IndexEntry). index_value_len) es ≡ lens (map index_value es)
val_lens [] = refl
val_lens (e ∷ es) =
    ap₂ (λ (n : ℕ) (ns : List ℕ). n ∷ ns) (omega (arith, length-be_bytes 8 e.child.offset))
      (val_lens es)

-- the builder writes the layout that the iterator's lemmas are about
encode-block_of : (es : List IndexEntry) → encode es ≡ block_of (end_keys es) (map index_value es)
unfolding encode block_of
encode-block_of es =
    rw (key_lens es) (rw (val_lens es) (rw (length-map es (λ (e : IndexEntry). e.end_key))))

same_length : (es : List IndexEntry) → length (map index_value es) ≡ length (end_keys es)
same_length es = length-map es index_value ∙ sym (length-map es (λ (e : IndexEntry). e.end_key))

length-encode :
    (es : List IndexEntry)
    → length (encode es)
      ≡ header_size (end_keys es) + sum (lens (end_keys es)) + sum (lens (map index_value es))
length-encode es =
    ap length (encode-block_of es)
    ∙ length-block_of (end_keys es) (map index_value es) [] (same_length es)

-- The position of a child is read back from its bytes; a position is a 64-bit word.
position_of-be_bytes :
    (p : Position) → p.offset < u64_mod → position_of (be_bytes 8 p.offset) ≡ ok p
unfolding position_of
position_of-be_bytes p h =
    rw (length-be_bytes 8 p.offset, from_be-be_bytes 8 p.offset (omega arith)) refl

module _ (b : IndexBlockBuilder) (sorted : IsSorted (end_keys b.entries))
    (fits : length (encode b.entries) ≤ b.option.block_size)
    (small : b.option.block_size < u32_mod) where
  abbrev values : List Bytes
  values = map index_value b.entries

  abbrev pad : Bytes
  pad = replicate (b.option.block_size - length (encode b.entries)) 0

  addressable : IsAddressable (end_keys b.entries) values
  addressable = omega (arith, length-encode b.entries)

  abbrev iterator : NormalBlockIter
  iterator = parsed (block_of (end_keys b.entries) values ++ pad) (end_keys b.entries) values

  new-finish : BlockIter.new ((finish b).0) ≡ ok iterator
  unfolding finish
  new-finish =
      ap BlockIter.new (
        resize-append b.option.block_size (encode b.entries) fits
        ∙ ap (λ (bs : Bytes). bs ++ pad) (encode-block_of b.entries))
      ∙ new-block_of (end_keys b.entries) values pad (same_length b.entries) addressable

  reads : Reads iterator (end_keys b.entries) values
  reads = Reads-parsed (end_keys b.entries) values pad (same_length b.entries) addressable

  block_scans : Scans block_forward forward (zip_entries (end_keys b.entries) values)
  block_scans =
      block_forward-Scans iterator (end_keys b.entries) values (same_length b.entries) reads sorted

  block_scans_reverse :
      Scans block_reverse backward (reverse (zip_entries (end_keys b.entries) values))
  block_scans_reverse =
      block_reverse-Scans iterator (end_keys b.entries) values (same_length b.entries) reads sorted

  encoded_reverse :
      reverse (zip_entries (end_keys b.entries) values)
      ≡ raw_positions (reverse (map child_of b.entries))
  encoded_reverse = ap reverse (raw-children b.entries) ∙ sym (raw-reverse (map child_of b.entries))

  sized_reverse : ArePositions (reverse (map child_of b.entries))
  sized_reverse = ArePositions-reverse (map child_of b.entries) (ArePositions-children b.entries)

  reads_forward : Scans (index_entries block_forward) forward (map child_of b.entries)
  reads_forward =
      index_entries-Scans block_forward forward (map child_of b.entries)
        (zip_entries (end_keys b.entries) values) (raw-children b.entries)
        (ArePositions-children b.entries) block_scans

  reads_reverse : Scans (index_entries block_reverse) backward (reverse (map child_of b.entries))
  reads_reverse =
      index_entries-Scans block_reverse backward (reverse (map child_of b.entries))
        (reverse (zip_entries (end_keys b.entries) values)) encoded_reverse sized_reverse
        block_scans_reverse

  Good-forward : reads_forward.Good (IndexEntryDecode.new iterator)
  unfolding reads_forward block_scans
  Good-forward =
      index_entries-Good block_forward forward (map child_of b.entries)
        (zip_entries (end_keys b.entries) values) (raw-children b.entries)
        (ArePositions-children b.entries) block_scans (IndexEntryDecode.new iterator)
        (block_forward-Good iterator (end_keys b.entries) values (same_length b.entries) reads
          sorted none)

  Good-reverse : reads_reverse.Good (IndexEntryDecode.new iterator)
  unfolding reads_reverse block_scans_reverse
  Good-reverse =
      index_entries-Good block_reverse backward (reverse (map child_of b.entries))
        (reverse (zip_entries (end_keys b.entries) values)) encoded_reverse sized_reverse
        block_scans_reverse (IndexEntryDecode.new iterator)
        (block_reverse-Good iterator (end_keys b.entries) values (same_length b.entries) reads
          sorted none)

  module _ (fuel : ℕ) (enough : length b.entries < fuel) where
    short : length (map child_of b.entries) < fuel
    short = omega (arith, length-map b.entries child_of)

    short_reverse : length (reverse (map child_of b.entries)) < fuel
    short_reverse = omega (arith, length-reverse (map child_of b.entries), short)

    -- An index block that `finish` returns for strictly ascending keys, whose encoding fits the
    -- block, is accepted by `new`; scanned in either direction the decoder gives each child's last
    -- key and the bytes of its position, and from a target on it gives exactly the children that
    -- are not ahead of the target.
    pub index_finish-scan :
        (target : Bytes)
        → (it : NormalBlockIter) × (BlockIter.new ((finish b).0) ≡ ok it)
          × (scan_all (index_entries block_forward) fuel (IndexEntryDecode.new it)
              ≡ ok (map child_of b.entries))
          × (scan_all (index_entries block_reverse) fuel (IndexEntryDecode.new it)
              ≡ ok (reverse (map child_of b.entries)))
          × (scan_from (index_entries block_forward) fuel target (IndexEntryDecode.new it)
              ≡ ok (skip_to forward target (map child_of b.entries)))
          × (scan_from (index_entries block_reverse) fuel target (IndexEntryDecode.new it)
              ≡ ok (skip_to backward target (reverse (map child_of b.entries))))
    index_finish-scan target = (
      iterator,
      new-finish,
      scan_all_lem (index_entries block_forward) forward (map child_of b.entries) reads_forward fuel
          (IndexEntryDecode.new iterator) Good-forward short,
      scan_all_lem (index_entries block_reverse) backward (reverse (map child_of b.entries))
          reads_reverse fuel (IndexEntryDecode.new iterator) Good-reverse short_reverse,
      scan_from_lem (index_entries block_forward) forward (map child_of b.entries) reads_forward
          fuel target (IndexEntryDecode.new iterator) Good-forward short,
      scan_from_lem (index_entries block_reverse) backward (reverse (map child_of b.entries))
          reads_reverse fuel target (IndexEntryDecode.new iterator) Good-reverse short_reverse,
    )
