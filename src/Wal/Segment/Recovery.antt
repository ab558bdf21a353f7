-- ===== src/Wal/Segment/Recovery.antt =====
-- What is read of a segment's header after a write, and after a write that a crash cut short.
use todb.Prelude.{ℕ, ◌≤◌, ◌≡◌, ◌⊎◌, inl, inr, refl, ok, none, some, arith, le→ltb_false}
use todb.Bytes.{Bytes, resize-append}
use todb.Wal.Error.{done}
use todb.Wal.Index.{IdxHeader, serialize, deserialize, pick, select_valid_header}
use todb.Wal.Index.Header.{
  WellFormed, deserialize-serialize_lem, deserialize-total_lem, length-serialize,
}
use todb.Wal.Segment.{MetaFile, header_block, write_meta_header_double, Crashed, read_meta_header}

module _ (crc32 : Bytes → ℕ) (block_size : ℕ) (room : 36 ≤ block_size) where
  pub deserialize-header_block :
      (h : IdxHeader)
      → WellFormed crc32 h
      → deserialize crc32 (header_block block_size h) ≡ ok (some h)
  unfolding header_block
  deserialize-header_block h w =
      rw (resize-append block_size (serialize h) (omega (arith, length-serialize crc32 h w)))
        (deserialize-serialize_lem crc32 h _ w)

  -- the first copy decides when it is valid, whatever the second holds
  select-first :
      (h : IdxHeader) (a b : Bytes)
      → deserialize crc32 a ≡ ok (some h)
      → select_valid_header crc32 a b ≡ done h
  unfolding select_valid_header pick
  select-first h a b e = let (o, t) = deserialize-total_lem crc32 b in rw (e, t) refl

  select-second :
      (h : IdxHeader) (a b : Bytes)
      → deserialize crc32 a ≡ ok none
      → deserialize crc32 b ≡ ok (some h)
      → select_valid_header crc32 a b ≡ done h
  unfolding select_valid_header pick
  select-second h a b e f = rw (e, f) refl

  -- A header that was written is read back, from both copies and from either alone: the double
  -- write returns, and after it reading gives the header even if one copy was then replaced by any
  -- bytes, which for the first copy are not themselves a valid header. A block has room for the
  -- header, whose fields have the widths of their types and whose checksum is right.
  pub write-read_meta_header :
      (h : IdxHeader) (file : MetaFile) (damaged other : Bytes)
      → WellFormed crc32 h
      → deserialize crc32 damaged ≡ ok none
      → (written : MetaFile) × (write_meta_header_double block_size h file ≡ done written)
        × (read_meta_header crc32 written ≡ done h)
        × (read_meta_header crc32 (record { copy_a = damaged; copy_b = written.copy_b }) ≡ done h)
        × (read_meta_header crc32 (record { copy_a = written.copy_a; copy_b = other }) ≡ done h)
  unfolding write_meta_header_double read_meta_header
  write-read_meta_header h file damaged other w bad =
      let block = header_block block_size h in
      let good = deserialize-header_block h w in
      (
        record { copy_a = block; copy_b = block },
        rw (le→ltb_false block_size 36 room) refl,
        select-first h block block good,
        select-second h damaged block bad good,
        select-first h block other good,
      )

  -- A crash during the double write never loses the header: whatever the call had written when it
  -- stopped, reading finds the old header or the new one. Before it both copies held the old one, a
  -- block has room for a header, and bytes of the first copy that a crash left in the middle are
  -- not a valid header, or are the old or the new one.
  pub crash-read_meta_header :
      (old h : IdxHeader) (file left : MetaFile)
      → WellFormed crc32 h
      → deserialize crc32 file.copy_a ≡ ok (some old)
      → deserialize crc32 file.copy_b ≡ ok (some old)
      → Crashed block_size h file left
      → (deserialize crc32 left.copy_a ≡ ok none)
        ⊎ ((deserialize crc32 left.copy_a ≡ ok (some old))
            ⊎ (deserialize crc32 left.copy_a ≡ ok (some h)))
      → (read_meta_header crc32 left ≡ done old) ⊎ (read_meta_header crc32 left ≡ done h)
  unfolding read_meta_header
  crash-read_meta_header old h file left w a b at (inr (inl o)) = inl (select-first old _ _ o)
  crash-read_meta_header old h file left w a b at (inr (inr n)) = inr (select-first h _ _ n)
  crash-read_meta_header old h file left w a b Crashed.not_begun (inl bad) =
      inl (select-second old _ _ bad b)
  crash-read_meta_header old h file left w a b (Crashed.in_copy_a torn) (inl bad) =
      inl (select-second old _ _ bad b)
  crash-read_meta_header old h file left w a b (Crashed.in_copy_b torn) (inl bad) =
      inr (select-first h _ _ (deserialize-header_block h w))
