-- ===== src/Iterators/BlockIter/RoundTrip.antt =====
-- `NormalBlockIter::new` over the layout that the builders write.
use native.Mathlib.Numerals.{add-one}
use todb.Prelude.{
  ℕ, zero, suc, ◌+◌, ◌*◌, ◌<◌, ◌≡◌, refl, sym, ◌∙◌, List, [], ◌∷◌, ◌++◌, length, map, get_elem?,
  some, none, ok, arith, append_assoc, length-append, length-map,
}
use todb.Bytes.{
  Bytes, slice, be_bytes, from_be, as_u32, u32_mod, slice-append, length-be_bytes, from_be-be_bytes,
}
use todb.Builder.Layout.{
  push_offsets, advance_offset, extend_u32s, extend_all, sum, length-extend_u32s,
  length-push_offsets, length-extend_all, advance_offset-eq-sum,
}
use todb.Iterators.BlockIter.{NormalBlockIter, new, at, key, value, between, parse_offsets}
use todb.Iterators.BlockIter.Parts.{
  push_offsets-AllU32, parse_offsets-extend_u32s, index-push_offsets, slice-extend_all,
}

-- the lengths of the parts
abbrev pub lens : List Bytes → List ℕ
lens parts = map length parts

abbrev pub header_size : List Bytes → ℕ
header_size keys = 4 + (length keys + 1) * 8

abbrev pub key_table : List Bytes → List ℕ
key_table keys = push_offsets (lens keys) (header_size keys)

abbrev pub value_start : List Bytes → ℕ
value_start keys = advance_offset (lens keys) (header_size keys)

abbrev pub value_table : List Bytes → List Bytes → List ℕ
value_table keys values = push_offsets (lens values) (value_start keys)

-- A block of keys and raw values: both builders write this.
unfoldable pub block_of : List Bytes → List Bytes → Bytes
block_of keys values =
    be_bytes 4 (as_u32 (length keys))
    ++ (extend_u32s (key_table keys)
        ++ (extend_u32s (value_table keys values) ++ (extend_all keys ++ extend_all values)))

-- the whole block fits its `u32` offsets
abbrev pub IsAddressable : List Bytes → List Bytes → Type 0
IsAddressable keys values = header_size keys + sum (lens keys) + sum (lens values) < u32_mod

-- What an iterator over a block holds: `keys`, and one of `values` for each.
pub record Reads (it : NormalBlockIter) (keys values : List Bytes) : Type 0 where
  pub count : it.count ≡ length keys
  pub key_at : (i : ℕ) (k : Bytes) → get_elem? keys i ≡ some k → key (at it (some i)) ≡ ok (some k)
  pub value_at :
      (i : ℕ) (v : Bytes) → get_elem? values i ≡ some v → value (at it (some i)) ≡ ok (some v)

abbrev pub parsed : Bytes → List Bytes → List Bytes → NormalBlockIter
parsed block keys values = record {
  block = block;
  key_offsets = key_table keys;
  values_offsets = value_table keys values;
  count = length keys;
  curr = none;
}

pub lt_of_get_elem? :
    (parts : List Bytes) (i : ℕ) {p : Bytes} → get_elem? parts i ≡ some p → i < length parts
lt_of_get_elem? [] i g = absurd (ground arith)
lt_of_get_elem? (q ∷ parts) zero g = omega arith
lt_of_get_elem? (q ∷ parts) (suc i) g = omega (arith, lt_of_get_elem? parts i g)

-- One area of a block and the table that points into it.
area_at :
    (parts : List Bytes) (pre post : Bytes) (start i : ℕ) {p : Bytes}
    → start ≡ length pre
    → start + sum (lens parts) < u32_mod
    → get_elem? parts i ≡ some p
    → between (pre ++ (extend_all parts ++ post)) (push_offsets (lens parts) start) (some i)
      ≡ ok (some p)
unfolding between
area_at parts pre post start i e b g =
    let n : length (lens parts) ≡ length parts = length-map parts length in
    let h : i < length parts = lt_of_get_elem? parts i g in
    rw (index-push_offsets (lens parts) start i (omega arith) b) (
      rw (add-one i) (
        rw (index-push_offsets (lens parts) start (suc i) (omega arith) b)
          (rw (slice-extend_all parts pre post i start e g))))

module _ (keys values : List Bytes) (pad : Bytes) where
  abbrev block : Bytes
  block = block_of keys values ++ pad

  abbrev area : Bytes
  area = extend_all keys ++ (extend_all values ++ pad)

  abbrev count_bytes : Bytes
  count_bytes = be_bytes 4 (as_u32 (length keys))

  -- the block, cut before each of its parts
  shape :
      block
      ≡ count_bytes
        ++ (extend_u32s (key_table keys) ++ (extend_u32s (value_table keys values) ++ area))
  unfolding block_of
  shape = simp append_assoc

  shape_values :
      block
      ≡ (count_bytes ++ extend_u32s (key_table keys))
        ++ (extend_u32s (value_table keys values) ++ area)
  shape_values = shape ∙ simp append_assoc

  abbrev header : Bytes
  header = count_bytes ++ (extend_u32s (key_table keys) ++ extend_u32s (value_table keys values))

  shape_keys : block ≡ header ++ area
  shape_keys = shape ∙ simp append_assoc

  shape_value_area : block ≡ (header ++ extend_all keys) ++ (extend_all values ++ pad)
  shape_value_area = shape_keys ∙ simp append_assoc

  shape_block : block_of keys values ≡ header ++ (extend_all keys ++ extend_all values)
  unfolding block_of
  shape_block = simp append_assoc

  module _ (same : length values ≡ length keys) where
    length-key_table : length (key_table keys) ≡ length keys + 1
    length-key_table =
        omega (arith, length-push_offsets (lens keys) (header_size keys), length-map keys length)

    length-value_table : length (value_table keys values) ≡ length keys + 1
    length-value_table =
        omega
          (arith, length-push_offsets (lens values) (value_start keys), length-map values length)

    length_header : length header ≡ header_size keys
    length_header = omega (
      arith,
      length-append count_bytes
          (extend_u32s (key_table keys) ++ extend_u32s (value_table keys values)),
      length-append (extend_u32s (key_table keys)) (extend_u32s (value_table keys values)),
      length-be_bytes 4 (as_u32 (length keys)),
      length-extend_u32s (key_table keys),
      length-extend_u32s (value_table keys values),
      length-key_table,
      length-value_table,
    )

    -- the length of what the builders write before they pad it
    pub length-block_of :
        length (block_of keys values) ≡ header_size keys + sum (lens keys) + sum (lens values)
    length-block_of = rw shape_block (
        omega (
          arith,
          length-append header (extend_all keys ++ extend_all values),
          length-append (extend_all keys) (extend_all values),
          length_header,
          length-extend_all keys,
          length-extend_all values,
        ))

    module _ (fits : IsAddressable keys values) where
      read_count : slice block 0 4 ≡ ok count_bytes
      read_count = rw shape (
          slice-append [] count_bytes
            (extend_u32s (key_table keys) ++ (extend_u32s (value_table keys values) ++ area)) 0 4
            refl (omega (arith, length-be_bytes 4 (as_u32 (length keys)))))

      count_read : from_be count_bytes ≡ length keys
      count_read = from_be-be_bytes 4 (as_u32 (length keys)) (omega arith) ∙ omega arith

      parse_keys :
          parse_offsets (length keys + 1) block 4
          ≡ ok (key_table keys, 4 + 4 * length (key_table keys))
      parse_keys = rw shape (
          parse_offsets-extend_u32s (key_table keys) count_bytes
            (extend_u32s (value_table keys values) ++ area) 4 (length keys + 1)
            (omega (arith, length-be_bytes 4 (as_u32 (length keys))))
            (omega (arith, length-key_table)) (push_offsets-AllU32 (lens keys) (header_size keys)))

      parse_values :
          parse_offsets (length keys + 1) block (4 + 4 * length (key_table keys))
          ≡ ok (
            value_table keys values,
            4 + 4 * length (key_table keys) + 4 * length (value_table keys values),
          )
      parse_values = rw shape_values (
          parse_offsets-extend_u32s (value_table keys values)
            (count_bytes ++ extend_u32s (key_table keys)) area (4 + 4 * length (key_table keys))
            (length keys + 1)
            (omega (
              arith,
              length-append count_bytes (extend_u32s (key_table keys)),
              length-be_bytes 4 (as_u32 (length keys)),
              length-extend_u32s (key_table keys),
            ))
            (omega (arith, length-value_table))
            (push_offsets-AllU32 (lens values) (value_start keys)))

      -- The header of a block is parsed to the tables that were written.
      pub new-block_of : new block ≡ ok (parsed block keys values)
      unfolding new
      new-block_of = rw (read_count) (rw (count_read) (rw (parse_keys) (rw (parse_values))))

      value_start-sum : value_start keys ≡ header_size keys + sum (lens keys)
      value_start-sum = advance_offset-eq-sum (lens keys) (header_size keys)

      key-parsed :
          (i : ℕ) (k : Bytes)
          → get_elem? keys i ≡ some k
          → key (at (parsed block keys values) (some i)) ≡ ok (some k)
      unfolding key
      key-parsed i k g = rw shape_keys (
          area_at keys header (extend_all values ++ pad) (header_size keys) i (sym length_header)
            (omega arith) g)

      value-parsed :
          (i : ℕ) (v : Bytes)
          → get_elem? values i ≡ some v
          → value (at (parsed block keys values) (some i)) ≡ ok (some v)
      unfolding value
      value-parsed i v g = rw shape_value_area (
          area_at values (header ++ extend_all keys) pad (value_start keys) i
            (omega (
              arith,
              length-append header (extend_all keys),
              length_header,
              value_start-sum,
              length-extend_all keys,
            ))
            (omega (arith, value_start-sum)) g)

      pub Reads-parsed : Reads (parsed block keys values) keys values
      Reads-parsed = record { count = refl; key_at = key-parsed; value_at = value-parsed }
