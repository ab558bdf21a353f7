-- ===== src/Wal/Index/Header.antt =====
-- A header that was written is read back, and one damaged copy of the two is tolerated.
use todb.Prelude.{
  Bool-cases, ltb_false→le, take, drop, ℕ, ◌≤◌, ◌<◌, ◌≡◌, refl, sym, ◌∙◌, ◌++◌, length, ltb, ok,
  inl, inr, Option, none, some, arith, if◌then◌else◌, le→ltb_false, append_assoc, length-append,
  ==_refl, [], ◌==◌,
}
use todb.Bytes.{
  slice-next, Bytes, slice, le_bytes, from_le, u32_mod, u64_mod, slice-append, slice_in_range,
  length-le_bytes, from_le-le_bytes,
}
use todb.Wal.Index.{IdxHeader, serialize_fields, serialize, read_fields, deserialize}

-- what the types of the fields promise, and what `new` makes of the checksum
abbrev pub WellFormed : (Bytes → ℕ) → IdxHeader → Type 0
WellFormed crc32 h =
    (length h.magic ≡ 4)
    × (h.version < u32_mod)
    × (h.seg_id < u32_mod)
    × (h.min_live_lsn < u64_mod)
    × (h.max_live_lsn < u64_mod)
    × (h.entry_count < u32_mod)
    × (h.header_crc < u32_mod)
    × (h.header_crc ≡ crc32 (serialize_fields h))

length-serialize_fields : (h : IdxHeader) → length h.magic ≡ 4 → length (serialize_fields h) ≡ 32
unfolding serialize_fields
length-serialize_fields h m = omega (
  arith,
  m,
  length-append h.magic (
      le_bytes 4 h.version
      ++ (le_bytes 4 h.seg_id
          ++ (le_bytes 8 h.min_live_lsn
              ++ (le_bytes 8 h.max_live_lsn ++ le_bytes 4 h.entry_count)))),
  length-append (le_bytes 4 h.version) (
      le_bytes 4 h.seg_id
      ++ (le_bytes 8 h.min_live_lsn ++ (le_bytes 8 h.max_live_lsn ++ le_bytes 4 h.entry_count))),
  length-append (le_bytes 4 h.seg_id)
      (le_bytes 8 h.min_live_lsn ++ (le_bytes 8 h.max_live_lsn ++ le_bytes 4 h.entry_count)),
  length-append (le_bytes 8 h.min_live_lsn) (le_bytes 8 h.max_live_lsn ++ le_bytes 4 h.entry_count),
  length-append (le_bytes 8 h.max_live_lsn) (le_bytes 4 h.entry_count),
  length-le_bytes 4 h.version,
  length-le_bytes 4 h.seg_id,
  length-le_bytes 8 h.min_live_lsn,
  length-le_bytes 8 h.max_live_lsn,
  length-le_bytes 4 h.entry_count,
)

module _ (h : IdxHeader) (m : length h.magic ≡ 4) (rest : Bytes) where
  abbrev whole : Bytes
  whole = serialize_fields h ++ rest

  shape :
      whole
      ≡ h.magic
        ++ (le_bytes 4 h.version
            ++ (le_bytes 4 h.seg_id
                ++ (le_bytes 8 h.min_live_lsn
                    ++ (le_bytes 8 h.max_live_lsn ++ (le_bytes 4 h.entry_count ++ rest)))))
  unfolding serialize_fields
  shape = simp append_assoc

  parts :
      (slice whole 0 4 ≡ ok h.magic)
      × (slice whole 4 8 ≡ ok (le_bytes 4 h.version))
      × (slice whole 8 12 ≡ ok (le_bytes 4 h.seg_id))
      × (slice whole 12 20 ≡ ok (le_bytes 8 h.min_live_lsn))
      × (slice whole 20 28 ≡ ok (le_bytes 8 h.max_live_lsn))
      × (slice whole 28 32 ≡ ok (le_bytes 4 h.entry_count))
  parts =
      let (a, e1, s1) = slice-next [] h.magic _ whole 0 4 shape refl (omega (arith, m)) in
      let (b, e2, s2) =
        slice-next h.magic (le_bytes 4 h.version) _ whole 4 8 e1 s1
          (omega (arith, length-le_bytes 4 h.version)) in
      let (c, e3, s3) =
        slice-next _ (le_bytes 4 h.seg_id) _ whole 8 12 e2 s2
          (omega (arith, length-le_bytes 4 h.seg_id)) in
      let (d, e4, s4) =
        slice-next _ (le_bytes 8 h.min_live_lsn) _ whole 12 20 e3 s3
          (omega (arith, length-le_bytes 8 h.min_live_lsn)) in
      let (f, e5, s5) =
        slice-next _ (le_bytes 8 h.max_live_lsn) _ whole 20 28 e4 s4
          (omega (arith, length-le_bytes 8 h.max_live_lsn)) in
      let (g, e6, s6) =
        slice-next _ (le_bytes 4 h.entry_count) _ whole 28 32 e5 s5
          (omega (arith, length-le_bytes 4 h.entry_count)) in
      (a, b, c, d, f, g)

module _ (crc32 : Bytes → ℕ) where
  read_fields-serialize :
      (h : IdxHeader) (rest : Bytes)
      → WellFormed crc32 h
      → read_fields crc32 (serialize_fields h ++ rest) h.header_crc ≡ ok (some h)
  unfolding read_fields
  read_fields-serialize h rest (m, v, s, lo, hi, n, c, same) =
      let (a, b, d, e, f, g) = parts h m rest in
      rw
        (
          a,
          b,
          d,
          e,
          f,
          g,
          from_le-le_bytes 4 h.version (omega arith),
          from_le-le_bytes 4 h.seg_id (omega arith),
          from_le-le_bytes 8 h.min_live_lsn (omega arith),
          from_le-le_bytes 8 h.max_live_lsn (omega arith),
          from_le-le_bytes 4 h.entry_count (omega arith),
        )
        refl

  -- what `deserialize` makes of 32 bytes of fields and a stored checksum
  deserialize-parts :
      (fields rest : Bytes) (c : ℕ)
      → length fields ≡ 32
      → c < u32_mod
      → deserialize crc32 (fields ++ (le_bytes 4 c ++ rest)) ≡ (
          if crc32 fields == c
          then read_fields crc32 (fields ++ (le_bytes 4 c ++ rest)) c
          else ok none)
  unfolding deserialize
  deserialize-parts fields rest c size small =
      rw
        (
          le→ltb_false (length (fields ++ (le_bytes 4 c ++ rest))) 36 (
              omega (
                arith,
                size,
                length-append fields (le_bytes 4 c ++ rest),
                length-append (le_bytes 4 c) rest,
                length-le_bytes 4 c,
              )),
          slice-append fields (le_bytes 4 c) rest 32 36 (sym size)
              (omega (arith, size, length-le_bytes 4 c)),
          slice-append [] fields (le_bytes 4 c ++ rest) 0 32 refl (omega (arith, size)),
          from_le-le_bytes 4 c (omega arith),
        )
        refl

  pub deserialize-serialize_lem :
      (h : IdxHeader) (rest : Bytes)
      → WellFormed crc32 h
      → deserialize crc32 (serialize h ++ rest) ≡ ok (some h)
  unfolding serialize
  deserialize-serialize_lem h rest w =
      let (m, v, s, lo, hi, n, c, same) = w in
      rw (append_assoc (serialize_fields h) (le_bytes 4 h.header_crc) rest) (
        deserialize-parts (serialize_fields h) rest h.header_crc (length-serialize_fields h m) c
        ∙ rw (sym same, ==_refl h.header_crc)
            (read_fields-serialize h (le_bytes 4 h.header_crc ++ rest) w))

  read_fields-total :
      (b : Bytes) (c : ℕ) → 32 ≤ length b → (o : Option IdxHeader) × (read_fields crc32 b c ≡ ok o)
  unfolding read_fields
  read_fields-total b c long =
      rw
        (
          slice_in_range b 0 4 (omega arith) (omega arith),
          slice_in_range b 4 8 (omega arith) (omega arith),
          slice_in_range b 8 12 (omega arith) (omega arith),
          slice_in_range b 12 20 (omega arith) (omega arith),
          slice_in_range b 20 28 (omega arith) (omega arith),
          slice_in_range b 28 32 (omega arith) (omega arith),
        )
        (_, refl)

  pub deserialize-total_lem : (b : Bytes) → (o : Option IdxHeader) × (deserialize crc32 b ≡ ok o)
  unfolding deserialize
  deserialize-total_lem b = elim (Bool-cases (ltb (length b) 36)) [
    | inl short ↦ (none, rw short refl)
    | inr long ↦
        let size = ltb_false→le (length b) 36 long in
        let stored = from_le (take 4 (drop 32 b)) in
        let (o, e) = read_fields-total b stored (omega arith) in
        elim (Bool-cases (crc32 (take 32 b) == stored)) [
          | inl good ↦ (
            o,
            rw
                (
                  long,
                  slice_in_range b 32 36 (omega arith) size,
                  slice_in_range b 0 32 (omega arith) (omega arith),
                  good,
                )
                e,
          )
          | inr bad ↦ (
            none,
            rw
                (
                  long,
                  slice_in_range b 32 36 (omega arith) size,
                  slice_in_range b 0 32 (omega arith) (omega arith),
                  bad,
                )
                refl,
          )
        ]
  ]

  pub length-serialize : (h : IdxHeader) → WellFormed crc32 h → length (serialize h) ≡ 36
  unfolding serialize
  length-serialize h (m, v, s, lo, hi, n, c, same) = omega (
    arith,
    length-append (serialize_fields h) (le_bytes 4 h.header_crc),
    length-serialize_fields h m,
    length-le_bytes 4 h.header_crc,
  )
