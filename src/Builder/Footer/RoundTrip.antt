-- ===== src/Builder/Footer/RoundTrip.antt =====
-- A footer that was encoded is decoded, and decoding any bytes never panics.
use todb.Prelude.{
  ℕ, ◌+◌, ◌-◌, ◌≤◌, ◌<◌, ◌≡◌, refl, sym, ◌⊎◌, inl, inr, ◌++◌, [], length, take, drop, ltb, ◌==◌,
  Run, ok, err, invalid_value, arith, Bool-cases, ltb_false→le, le→ltb_false, length-append,
  length-take, append-nil, ==_iff,
}
use todb.Bytes.{
  Bytes, as_u32, be_bytes, from_be, slice, u32_mod, u64_mod, slice-append, slice-next,
  slice_from_in_range, slice_from-append, slice_in_range, length-be_bytes, from_be-be_bytes,
}
use todb.Builder.Footer.{SstFooter, footer_body, encode, decode_keys, decode_body, decode}

as_u32_small : (n : ℕ) → n < u32_mod → as_u32 n ≡ n
as_u32_small n h = omega arith

-- a call that returns, or refuses its bytes
abbrev pub Answers : Run SstFooter → Type 0
Answers m = ((f : SstFooter) × (m ≡ ok f)) ⊎ (m ≡ err invalid_value)

decode_keys-Answers :
    (body : Bytes) (root height a b : ℕ) → Answers (decode_keys body (length body) root height a b)
unfolding decode_keys
decode_keys-Answers body root height a b = elim (Bool-cases (20 + a + b == length body)) [
  | inr f ↦ inr (rw f refl)
  | inl t ↦
      let e : 20 + a + b ≡ length body = (==_iff (20 + a + b) (length body)).0 t in
      inl (
        record {
          root_index_block_position = record { offset = root };
          tree_height = height;
          first_key = take (20 + a - 20) (drop 20 body);
          last_key = take (20 + a + b - (20 + a)) (drop (20 + a) body);
        },
        rw
            (
              t,
              slice_in_range body 20 (20 + a) (omega arith) (omega arith),
              slice_in_range body (20 + a) (20 + a + b) (omega arith) (omega arith),
            )
            refl,
      )
]

decode_body-Answers : (body : Bytes) → Answers (decode_body body (length body))
unfolding decode_body
decode_body-Answers body = elim (Bool-cases (ltb (length body) 20)) [
  | inl t ↦ inr (rw t refl)
  | inr f ↦
      let long : 20 ≤ length body = ltb_false→le (length body) 20 f in
      rw
        (
          f,
          slice_in_range body 0 8 (omega arith) (omega arith),
          slice_in_range body 8 12 (omega arith) (omega arith),
          slice_in_range body 12 16 (omega arith) (omega arith),
          slice_in_range body 16 20 (omega arith) (omega arith),
        )
        (decode_keys-Answers body _ _ _ _)
]

-- Parsing never panics: whatever bytes stand at the end of a file, `decode` returns a footer or
-- the error `invalid_value`.
pub decode-Answers : (buf : Bytes) → Answers (decode buf)
unfolding decode
decode-Answers buf = elim (Bool-cases (ltb (length buf) 4)) [
  | inl t ↦ inr (rw t refl)
  | inr f ↦
      let tail_at = slice_from_in_range buf (length buf - 4) (omega arith) in
      let body_len = from_be (drop (length buf - 4) buf) in
      elim (Bool-cases (ltb (length buf) (body_len + 4))) [
        | inl u ↦ inr (rw (f, tail_at, u) refl)
        | inr g ↦
            let room : body_len + 4 ≤ length buf = ltb_false→le (length buf) (body_len + 4) g in
            let size : length (take (body_len - 0) (drop 0 buf)) ≡ body_len =
              omega (arith, length-take (body_len - 0) (drop 0 buf)) in
            rw (f, tail_at, g, slice_in_range buf 0 body_len (omega arith) (omega arith))
              (rw size at (decode_body-Answers (take (body_len - 0) (drop 0 buf))))
      ]
]

-- what the widths of a footer's fields promise
abbrev pub FitsFooter : SstFooter → Type 0
FitsFooter f =
    (f.root_index_block_position.offset < u64_mod)
    × (f.tree_height < u32_mod)
    × (20 + length f.first_key + length f.last_key < u32_mod)

module _ (f : SstFooter) where
  pub length-footer_body : length (footer_body f) ≡ 20 + length f.first_key + length f.last_key
  unfolding footer_body
  length-footer_body = omega (
    arith,
    length-append (be_bytes 8 f.root_index_block_position.offset) (
        be_bytes 4 f.tree_height
        ++ (be_bytes 4 (as_u32 (length f.first_key))
            ++ (be_bytes 4 (as_u32 (length f.last_key)) ++ (f.first_key ++ f.last_key)))),
    length-append (be_bytes 4 f.tree_height) (
        be_bytes 4 (as_u32 (length f.first_key))
        ++ (be_bytes 4 (as_u32 (length f.last_key)) ++ (f.first_key ++ f.last_key))),
    length-append (be_bytes 4 (as_u32 (length f.first_key)))
        (be_bytes 4 (as_u32 (length f.last_key)) ++ (f.first_key ++ f.last_key)),
    length-append (be_bytes 4 (as_u32 (length f.last_key))) (f.first_key ++ f.last_key),
    length-append f.first_key f.last_key,
    length-be_bytes 8 f.root_index_block_position.offset,
    length-be_bytes 4 f.tree_height,
    length-be_bytes 4 (as_u32 (length f.first_key)),
    length-be_bytes 4 (as_u32 (length f.last_key)),
  )

  shape :
      footer_body f
      ≡ be_bytes 8 f.root_index_block_position.offset
        ++ (be_bytes 4 f.tree_height
            ++ (be_bytes 4 (as_u32 (length f.first_key))
                ++ (be_bytes 4 (as_u32 (length f.last_key))
                    ++ (f.first_key ++ (f.last_key ++ [])))))
  unfolding footer_body
  shape = rw (append-nil f.last_key) refl

  abbrev n : ℕ
  n = 20 + length f.first_key

  parts :
      (slice (footer_body f) 0 8 ≡ ok (be_bytes 8 f.root_index_block_position.offset))
      × (slice (footer_body f) 8 12 ≡ ok (be_bytes 4 f.tree_height))
      × (slice (footer_body f) 12 16 ≡ ok (be_bytes 4 (as_u32 (length f.first_key))))
      × (slice (footer_body f) 16 20 ≡ ok (be_bytes 4 (as_u32 (length f.last_key))))
      × (slice (footer_body f) 20 n ≡ ok f.first_key)
      × (slice (footer_body f) n (n + length f.last_key) ≡ ok f.last_key)
  parts =
      let whole = footer_body f in
      let (a, e1, s1) =
        slice-next [] (be_bytes 8 f.root_index_block_position.offset) _ whole 0 8 shape refl
          (omega (arith, length-be_bytes 8 f.root_index_block_position.offset)) in
      let (b, e2, s2) =
        slice-next _ (be_bytes 4 f.tree_height) _ whole 8 12 e1 s1
          (omega (arith, length-be_bytes 4 f.tree_height)) in
      let (c, e3, s3) =
        slice-next _ (be_bytes 4 (as_u32 (length f.first_key))) _ whole 12 16 e2 s2
          (omega (arith, length-be_bytes 4 (as_u32 (length f.first_key)))) in
      let (d, e4, s4) =
        slice-next _ (be_bytes 4 (as_u32 (length f.last_key))) _ whole 16 20 e3 s3
          (omega (arith, length-be_bytes 4 (as_u32 (length f.last_key)))) in
      let (g, e5, s5) = slice-next _ f.first_key _ whole 20 n e4 s4 refl in
      let (h, e6, s6) = slice-next _ f.last_key _ whole n (n + length f.last_key) e5 s5 refl in
      (a, b, c, d, g, h)

decode_keys-footer :
    (f : SstFooter)
    → decode_keys
        (footer_body f)
        (length (footer_body f))
        f.root_index_block_position.offset
        f.tree_height
        (length f.first_key)
        (length f.last_key)
      ≡ ok f
unfolding decode_keys
decode_keys-footer f =
    let (a, b, c, d, g, h) = parts f in
    rw
      (
        (==_iff (20 + length f.first_key + length f.last_key) (length (footer_body f))).1
            (sym (length-footer_body f)),
        g,
        h,
      )
      refl

decode_body-footer :
    (f : SstFooter) → FitsFooter f → decode_body (footer_body f) (length (footer_body f)) ≡ ok f
unfolding decode_body
decode_body-footer f (r, t, k) =
    let (a, b, c, d, g, h) = parts f in
    rw
      (
        le→ltb_false (length (footer_body f)) 20 (omega (arith, length-footer_body f)),
        a,
        b,
        c,
        d,
        from_be-be_bytes 8 f.root_index_block_position.offset (omega arith),
        from_be-be_bytes 4 f.tree_height (omega arith),
        as_u32_small (length f.first_key) (omega arith),
        as_u32_small (length f.last_key) (omega arith),
        from_be-be_bytes 4 (length f.first_key) (omega arith),
        from_be-be_bytes 4 (length f.last_key) (omega arith),
      )
      (decode_keys-footer f)

-- A footer is read back from the bytes it was encoded as: its position is a 64-bit and its height
-- a 32-bit word, and its keys leave the body shorter than 2^32.
pub footer_decode-encode : (f : SstFooter) → FitsFooter f → decode (encode f) ≡ ok f
unfolding decode encode
footer_decode-encode f w =
    let (r, t, k) = w in
    let body = footer_body f in
    let trailer = be_bytes 4 (as_u32 (length body)) in
    let size : length (body ++ trailer) ≡ length body + 4 =
      omega (arith, length-append body trailer, length-be_bytes 4 (as_u32 (length body))) in
    rw
      (
        size,
        le→ltb_false (length body + 4) 4 (omega arith),
        slice_from-append body trailer (length body + 4 - 4) (omega arith),
        as_u32_small (length body) (omega (arith, length-footer_body f)),
        from_be-be_bytes 4 (length body) (omega (arith, length-footer_body f)),
        le→ltb_false (length body + 4) (length body + 4) (omega arith),
        slice-append [] body (be_bytes 4 (length body)) 0 (length body) refl (omega arith),
      )
      (decode_body-footer f w)
