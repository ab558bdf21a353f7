-- ===== src/Wal/IndexWriter/Footer.antt =====
-- A footer that was padded to a block is put together again as the module comment of the source
-- says: the body from the start of the block, the trailer from its end.
use todb.Prelude.{
  zero, suc, ◌∷◌, append-nil, take-append_past, ℕ, ◌+◌, ◌-◌, ◌≤◌, ◌≡◌, refl, sym, ap, ◌∙◌, ◌++◌, [],
  length, take, drop, replicate, ok, arith, le→leb, length-append, length-take, length-drop,
  length-replicate, append_assoc,
}
use todb.Bytes.{
  Bytes, slice, slice_from, be_bytes, as_u32, slice-append, slice_from-append, length-be_bytes,
}
use todb.Builder.Footer.{SstFooter, footer_body, encode, decode}
use todb.Builder.Footer.RoundTrip.{FitsFooter, footer_decode-encode}
use todb.Wal.IndexWriter.{copy_at, footer_block}

copy_at-fits :
    (dst : Bytes) (off : ℕ) (src : Bytes)
    → off + length src ≤ length dst
    → copy_at dst off src ≡ ok (take off dst ++ (src ++ drop (off + length src) dst))
unfolding copy_at
copy_at-fits dst off src h = rw (le→leb (off + length src) (length dst) h) refl

drop_all : (n : ℕ) (b : Bytes) → length b ≤ n → drop n b ≡ []
drop_all zero [] h = refl
drop_all (suc n) [] h = refl
drop_all zero (x ∷ b) h = absurd (omega arith)
drop_all (suc n) (x ∷ b) h = drop_all n b (omega arith)

-- the last bytes of a buffer, overwritten
copy_at-end :
    (front back src : Bytes) (off : ℕ)
    → length front ≤ off
    → off + length src ≡ length (front ++ back)
    → copy_at (front ++ back) off src ≡ ok (front ++ (take (off - length front) back ++ src))
copy_at-end front back src off h e =
    copy_at-fits (front ++ back) off src (omega arith)
    ∙ ap ok (
        ap (λ (t : Bytes). t ++ (src ++ drop (off + length src) (front ++ back)))
          (take-append_past front back off h)
        ∙ ap (λ (t : Bytes). (front ++ take (off - length front) back) ++ (src ++ t))
            (drop_all (off + length src) (front ++ back) (omega arith))
        ∙ ap (λ (t : Bytes). (front ++ take (off - length front) back) ++ t) (append-nil src)
        ∙ append_assoc front (take (off - length front) back) src)

module _ (block_size : ℕ) (body trailer : Bytes) (four : length trailer ≡ 4)
    (room : length body + 4 ≤ block_size) where
  abbrev zeros : Bytes
  zeros = drop (0 + length body) (replicate block_size 0)

  length-zeros : length zeros ≡ block_size - length body
  length-zeros = omega (
    arith,
    length-drop (0 + length body) (replicate {A = ℕ} block_size 0),
    length-replicate {A = ℕ} block_size 0,
  )

  abbrev middle : Bytes
  middle = take (block_size - 4 - length body) zeros

  size : length (body ++ trailer) ≡ length body + 4
  size = omega (arith, four, length-append body trailer)

  -- body and trailer of a footer end up at the two ends of the block
  footer_block-parts : footer_block block_size (body ++ trailer) ≡ ok (body ++ (middle ++ trailer))
  unfolding footer_block
  footer_block-parts =
      rw
        (
          size,
          le→leb 4 (length body + 4) (omega arith),
          le→leb (length body + 4) block_size room,
          slice-append [] body trailer 0 (length body + 4 - 4) refl (omega arith),
          copy_at-fits (replicate block_size 0) 0 body
              (omega (arith, room, length-replicate {A = ℕ} block_size 0)),
          slice_from-append body trailer (length body + 4 - 4) (omega arith),
        )
        (copy_at-end body zeros trailer (block_size - 4) (omega (arith, room))
          (omega (arith, room, four, length-append body zeros, length-zeros)))

  length-padded : length (body ++ (middle ++ trailer)) ≡ block_size
  length-padded = omega (
    arith,
    four,
    room,
    length-append body (middle ++ trailer),
    length-append middle trailer,
    length-take (block_size - 4 - length body) zeros,
    length-zeros,
  )

-- The block that `write_footer` writes holds the whole footer: its first bytes are the body and its
-- last four the trailer, and these two put together decode to the footer. The encoding fits the
-- block, and the fields have the widths of their types.
pub footer_block-decode :
    (block_size : ℕ) (f : SstFooter)
    → FitsFooter f
    → length (encode f) ≤ block_size
    → (block body trailer : Bytes) × (encode f ≡ body ++ trailer)
      × (length trailer ≡ 4)
      × (footer_block block_size (encode f) ≡ ok block)
      × (slice block 0 (length body) ≡ ok body)
      × (slice_from block (block_size - 4) ≡ ok trailer)
      × (decode (body ++ trailer) ≡ ok f)
unfolding encode
footer_block-decode block_size f w fits =
    let body = footer_body f in
    let trailer = be_bytes 4 (as_u32 (length body)) in
    let four : length trailer ≡ 4 = length-be_bytes 4 (as_u32 (length body)) in
    let room : length body + 4 ≤ block_size = omega (arith, length-append body trailer) in
    let mid = middle block_size body trailer four room in
    let total = length-padded block_size body trailer four room in
    (
      body ++ (mid ++ trailer),
      body,
      trailer,
      refl,
      four,
      footer_block-parts block_size body trailer four room,
      slice-append [] body (mid ++ trailer) 0 (length body) refl (omega arith),
      rw (sym (append_assoc body mid trailer)) (
          slice_from-append (body ++ mid) trailer (block_size - 4) (
            omega (
              arith,
              four,
              total,
              length-append body (mid ++ trailer),
              length-append mid trailer,
              length-append body mid,
            ))),
      footer_decode-encode f w,
    )
