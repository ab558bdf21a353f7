-- ===== src/Lsm/Disk/Tail.antt =====
-- The file of a finished SST builder opens.
use todb.Prelude.{
  ℕ, ◌+◌, ◌-◌, ◌≡◌, ap, subst, ◌∙◌, [], ◌++◌, ok, ◌>>=◌, length, length-append, append_assoc,
  append-nil, arith, le→ltb_false, ok_injective,
}
use todb.Bytes.{
  Bytes, slice, from_be, be_bytes, as_u32, slice-append, slice_from-append, from_be-be_bytes,
  length-be_bytes,
}
use todb.Block.{DefaultSstWriter, sst_write_footer, write_block}
use todb.Builder.Footer.{SstFooter, footer_body, encode}
use todb.Builder.Footer.RoundTrip.{FitsFooter, length-footer_body, footer_decode-encode}
use todb.Builder.Sst.{SstBuilder, finish, flush_data_block, flush_levels, flush_top, footer_of}
use todb.Iterators.IndexTree.Stale.{bind-ok}
use todb.Lsm.Disk.{read_footer}

module _ (blocks : Bytes) (f : SstFooter) (fits : FitsFooter f) where
  body_len : as_u32 (length (footer_body f)) ≡ length (footer_body f)
  unfolding as_u32
  body_len = omega (arith, length-footer_body f, fits)

  length-encode : length (encode f) ≡ length (footer_body f) + 4
  unfolding encode
  length-encode =
      length-append (footer_body f) (be_bytes 4 (as_u32 (length (footer_body f))))
      ∙ ap (λ (n : ℕ). length (footer_body f) + n)
          (length-be_bytes 4 (as_u32 (length (footer_body f))))

  trailer_at :
      slice (blocks ++ encode f) (length (blocks ++ encode f) - 4) (length (blocks ++ encode f))
      ≡ ok (be_bytes 4 (as_u32 (length (footer_body f))))
  unfolding encode
  trailer_at =
      let pre = blocks ++ footer_body f in
      let tail = be_bytes 4 (as_u32 (length (footer_body f))) in
      let same : pre ++ (tail ++ []) ≡ blocks ++ (footer_body f ++ tail) =
        ap (◌++◌ pre) (append-nil tail) ∙ append_assoc blocks (footer_body f) tail in
      let size = length-append pre (tail ++ []) in
      let end = length-append tail [] in
      let four = length-be_bytes 4 (as_u32 (length (footer_body f))) in
      subst (λ (b : Bytes). slice b (length b - 4) (length b) ≡ ok tail) same
        (slice-append pre tail [] _ _ (omega arith) (omega arith))

  trailer_value : from_be (be_bytes 4 (as_u32 (length (footer_body f)))) ≡ length (footer_body f)
  trailer_value =
      from_be-be_bytes 4 (as_u32 (length (footer_body f)))
        (omega (arith, body_len, length-footer_body f, fits))
      ∙ body_len

  read_footer-append : read_footer (blocks ++ encode f) ≡ ok f
  unfolding read_footer
  read_footer-append =
      let size = length-append blocks (encode f) in
      rw (le→ltb_false (length (blocks ++ encode f)) 4 (omega (arith, length-encode))) (
        rw (trailer_at, ◌>>=◌)
          (rw trailer_value (
            rw
              (le→ltb_false (length (blocks ++ encode f)) (length (footer_body f) + 4)
                (omega (arith, length-encode)))
              (rw
                (
                  slice_from-append blocks (encode f)
                      (length (blocks ++ encode f) - (length (footer_body f) + 4))
                      (omega (arith, length-encode)),
                  ◌>>=◌,
                )
                (footer_decode-encode f fits)))))

-- The file that a finished SST builder has written opens: the footer read from its tail is the one
-- that `finish` returned, provided that the lengths of the keys, the height and the position fit
-- their fields.
pub finish-read_footer :
    (b : SstBuilder) (f : SstFooter) (w : DefaultSstWriter)
    → finish b ≡ ok (f, w)
    → FitsFooter f
    → read_footer w.inner.buf ≡ ok f
unfolding finish sst_write_footer write_block
finish-read_footer b f w e fits =
    let (c, e1, r1) = bind-ok (flush_data_block b) _ e in
    let (d, e2, r2) = bind-ok (flush_levels (length c.index_builders) 0 c) _ r1 in
    let (g, e3, r3) = bind-ok (flush_top d) _ r2 in
    let done = ok_injective r3 in
    let footer : footer_of g ≡ f = ap (λ (p : SstFooter × DefaultSstWriter). p.0) done in
    let buf : g.writer.inner.buf ++ encode (footer_of g) ≡ w.inner.buf =
      ap (λ (p : SstFooter × DefaultSstWriter). p.1.inner.buf) done in
    rw (← buf) (rw footer (read_footer-append g.writer.inner.buf f fits))
