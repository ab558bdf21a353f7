-- ===== src/Bytes/Slice.antt =====
-- A slice at the bounds of a part is that part.
use todb.Prelude.{
  panic, ◌<◌, append_assoc, sym, ℕ, ◌+◌, ◌-◌, ◌≤◌, ◌≡◌, ap, ◌++◌, length, take, drop, ok, arith,
  length-append, take-append_length, drop-append_length, le→leb, ◌∙◌, take_all, length-replicate,
  replicate, length-take,
}
use todb.Bytes.Defs.{Bytes, slice, slice_from, resize}

pub slice_in_range :
    (b : Bytes) (start end : ℕ)
    → start ≤ end
    → end ≤ length b
    → slice b start end ≡ ok (take (end - start) (drop start b))
unfolding slice
slice_in_range b start end h k = ground arith

-- the middle of three parts
pub slice-append :
    (pre mid post : Bytes) (start end : ℕ)
    → start ≡ length pre
    → end ≡ length pre + length mid
    → slice (pre ++ (mid ++ post)) start end ≡ ok mid
slice-append pre mid post start end p q =
    slice_in_range (pre ++ (mid ++ post)) start end (omega arith)
      (omega (arith, length-append pre (mid ++ post), length-append mid post))
    ∙ ap ok (
        ap (take (end - start)) (drop-append_length pre (mid ++ post) start p)
        ∙ take-append_length mid post (end - start) (omega arith))

pub slice_from-append :
    (pre post : Bytes) (start : ℕ) → start ≡ length pre → slice_from (pre ++ post) start ≡ ok post
unfolding slice_from
slice_from-append pre post start p =
    rw (le→leb start (length (pre ++ post)) (omega (arith, length-append pre post)))
      (ap ok (drop-append_length pre post start p))

pub length-resize : (n : ℕ) (b : Bytes) → length (resize n b) ≡ n
unfolding resize
length-resize n b = omega (
  arith,
  length-append (take n b) (replicate (n - length b) 0),
  length-take n b,
  length-replicate {A = ℕ} (n - length b) 0,
)

pub resize-append :
    (n : ℕ) (b : Bytes) → length b ≤ n → resize n b ≡ b ++ replicate (n - length b) 0
unfolding resize
resize-append n b h = rw (take_all n b h)

-- of parts that stand one after the other, the next one, and where the rest begins
pub slice-next :
    (pre part rest buf : Bytes) (start end : ℕ)
    → buf ≡ pre ++ (part ++ rest)
    → length pre ≡ start
    → start + length part ≡ end
    → (slice buf start end ≡ ok part) × (buf ≡ (pre ++ part) ++ rest) × (length (pre ++ part) ≡ end)
slice-next pre part rest buf start end e s t = (
  rw e (slice-append pre part rest start end (sym s) (omega arith)),
  e ∙ sym (append_assoc pre part rest),
  omega (arith, length-append pre part),
)

pub slice_from_in_range :
    (b : Bytes) (start : ℕ) → start ≤ length b → slice_from b start ≡ ok (drop start b)
unfolding slice_from
slice_from_in_range b start h = ground arith

pub slice_out_of_range : (b : Bytes) (start end : ℕ) → length b < end → slice b start end ≡ panic
unfolding slice
slice_out_of_range b start end h = ground arith
