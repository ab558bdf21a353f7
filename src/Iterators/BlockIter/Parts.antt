-- ===== src/Iterators/BlockIter/Parts.antt =====
-- Reading back the parts of a block: the offset tables and the byte areas that they point into.
use native.Mathlib.Nat.{add_assoc}
use todb.Prelude.{
  ℕ, zero, suc, ◌+◌, ◌*◌, ◌≤◌, ◌<◌, ◌≡◌, ap, ap₂, ◌∙◌, List, [], ◌∷◌, ◌++◌, length, map, get_elem?,
  take, some, ok, arith, append_assoc, length-append,
}
use todb.Bytes.{Bytes, slice, be_bytes, u32_mod, slice-append, length-be_bytes, from_be-be_bytes}
use todb.Builder.Layout.{push_offsets, extend_u32s, extend_all, sum}
use todb.Iterators.BlockIter.{index, parse_offsets}

abbrev pub AllU32 : List ℕ → Type 0
AllU32 [] = Unit
AllU32 (o ∷ os) = (o < u32_mod) × AllU32 os

pub push_offsets-AllU32 : (lens : List ℕ) (off : ℕ) → AllU32 (push_offsets lens off)
unfolding push_offsets
push_offsets-AllU32 [] off = (omega arith, tt)
push_offsets-AllU32 (len ∷ lens) off = (omega arith, push_offsets-AllU32 lens (off + len))

read_u32 :
    (pre post : Bytes) (off start : ℕ)
    → start ≡ length pre
    → off < u32_mod
    → slice (pre ++ (be_bytes 4 off ++ post)) start (start + 4) ≡ ok (be_bytes 4 off)
read_u32 pre post off start e h =
    slice-append pre (be_bytes 4 off) post start (start + 4) e
      (omega (arith, length-be_bytes 4 off))

-- The loop of `parse_header` reads back what the loop of `finish` wrote.
pub parse_offsets-extend_u32s :
    (offs : List ℕ) (pre post : Bytes) (start n : ℕ)
    → start ≡ length pre
    → n ≡ length offs
    → AllU32 offs
    → parse_offsets n (pre ++ (extend_u32s offs ++ post)) start ≡ ok (offs, start + 4 * length offs)
unfolding parse_offsets extend_u32s
parse_offsets-extend_u32s [] pre post start zero e m h = ap (λ (s : ℕ). ok ([], s)) (omega arith)
parse_offsets-extend_u32s [] pre post start (suc n) e m h = absurd (omega arith)
parse_offsets-extend_u32s (off ∷ offs) pre post start zero e m h = absurd (omega arith)
parse_offsets-extend_u32s (off ∷ offs) pre post start (suc n) e m h =
    rw (append_assoc (be_bytes 4 off) (extend_u32s offs) post) (
      rw (read_u32 pre (extend_u32s offs ++ post) off start e h.0) (
        rw (← append_assoc pre (be_bytes 4 off) (extend_u32s offs ++ post)) (
          rw
            (parse_offsets-extend_u32s offs (pre ++ be_bytes 4 off) post (start + 4) n
              (omega (arith, length-append pre (be_bytes 4 off), length-be_bytes 4 off))
              (omega arith) h.1)
            (ap₂ (λ (x s : ℕ). ok (x ∷ offs, s)) (from_be-be_bytes 4 off (omega arith))
              (omega arith)))))

-- The i-th offset is the start plus the lengths before the i-th part.
pub index-push_offsets :
    (lens : List ℕ) (off i : ℕ)
    → i ≤ length lens
    → off + sum lens < u32_mod
    → index (push_offsets lens off) i ≡ ok (off + sum (take i lens))
unfolding index push_offsets sum
index-push_offsets [] off zero h b = ap ok (omega arith)
index-push_offsets [] off (suc i) h b = absurd (omega arith)
index-push_offsets (len ∷ lens) off zero h b = ap ok (omega arith)
index-push_offsets (len ∷ lens) off (suc i) h b =
    index-push_offsets lens (off + len) i (omega arith) (omega arith)
    ∙ ap ok (add_assoc off len (sum (take i lens)))

-- The bytes between the lengths before the i-th part and those before the next are that part.
pub slice-extend_all :
    (parts : List Bytes) (pre post : Bytes) (i start : ℕ) {p : Bytes}
    → start ≡ length pre
    → get_elem? parts i ≡ some p
    → slice
        (pre ++ (extend_all parts ++ post))
        (start + sum (take i (map length parts)))
        (start + sum (take (suc i) (map length parts)))
      ≡ ok p
unfolding extend_all sum
slice-extend_all [] pre post i start e g = absurd (ground arith)
slice-extend_all (q ∷ parts) pre post zero start {p} e g =
    rw (append_assoc q (extend_all parts) post) (
      slice-append pre q (extend_all parts ++ post) (start + 0) (start + (length q + 0))
        (omega arith) (omega arith)
      ∙ ap ok (ground arith))
slice-extend_all (q ∷ parts) pre post (suc i) start e g =
    rw
      (
        append_assoc q (extend_all parts) post,
        ← append_assoc pre q (extend_all parts ++ post),
        ← add_assoc start (length q) (sum (take i (map length parts))),
        ← add_assoc start (length q) (sum (take (suc i) (map length parts))),
      )
      (slice-extend_all parts (pre ++ q) post i (start + length q)
        (omega (arith, length-append pre q)) g)
