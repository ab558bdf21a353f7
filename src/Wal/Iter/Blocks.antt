-- ===== src/Wal/Iter/Blocks.antt =====
-- Reads of a file through whole blocks, whose buffers held other bytes before.
use todb.Prelude.{
  ℕ, zero, suc, ◌+◌, ◌-◌, ◌*◌, ◌/◌, ◌%◌, ◌≤◌, ◌<◌, ◌≡◌, refl, sym, ap, ap₂, ◌∙◌, ◌++◌, ◌⊎◌, inl,
  inr, List, [], ◌∷◌, length, take, drop, min, ok, replicate, length-take, length-drop,
  length-append, length-replicate, append-nil, arith, le→leb, dec_lt,
}
use native.Mathlib.Nat.{div-add-mod', mod-lt, mul-le-mul_right, add-mul}
use todb.Bytes.{Bytes, slice, slice_in_range}
use todb.Wal.Error.{done}
use todb.Wal.Iter.{Segment, pread_all, raw_read, block_range, rest_of_frame, assemble}

suc_plus : (a b : ℕ) → suc (a + b) ≡ suc a + b
suc_plus a b = omega arith

module _ {ℓ} {A : Type ℓ} where
  take-prefix :
      (c n : ℕ) (xs ys : List A) → c ≤ n → c ≤ length xs → take c (take n xs ++ ys) ≡ take c xs
  take-prefix zero n xs ys h g = refl
  take-prefix (suc c) n [] ys h g = absurd (omega arith)
  take-prefix (suc c) zero (x ∷ xs) ys h g = absurd (omega arith)
  take-prefix (suc c) (suc n) (x ∷ xs) ys h g =
      ap (◌∷◌ x) (take-prefix c n xs ys (omega arith) (omega arith))

  window :
      (a c n : ℕ) (xs ys : List A)
      → a + c ≤ n
      → a + c ≤ length xs
      → take c (drop a (take n xs ++ ys)) ≡ take c (drop a xs)
  window zero c n xs ys h g = take-prefix c n xs ys (omega arith) (omega arith)
  window (suc a) zero n [] ys h g = refl
  window (suc a) (suc c) n [] ys h g = absurd (omega arith)
  window (suc a) c zero (x ∷ xs) ys h g = absurd (omega arith)
  window (suc a) c (suc n) (x ∷ xs) ys h g = window a c n xs ys (omega arith) (omega arith)

  drop-drop : (a b : ℕ) (xs : List A) → drop b (drop a xs) ≡ drop (a + b) xs
  drop-drop zero b xs = ap (λ k. drop k xs) (omega arith)
  drop-drop (suc a) zero [] = ap (λ k. drop k []) (suc_plus a 0)
  drop-drop (suc a) (suc b) [] = ap (λ k. drop k []) (suc_plus a (suc b))
  drop-drop (suc a) b (x ∷ xs) = drop-drop a b xs ∙ ap (λ k. drop k (x ∷ xs)) (suc_plus a b)

  take-split : (m k : ℕ) (xs : List A) → take m xs ++ take k (drop m xs) ≡ take (m + k) xs
  take-split zero k xs = ap (λ j. take j xs) (omega arith)
  take-split (suc m) zero [] = ap (λ j. take j []) (suc_plus m 0)
  take-split (suc m) (suc k) [] = ap (λ j. take j []) (suc_plus m (suc k))
  take-split (suc m) k (x ∷ xs) =
      ap (◌∷◌ x) (take-split m k xs) ∙ ap (λ j. take j (x ∷ xs)) (suc_plus m k)

  -- two parts of a list that follow each other, or of which the second is empty
  join :
      (xs : List A) (p c r q : ℕ)
      → c ≤ r
      → (p + c ≡ q) ⊎ (c ≡ r)
      → take (c - 0) (drop (p + 0) xs) ++ take (r - c) (drop q xs) ≡ take r (drop p xs)
  join xs p c r q h which =
      let whole : c - 0 ≡ c = omega arith in
      let here : p + 0 ≡ p = omega arith in
      ap₂ (λ j k. take j (drop k xs) ++ take (r - c) (drop q xs)) whole here ∙ elim which [
        | inl e ↦
            let sum : c + (r - c) ≡ r = omega arith in
            ap (λ u. take c (drop p xs) ++ take (r - c) u)
              (ap (λ k. drop k xs) (sym e) ∙ sym (drop-drop p c xs))
            ∙ take-split c (r - c) (drop p xs)
            ∙ ap (λ k. take k (drop p xs)) sum
        | inr e ↦
            let none_left : r - c ≡ 0 = omega arith in
            ap (λ k. take c (drop p xs) ++ take k (drop q xs)) none_left
            ∙ append-nil (take c (drop p xs))
            ∙ ap (λ k. take k (drop p xs)) e
      ]

-- a read that fills a part of a buffer is seen in every slice of that part
slice-pread_all :
    (file buf : Bytes) (offset a b : ℕ)
    → a ≤ b
    → b ≤ length buf
    → offset + b ≤ length file
    → slice (pread_all file buf offset) a b ≡ ok (take (b - a) (drop (offset + a) file))
unfolding pread_all
slice-pread_all file buf offset a b h g e =
    let old = drop (length (take (length buf) (drop offset file))) buf in
    slice_in_range (take (length buf) (drop offset file) ++ old) a b h (
      omega (
        arith,
        length-append (take (length buf) (drop offset file)) old,
        length-take (length buf) (drop offset file),
        length-drop offset file,
      ))
    ∙ ap ok (
        window a (b - a) (length buf) (drop offset file) old (omega arith)
          (omega (arith, length-drop offset file))
        ∙ ap (take (b - a)) (drop-drop offset a file))

-- what a reader sees of a block: the bytes of the file, and past its end what the buffer held
unfoldable pub block_of : Bytes → Bytes → ℕ → Bytes
block_of file frame i = pread_all file frame (i * length frame)

-- the same for `count` blocks; `frames` are the old contents of their buffers
unfoldable pub blocks_from : (ℕ → Bytes) → Bytes → ℕ → ℕ → List Bytes
blocks_from frames file i zero = []
blocks_from frames file i (suc count) =
    block_of file (frames i) i ∷ blocks_from frames file (suc i) count

-- a read at any offset
module _ (bs : ℕ) (positive : 0 < bs) where
  div_floor : (n : ℕ) → (n / bs) * bs + n % bs ≡ n
  div_floor n = div-add-mod' n bs

  mod_below : (n : ℕ) → n % bs < bs
  mod_below n = mod-lt n positive

  blocks_cover : (n : ℕ) → n ≤ ((n + bs - 1) / bs) * bs
  blocks_cover n = omega (arith, div_floor (n + bs - 1), mod_below (n + bs - 1))

  -- A read past the cache of bytes that a file has, at any offset, gives these bytes, whatever their
  -- position in the whole blocks that it reads. A block has at least one byte.
  pub raw_read-within :
      (file : Bytes) (offset len : ℕ)
      → offset + len ≤ length file
      → raw_read bs file offset len ≡ done (take len (drop offset file))
  unfolding raw_read
  raw_read-within file offset len h =
      let aligned = (offset / bs) * bs in
      let inside = offset - aligned in
      let size = ((inside + len + bs - 1) / bs) * bs in
      let floor = div_floor offset in
      rw
        (slice-pread_all file (replicate size 0) aligned inside (inside + len) (omega arith)
          (omega (arith, length-replicate {A = ℕ} size 0, blocks_cover (inside + len)))
          (omega (arith, floor)))
        (let count : inside + len - inside ≡ len = omega arith in
          let here : aligned + inside ≡ offset = omega (arith, floor) in
          ap₂ (λ j k. done (take j (drop k file))) count here)

  -- the block of the last byte does not come before the block of the first
  later_block : (s e n : ℕ) → s * bs ≤ n → n < e * bs + bs → s ≤ e
  later_block s e n h g = elim (dec_lt e s) [
    | yes l ↦ absurd (omega (arith, mul-le-mul_right bs l))
    | no m ↦ omega arith
  ]

  module _ (frames : ℕ → Bytes) (sized : (i : ℕ) → length (frames i) ≡ bs) (file : Bytes) where
    slice-block_of :
        (i a b : ℕ)
        → a ≤ b
        → b ≤ bs
        → i * bs + b ≤ length file
        → slice (block_of file (frames i) i) a b ≡ ok (take (b - a) (drop (i * bs + a) file))
    unfolding block_of
    slice-block_of i a b h g e =
        rw (sized i) (slice-pread_all file (frames i) (i * bs) a b h (omega (arith, sized i)) e)

    step_cases : (i r : ℕ) → (i * bs + min (suc r) bs ≡ suc i * bs) ⊎ (min (suc r) bs ≡ suc r)
    step_cases i r = elim (dec_lt (suc r) bs) [
      | yes l ↦ inr (omega arith)
      | no m ↦ inl (omega arith)
    ]

    rest_lem :
        (n i r : ℕ)
        → r ≤ n * bs
        → r ≤ length file - i * bs
        → rest_of_frame bs (blocks_from frames file i n) r ≡ done (take r (drop (i * bs) file))
    unfolding rest_of_frame blocks_from
    rest_lem zero i zero h g = refl
    rest_lem zero i (suc r) h g = absurd (omega arith)
    rest_lem (suc n) i zero h g = refl
    rest_lem (suc n) i (suc r) h g =
        let c = min (suc r) bs in
        rw (slice-block_of i 0 c (omega arith) (omega arith) (omega arith)) (
          rw (rest_lem n (suc i) (suc r - c) (omega arith) (omega arith))
            (ap done (join file (i * bs) c (suc r) (suc i * bs) (omega arith) (step_cases i r))))

    first_cases :
        (s o len : ℕ)
        → o < bs
        → (s * bs + o + min (bs - o) len ≡ suc s * bs) ⊎ (min (bs - o) len ≡ len)
    first_cases s o len h = elim (dec_lt len (bs - o)) [
      | yes l ↦ inr (omega arith)
      | no m ↦ inl (omega arith)
    ]

    -- from the block `s`, at `o` in it, with `d` blocks behind it
    assemble_lem :
        (s o d len : ℕ)
        → o < bs
        → o + len ≤ d * bs + bs
        → s * bs + o + len ≤ length file
        → assemble bs o len (blocks_from frames file s (suc d))
          ≡ done (take len (drop (s * bs + o) file))
    unfolding assemble blocks_from
    assemble_lem s o d len h g e =
        let first = min (bs - o) len in
        rw (slice-block_of s o (o + first) (omega arith) (omega arith) (omega arith)) (
          rw (rest_lem d (suc s) (len - first) (omega arith) (omega arith)) (
            ap done (
              let count : o + first - o ≡ first - 0 = omega arith in
              let here : s * bs + o ≡ s * bs + o + 0 = omega arith in
              ap₂ (λ j k. take j (drop k file) ++ take (len - first) (drop (suc s * bs) file)) count
                here
              ∙ join file (s * bs + o) first len (suc s * bs) (omega arith)
                  (first_cases s o len h))))

    -- the range of the blocks that a frame touches, and the frame from them
    pub assemble-blocks_from :
        (segment : Segment) (offset len : ℕ)
        → 0 < len
        → offset + len ≤ length file
        → (range : ℕ × ℕ) × (block_range bs
              (record { segment = segment; offset = offset; len = len })
            ≡ done range)
          × (assemble bs (offset % bs) len (blocks_from frames file range.0 range.1)
              ≡ done (take len (drop offset file)))
    unfolding block_range
    assemble-blocks_from segment offset len h g =
        let s = offset / bs in
        let e = (offset + len - 1) / bs in
        let floor : s * bs + offset % bs ≡ offset = div_floor offset in
        let floor' = div_floor (offset + len - 1) in
        let under = mod_below (offset + len - 1) in
        let order =
          later_block s e (offset + len - 1) (omega (arith, floor))
            (omega (arith, floor', under)) in
        let count : suc e - s ≡ suc (e - s) = omega (arith, order) in
        let total : s + (e - s) ≡ e = omega (arith, order) in
        let split : s * bs + (e - s) * bs ≡ e * bs =
          sym (add-mul s (e - s) bs) ∙ ap (λ k. k * bs) total in
        (
          (s, suc (e - s)),
          rw (le→leb 1 (offset + len) (omega arith)) (rw count refl),
          assemble_lem s (offset % bs) (e - s) len (mod_below offset)
                (omega (arith, floor, floor', under, split)) (omega (arith, floor))
              ∙ ap (λ k. done (take len (drop k file))) floor,
        )
