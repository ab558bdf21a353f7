-- ===== src/Bytes/Numeric.antt =====
-- Big-endian bytes are in the order of the numbers they stand for.
use mathlib.Core.List.{reverse-cons}
use native.Mathlib.Nat.{pow-suc}
use todb.Prelude.{
  ℕ, zero, suc, ◌/◌, ◌%◌, ◌^◌, ◌≡◌, ◌<◌, ◌∙◌, true, false, [], ◌∷◌, ◌++◌, length, ltb, ◌==◌,
  if◌then◌else◌, arith,
}
use todb.Bytes.Defs.{Bytes, le_bytes, be_bytes}
use todb.Bytes.Endian.{length-be_bytes}
use todb.Bytes.Order.{lt_bytes, eq_bytes}

be_bytes-suc : (w n : ℕ) → be_bytes (suc w) n ≡ be_bytes w (n / 256) ++ (n % 256 ∷ [])
unfolding be_bytes le_bytes
be_bytes-suc w n = reverse-cons (n % 256) (le_bytes w (n / 256))

eq_bytes-snoc :
    (xs ys : Bytes) (x y : ℕ)
    → length xs ≡ length ys
    → eq_bytes (xs ++ (x ∷ [])) (ys ++ (y ∷ [])) ≡ (if eq_bytes xs ys then x == y else false)
unfolding eq_bytes
eq_bytes-snoc [] [] x y h = ground arith
eq_bytes-snoc [] (b ∷ ys) x y h = absurd (omega arith)
eq_bytes-snoc (a ∷ xs) [] x y h = absurd (omega arith)
eq_bytes-snoc (a ∷ xs) (b ∷ ys) x y h = rw (eq_bytes-snoc xs ys x y (omega arith)) (ground arith)

lt_bytes-snoc :
    (xs ys : Bytes) (x y : ℕ)
    → length xs ≡ length ys
    → lt_bytes (xs ++ (x ∷ [])) (ys ++ (y ∷ []))
      ≡ (if lt_bytes xs ys then true else if eq_bytes xs ys then ltb x y else false)
unfolding lt_bytes eq_bytes
lt_bytes-snoc [] [] x y h = ground arith
lt_bytes-snoc [] (b ∷ ys) x y h = absurd (omega arith)
lt_bytes-snoc (a ∷ xs) [] x y h = absurd (omega arith)
lt_bytes-snoc (a ∷ xs) (b ∷ ys) x y h = rw (lt_bytes-snoc xs ys x y (omega arith)) (ground arith)

same_length : (w a b : ℕ) → length (be_bytes w a) ≡ length (be_bytes w b)
same_length w a b = omega (arith, length-be_bytes w a, length-be_bytes w b)

below : (w a : ℕ) → a < 256 ^ suc w → a / 256 < 256 ^ w
below w a h = omega (arith, pow-suc 256 w)

by_digits_eq : (a b : ℕ) → (if a / 256 == b / 256 then a % 256 == b % 256 else false) ≡ (a == b)
by_digits_eq a b = ground arith

by_digits_lt :
    (a b : ℕ)
    → (if ltb (a / 256) (b / 256)
        then true
        else if a / 256 == b / 256
        then ltb (a % 256) (b % 256)
        else false)
      ≡ ltb a b
by_digits_lt a b = ground arith

pub eq_bytes-be_bytes :
    (w a b : ℕ) → a < 256 ^ w → b < 256 ^ w → eq_bytes (be_bytes w a) (be_bytes w b) ≡ (a == b)
eq_bytes-be_bytes zero a b h k = unfold eq_bytes be_bytes le_bytes in ground arith
eq_bytes-be_bytes (suc w) a b h k =
    rw (be_bytes-suc w a, be_bytes-suc w b)
      (eq_bytes-snoc (be_bytes w (a / 256)) (be_bytes w (b / 256)) (a % 256) (b % 256)
          (same_length w (a / 256) (b / 256))
        ∙ rw (eq_bytes-be_bytes w (a / 256) (b / 256) (below w a h) (below w b k))
            (by_digits_eq a b))

pub lt_bytes-be_bytes :
    (w a b : ℕ) → a < 256 ^ w → b < 256 ^ w → lt_bytes (be_bytes w a) (be_bytes w b) ≡ ltb a b
lt_bytes-be_bytes zero a b h k = unfold lt_bytes be_bytes le_bytes in ground arith
lt_bytes-be_bytes (suc w) a b h k =
    rw (be_bytes-suc w a, be_bytes-suc w b)
      (lt_bytes-snoc (be_bytes w (a / 256)) (be_bytes w (b / 256)) (a % 256) (b % 256)
          (same_length w (a / 256) (b / 256))
        ∙ rw
            (
              lt_bytes-be_bytes w (a / 256) (b / 256) (below w a h) (below w b k),
              eq_bytes-be_bytes w (a / 256) (b / 256) (below w a h) (below w b k),
            )
            (by_digits_lt a b))
