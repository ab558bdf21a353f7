-- ===== src/Bytes/Endian.antt =====
-- Writing an integer and reading it back.
use native.Mathlib.Nat.{pow-suc}
use todb.Prelude.{
  ℕ, zero, suc, ◌/◌, ◌^◌, ◌<◌, ◌≡◌, ap, ◌∙◌, length, arith, reverse-reverse, length-reverse,
}
use todb.Bytes.Defs.{le_bytes, from_le, be_bytes, from_be}

pub length-le_bytes : (w n : ℕ) → length (le_bytes w n) ≡ w
unfolding le_bytes
length-le_bytes zero n = omega arith
length-le_bytes (suc w) n = omega (arith, length-le_bytes w (n / 256))

pub length-be_bytes : (w n : ℕ) → length (be_bytes w n) ≡ w
length-be_bytes w n = unfold be_bytes in length-reverse (le_bytes w n) ∙ length-le_bytes w n

pub from_le-le_bytes : (w n : ℕ) → n < 256 ^ w → from_le (le_bytes w n) ≡ n
unfolding from_le le_bytes
from_le-le_bytes zero n h = omega arith
from_le-le_bytes (suc w) n h =
    omega (arith, from_le-le_bytes w (n / 256) (omega (arith, pow-suc 256 w)))

pub from_be-be_bytes : (w n : ℕ) → n < 256 ^ w → from_be (be_bytes w n) ≡ n
from_be-be_bytes w n h =
    unfold from_be be_bytes in ap from_le (reverse-reverse (le_bytes w n)) ∙ from_le-le_bytes w n h
