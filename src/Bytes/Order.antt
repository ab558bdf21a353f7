-- ===== src/Bytes/Order.antt =====
-- The order of byte slices, which `RowKey` passes on (crates/storage/src/row_key.rs): lexicographic.
use todb.Prelude.{◌≡◌, refl, Bool, true, false, not, [], ◌∷◌, ltb, ◌==◌, if◌then◌else◌, arith}
use todb.Bytes.Defs.{Bytes}

unfoldable pub lt_bytes : Bytes → Bytes → Bool
lt_bytes [] [] = false
lt_bytes [] (y ∷ ys) = true
lt_bytes (x ∷ xs) [] = false
lt_bytes (x ∷ xs) (y ∷ ys) = if ltb x y then true else if x == y then lt_bytes xs ys else false

-- `a <= b`
abbrev pub le_bytes? : Bytes → Bytes → Bool
le_bytes? a b = not (lt_bytes b a)

-- `a == b`
unfoldable pub eq_bytes : Bytes → Bytes → Bool
eq_bytes [] [] = true
eq_bytes [] (y ∷ ys) = false
eq_bytes (x ∷ xs) [] = false
eq_bytes (x ∷ xs) (y ∷ ys) = if x == y then eq_bytes xs ys else false

pub lt_bytes_irrefl : (a : Bytes) → lt_bytes a a ≡ false
unfolding lt_bytes
lt_bytes_irrefl [] = refl
lt_bytes_irrefl (x ∷ xs) = ground (arith, lt_bytes_irrefl xs)

pub lt_bytes_trans :
    (a b c : Bytes) → lt_bytes a b ≡ true → lt_bytes b c ≡ true → lt_bytes a c ≡ true
unfolding lt_bytes
lt_bytes_trans [] [] c p q = ground arith
lt_bytes_trans [] (y ∷ ys) [] p q = ground arith
lt_bytes_trans [] (y ∷ ys) (z ∷ zs) p q = refl
lt_bytes_trans (x ∷ xs) [] c p q = ground arith
lt_bytes_trans (x ∷ xs) (y ∷ ys) [] p q = ground arith
lt_bytes_trans (x ∷ xs) (y ∷ ys) (z ∷ zs) p q = ground (arith, lt_bytes_trans xs ys zs)

pub eq_bytes_sound : (a b : Bytes) → eq_bytes a b ≡ true → a ≡ b
unfolding eq_bytes
eq_bytes_sound [] [] h = refl
eq_bytes_sound [] (y ∷ ys) h = ground arith
eq_bytes_sound (x ∷ xs) [] h = ground arith
eq_bytes_sound (x ∷ xs) (y ∷ ys) h = ground (arith, eq_bytes_sound xs ys)

pub eq_bytes_refl : (a : Bytes) → eq_bytes a a ≡ true
unfolding eq_bytes
eq_bytes_refl [] = refl
eq_bytes_refl (x ∷ xs) = ground (arith, eq_bytes_refl xs)

-- two keys of which neither is below the other are equal
pub lt_bytes_total : (a b : Bytes) → lt_bytes a b ≡ false → lt_bytes b a ≡ false → a ≡ b
unfolding lt_bytes
lt_bytes_total [] [] p q = refl
lt_bytes_total [] (y ∷ ys) p q = ground arith
lt_bytes_total (x ∷ xs) [] p q = ground arith
lt_bytes_total (x ∷ xs) (y ∷ ys) p q = ground (arith, lt_bytes_total xs ys)

pub lt_bytes_asym : (a b : Bytes) → lt_bytes a b ≡ true → lt_bytes b a ≡ false
lt_bytes_asym a b h = ground (arith, lt_bytes_trans a b a, lt_bytes_irrefl a)

-- `a <= b < c`
pub le_lt_trans : (a b c : Bytes) → lt_bytes b a ≡ false → lt_bytes b c ≡ true → lt_bytes a c ≡ true
unfolding lt_bytes
le_lt_trans [] b [] p q = ground (arith, lt_bytes_total b [])
le_lt_trans [] b (z ∷ zs) p q = refl
le_lt_trans (x ∷ xs) [] c p q = ground arith
le_lt_trans (x ∷ xs) (y ∷ ys) [] p q = ground arith
le_lt_trans (x ∷ xs) (y ∷ ys) (z ∷ zs) p q = ground (arith, le_lt_trans xs ys zs)
