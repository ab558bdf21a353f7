-- ===== src/Prelude/Outcome.antt =====
-- What a call of the program does: it returns, it returns an error, or it panics. `no_fuel` is the
-- model's own: a loop was given fewer rounds than it takes.
use mathlib.Core.Path.{◌≡◌, ap}
use mathlib.Core.Bool.{Bool, true, false}
use mathlib.Core.Option.{Option, none, some}

-- `StorageError` of crates/storage/src/errors.rs, without the message texts.
pub data StorageError : Type 0 where
  invalid_key invalid_value invalid_config row_encode_error transaction_conflict : StorageError
  not_found internal_error io_error wal_corrupted : StorageError

pub data Run {ℓ} (A : Type ℓ) : Type ℓ where
  ok : A → Run A
  err : StorageError → Run A
  panic : Run A
  no_fuel : Run A

infixl 5 ◌>>=◌ ◌>>◌
abbrev pub ◌>>=◌ {ℓ κ} : {A : Type ℓ} {B : Type κ} → Run A → (A → Run B) → Run B
ok a >>= f = f a
err e >>= f = err e
panic >>= f = panic
no_fuel >>= f = no_fuel

abbrev pub ◌>>◌ {ℓ κ} : {A : Type ℓ} {B : Type κ} → Run A → Run B → Run B
m >> k = m >>= λ _. k

-- `assert!`
abbrev pub assert : Bool → Run (Unit {0})
assert true = ok tt
assert false = panic

-- `Option::unwrap`
abbrev pub unwrap {ℓ} : {T : Type ℓ} → Option T → Run T
unwrap none = panic
unwrap (some x) = ok x

abbrev or_default {ℓ} : {A : Type ℓ} → A → Run A → A
or_default d (ok a) = a
or_default d (err e) = d
or_default d panic = d
or_default d no_fuel = d

pub ok_injective {ℓ} : {A : Type ℓ} {a b : A} → ok a ≡ ok b → a ≡ b
ok_injective {A = A} {a} {b} e = ap (or_default a) e
