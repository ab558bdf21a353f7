-- ===== src/Wal/Error.antt =====
-- `WalError` of crates/storage/src/wal/error.rs, without the message texts, and what a call of the
-- write-ahead log does.
use todb.Prelude.{ℕ, Run, ok, err, panic, no_fuel}

pub data WalError : Type 0 where
  io : WalError
  crc_mismatch : ℕ → ℕ → WalError
  header_corrupt : ℕ → WalError
  invalid_config : WalError
  closed : WalError

pub data WalRun {ℓ} (A : Type ℓ) : Type ℓ where
  done : A → WalRun A
  fail : WalError → WalRun A
  crash : WalRun A

infixl 5 ◌>>=◌ ◌>>◌
abbrev pub ◌>>=◌ {ℓ κ} : {A : Type ℓ} {B : Type κ} → WalRun A → (A → WalRun B) → WalRun B
done a >>= f = f a
fail e >>= f = fail e
crash >>= f = crash

-- the same, for a module that has `Run` in its do blocks
abbrev pub and_then {ℓ κ} : {A : Type ℓ} {B : Type κ} → WalRun A → (A → WalRun B) → WalRun B
and_then m f = m >>= f

-- an indexing or slicing that panics out of range
abbrev pub lift {ℓ} : {A : Type ℓ} → Run A → WalRun A
lift (ok a) = done a
lift (err e) = fail io
lift panic = crash
lift no_fuel = crash

abbrev pub ◌>>◌ {ℓ κ} : {A : Type ℓ} {B : Type κ} → WalRun A → WalRun B → WalRun B
m >> k = m >>= λ _. k
