-- ===== src/Wal/Config.antt =====
-- crates/storage/src/wal/config.rs: `WalConfig` and its validation.
pub mod Accepted
use todb.Prelude.{
  ℕ, zero, suc, ◌%◌, ◌^◌, Bool, true, false, not, ◌||◌, ltb, leb, ◌==◌, if◌then◌else◌,
}
use todb.Wal.Error.{WalRun, done, fail, invalid_config, ◌>>=◌, ◌>>◌}

pub record WalConfig : Type 0 where
  pub segment_size : ℕ
  pub buffer_size : ℕ
  pub block_size : ℕ
  pub buffer_count : ℕ
  pub read_cache_blocks : ℕ
  pub o_direct : Bool

unfoldable pub default : WalConfig
default = record {
  segment_size = 2 ^ 30;
  buffer_size = 2 ^ 24;
  block_size = 4096;
  buffer_count = 2;
  read_cache_blocks = 64;
  o_direct = true;
}

-- is `n` one of the first powers of two?
unfoldable pub is_power_below : ℕ → ℕ → Bool
is_power_below zero n = false
is_power_below (suc w) n = (n == 2 ^ w) || is_power_below w n

-- `usize::is_power_of_two`
abbrev pub is_power_of_two : ℕ → Bool
is_power_of_two n = is_power_below 64 n

-- the closure `misaligned`; `is_multiple_of(0)` holds of 0 alone, as the remainder by 0 does
abbrev pub misaligned : WalConfig → ℕ → WalRun (Unit {0})
misaligned c v = if not (v % c.block_size == 0) then fail invalid_config else done tt

unfoldable pub validate : WalConfig → WalRun (Unit {0})
validate c =
    if ltb c.block_size 512 || not (is_power_of_two c.block_size) then fail invalid_config else do
      misaligned c c.segment_size
      misaligned c c.buffer_size
      if leb c.segment_size c.buffer_size
          then fail invalid_config
          else if ltb c.buffer_count 2
          then fail invalid_config
          else if c.read_cache_blocks == 0
          then fail invalid_config
          else done tt
