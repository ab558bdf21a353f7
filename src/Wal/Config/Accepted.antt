-- ===== src/Wal/Config/Accepted.antt =====
-- What an accepted configuration promises to the log.
use todb.Prelude.{
  ℕ, zero, suc, ◌%◌, ◌^◌, ◌≤◌, ◌<◌, ◌≡◌, ◌⊎◌, inl, inr, refl, true, false, ltb, leb, ◌==◌, arith,
  Bool-cases, ==_iff, ltb_false→le, leb_false→lt,
}
use todb.Wal.Error.{done, fail, invalid_config}
use todb.Wal.Config.{WalConfig, is_power_below, is_power_of_two, validate}

-- what `validate` is to make sure of
pub record IsSound (c : WalConfig) : Type 0 where
  pub block_is_large : 512 ≤ c.block_size
  pub block_is_power : (w : ℕ) × (c.block_size ≡ 2 ^ w)
  pub segment_aligned : c.segment_size % c.block_size ≡ 0
  pub buffer_aligned : c.buffer_size % c.block_size ≡ 0
  pub buffer_is_smaller : c.buffer_size < c.segment_size
  pub spare_buffers : 2 ≤ c.buffer_count
  pub cache_not_empty : 0 < c.read_cache_blocks

power_of : (w n : ℕ) → is_power_below w n ≡ true → (v : ℕ) × (n ≡ 2 ^ v)
unfolding is_power_below
power_of zero n e = cc e
power_of (suc w) n e = elim (Bool-cases (n == 2 ^ w)) [
  | inl t ↦ (w, (==_iff n (2 ^ w)).0 t)
  | inr f ↦ power_of w n (rw f at e)
]

not_zero : (n : ℕ) → (n == 0) ≡ false → 0 < n
not_zero n e = ground arith

-- `validate` accepts a configuration or fails with `invalid_config`, and what it accepts is sound:
-- blocks are powers of two from 512 on, segments and buffers whole blocks, a buffer smaller than
-- a segment, and there are spare buffers and a cache.
pub validate-IsSound :
    (c : WalConfig) → ((validate c ≡ done tt) × IsSound c) ⊎ (validate c ≡ fail invalid_config)
unfolding validate
validate-IsSound c = elim (Bool-cases (ltb c.block_size 512)) [
  | inl t ↦ inr (rw t refl)
  | inr large ↦ elim (Bool-cases (is_power_of_two c.block_size)) [
    | inr f ↦ inr (rw (large, f) refl)
    | inl power ↦ elim (Bool-cases (c.segment_size % c.block_size == 0)) [
      | inr f ↦ inr (rw (large, power, f) refl)
      | inl segment ↦ elim (Bool-cases (c.buffer_size % c.block_size == 0)) [
        | inr f ↦ inr (rw (large, power, segment, f) refl)
        | inl buffer ↦ elim (Bool-cases (leb c.segment_size c.buffer_size)) [
          | inl t ↦ inr (rw (large, power, segment, buffer, t) refl)
          | inr smaller ↦ elim (Bool-cases (ltb c.buffer_count 2)) [
            | inl t ↦ inr (rw (large, power, segment, buffer, smaller, t) refl)
            | inr spare ↦ elim (Bool-cases (c.read_cache_blocks == 0)) [
              | inl t ↦ inr (rw (large, power, segment, buffer, smaller, spare, t) refl)
              | inr cache ↦ inl (
                rw (large, power, segment, buffer, smaller, spare, cache) refl,
                record {
                  block_is_large = ltb_false→le c.block_size 512 large;
                  block_is_power = power_of 64 c.block_size power;
                  segment_aligned = (==_iff (c.segment_size % c.block_size) 0).0 segment;
                  buffer_aligned = (==_iff (c.buffer_size % c.block_size) 0).0 buffer;
                  buffer_is_smaller = leb_false→lt c.segment_size c.buffer_size smaller;
                  spare_buffers = ltb_false→le c.buffer_count 2 spare;
                  cache_not_empty = not_zero c.read_cache_blocks cache;
                },
              )
            ]
          ]
        ]
      ]
    ]
  ]
]
