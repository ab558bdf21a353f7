-- ===== src/Bytes/Defs.antt =====
-- Rust's slices and `to_le_bytes`, `to_be_bytes`, `from_le_bytes`, `from_be_bytes`.
use todb.Prelude.{
  ℕ, zero, suc, ◌+◌, ◌-◌, ◌*◌, ◌/◌, ◌%◌, ◌&&◌, List, [], ◌∷◌, ◌++◌, reverse, leb, if◌then◌else◌,
  length, take, drop, replicate, Run, ok, panic,
}

abbrev pub Bytes : Type 0
Bytes = List ℕ

abbrev pub u32_mod : ℕ
u32_mod = 0x1_0000_0000

abbrev pub u64_mod : ℕ
u64_mod = 0x1_0000_0000_0000_0000

-- `n as u32`
abbrev pub as_u32 : ℕ → ℕ
as_u32 n = n % u32_mod

-- `b[start..end]`, which panics out of range.
unfoldable pub slice : Bytes → ℕ → ℕ → Run Bytes
slice b start end =
    if leb start end && leb end (length b) then ok (take (end - start) (drop start b)) else panic

-- `b[start..]`
unfoldable pub slice_from : Bytes → ℕ → Run Bytes
slice_from b start = if leb start (length b) then ok (drop start b) else panic

-- `w` bytes of `n`, the least first.
unfoldable pub le_bytes : ℕ → ℕ → Bytes
le_bytes zero n = []
le_bytes (suc w) n = (n % 256) ∷ le_bytes w (n / 256)

unfoldable pub from_le : Bytes → ℕ
from_le [] = 0
from_le (b ∷ bs) = b + 256 * from_le bs

unfoldable pub be_bytes : ℕ → ℕ → Bytes
unfolding le_bytes
be_bytes w n = reverse (le_bytes w n)

unfoldable pub from_be : Bytes → ℕ
unfolding from_le
from_be b = from_le (reverse b)

-- `Vec::resize(n, 0)`: it cuts a longer buffer and fills a shorter one with zeros.
unfoldable pub resize : ℕ → Bytes → Bytes
resize n b = take n b ++ replicate (n - length b) 0
