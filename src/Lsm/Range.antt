-- ===== src/Lsm/Range.antt =====
-- crates/storage/src/lsm_iter.rs: `LsmForwardScan` and `LsmReverseScan`, the scans of a range.
--
-- The reverse scan is the forward one with the order and the two bounds exchanged, so both are
-- written once: `ahead` is the order of the scan, `start` the bound that it seeks to and `stop` the
-- one that `valid` enforces. The conversion of the values at the end changes only their type.
pub mod Bounds
pub mod Reads
use todb.Prelude.{
  ℕ, zero, suc, Bool, true, false, not, List, [], ◌∷◌, Option, none, some, Run, ok, no_fuel, unwrap,
  ◌>>=◌,
}
use todb.Bytes.{Bytes}
use todb.Bytes.Order.{eq_bytes}
use todb.Iterators.Traits.{Iter}

-- `std::ops::Bound`
pub data Bound : Type 0 where
  included excluded : Bytes → Bound
  unbounded : Bound

pub record LsmScan (I : Type 0) : Type 0 where
  pub inner : I
  pub start : Bound
  pub stop : Bound

-- the test of `valid` on the current key
unfoldable pub before_stop : (Bytes → Bytes → Bool) → Bound → Bytes → Bool
before_stop ahead (included end) key = not (ahead end key)
before_stop ahead (excluded end) key = ahead key end
before_stop ahead unbounded key = true

-- `map_or(false, |k| k == start)`
abbrev pub has_key : Bytes → Option Bytes → Bool
has_key start none = false
has_key start (some k) = eq_bytes k start

module _ {I V : Type 0} (ops : Iter I V) (ahead : Bytes → Bytes → Bool) where
  unfoldable pub new : I → Bound → Bound → LsmScan I
  new inner start stop = record { inner = inner; start = start; stop = stop }

  -- the loop of `init` behind an excluded bound
  unfoldable pub skip_equal : ℕ → Bytes → I → Run I
  skip_equal zero start s = no_fuel
  skip_equal (suc fuel) start s = elim (ops.valid s) [
    | false ↦ ok s
    | true ↦ do
      k ← ops.key s
      elim (has_key start k) [ false ↦ ok s | true ↦ do t ← ops.next s; skip_equal fuel start t ]
  ]

  -- where `init` moves the inner iterator
  unfoldable pub init_at : ℕ → Bound → I → Run I
  init_at fuel (included start) s = ops.seek s start
  init_at fuel (excluded start) s = do t ← ops.seek s start; skip_equal fuel start t
  init_at fuel unbounded s = ops.seek_to_first s

  -- a scan whose inner iterator has moved
  abbrev pub scanned : LsmScan I → Run I → Run (LsmScan I)
  scanned s m = m >>= λ (i : I). ok (record s { inner = i })

  unfoldable pub init : ℕ → LsmScan I → Run (LsmScan I)
  init fuel s = scanned s (init_at fuel s.start s.inner)

  unfoldable pub valid : LsmScan I → Run Bool
  valid s = elim (ops.valid s.inner) [
    | false ↦ ok false
    | true ↦ do k ← ops.key s.inner; k ← unwrap k; ok (before_stop ahead s.stop k)
  ]

  unfoldable pub seek_to_first : LsmScan I → Run (LsmScan I)
  seek_to_first s = scanned s (ops.seek_to_first s.inner)

  unfoldable pub seek : LsmScan I → Bytes → Run (LsmScan I)
  seek s target = scanned s (ops.seek s.inner target)

  unfoldable pub next : LsmScan I → Run (LsmScan I)
  next s = scanned s (ops.next s.inner)

  unfoldable pub key : LsmScan I → Run (Option Bytes)
  key s = do v ← valid s; elim v [ false ↦ ok none | true ↦ ops.key s.inner ]

  unfoldable pub value : LsmScan I → Run (Option V)
  value s = do v ← valid s; elim v [ false ↦ ok none | true ↦ ops.value s.inner ]

  -- the client's loop over a `ScanIter`
  unfoldable pub collect : ℕ → LsmScan I → Run (List (Bytes × V))
  collect zero s = no_fuel
  collect (suc fuel) s = do
    v ← valid s
    elim v [
      | false ↦ ok []
      | true ↦ do
        k ← key s
        k ← unwrap k
        x ← value s
        x ← unwrap x
        t ← next s
        rest ← collect fuel t
        ok ((k, x) ∷ rest)
    ]
