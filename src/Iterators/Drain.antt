-- ===== src/Iterators/Drain.antt =====
-- The loop of the clients of an iterator, as in `LsmStore::build_sst_from_memtable` and
-- `FlushState::finalize_segment`: read the current entry, hand it on, step, while valid.
use todb.Prelude.{
  ℕ, zero, suc, ◌<◌, ◌≡◌, Bool, true, false, List, [], ◌∷◌, length, Run, ok, no_fuel, ◌>>=◌, unwrap,
  arith,
}
use todb.Bytes.{Bytes}
use todb.Iterators.Traits.{Iter, Scans, skip_to, length-skip_to}

module _ {I V : Type 0} (ops : Iter I V) where
  unfoldable pub drain : ℕ → I → Run (List (Bytes × V))
  drain zero s = no_fuel
  drain (suc fuel) s = elim (ops.valid s) [
    | false ↦ ok []
    | true ↦ (do
      k ← ops.key s
      k ← unwrap k
      v ← ops.value s
      v ← unwrap v
      t ← ops.next s
      rest ← drain fuel t
      ok ((k, v) ∷ rest))
  ]

  -- the loop from the first entry
  unfoldable pub scan_all : ℕ → I → Run (List (Bytes × V))
  scan_all fuel s = do t ← ops.seek_to_first s; drain fuel t

  -- the loop from a target on
  unfoldable pub scan_from : ℕ → Bytes → I → Run (List (Bytes × V))
  scan_from fuel target s = do t ← ops.seek s target; drain fuel t

module _ {I V : Type 0} (ops : Iter I V) (ahead : Bytes → Bytes → Bool) (all : List (Bytes × V))
    (scans : Scans ops ahead all) where
  drain-At :
      (fuel : ℕ) (s : I) (xs : List (Bytes × V))
      → scans.At s xs
      → length xs < fuel
      → drain ops fuel s ≡ ok xs
  unfolding drain
  drain-At zero s xs p h = absurd (omega arith)
  drain-At (suc fuel) s [] p h = rw (scans.valid_at s [] p, drain)
  drain-At (suc fuel) s (x ∷ xs) p h =
      let (t, e, q) = scans.next_at s (x ∷ xs) p in
      rw (scans.valid_at s (x ∷ xs) p, drain)
        (rw (scans.key_at s (x ∷ xs) p, ◌>>=◌)
          (rw (scans.value_at s (x ∷ xs) p, ◌>>=◌)
            (rw (e, ◌>>=◌) (rw (drain-At fuel t xs q (omega arith), ◌>>=◌)))))

  -- a scan from the first entry gives all entries
  pub scan_all_lem :
      (fuel : ℕ) (s : I) → scans.Good s → length all < fuel → scan_all ops fuel s ≡ ok all
  unfolding scan_all
  scan_all_lem fuel s g h =
      let (t, e, p) = scans.first_at s g in rw (e, ◌>>=◌) (drain-At fuel t all p h)

  -- a scan from a target gives the entries that a seek leaves
  pub scan_from_lem :
      (fuel : ℕ) (target : Bytes) (s : I)
      → scans.Good s
      → length all < fuel
      → scan_from ops fuel target s ≡ ok (skip_to ahead target all)
  unfolding scan_from
  scan_from_lem fuel target s g h =
      let (t, e, p) = scans.seek_at s target g in
      rw (e, ◌>>=◌)
        (drain-At fuel t (skip_to ahead target all) p
          (omega (arith, length-skip_to ahead target all)))
