-- ===== src/Wal/Disk/Holds.antt =====
-- What a cache of the log holds, and what a read through it leaves.
use todb.Prelude.{
  ℕ, ◌*◌, ◌<◌, ◌≡◌, ◌≢◌, ◌∙◌, refl, ap, inl, inr, true, length, length-append, length-take,
  length-drop, take, drop, Option, none, some, arith, ==_refl, ==_iff, Bool-cases,
}
use todb.Bytes.{Bytes}
use todb.Wal.Clock.{BlockKey, same_block, table_without}
use todb.Wal.Iter.{pread_all}
use todb.Wal.Disk.{DiskManager}
use todb.Wal.Disk.Keys.{HasKey, IsPinned}

-- the bytes of a block of a file, and past the end of the file any bytes
abbrev pub HoldsBlock : ℕ → Bytes → ℕ → Bytes → Type 0
HoldsBlock block_size file block_idx buf =
    (old : Bytes) × (length old ≡ block_size) × (buf ≡ pread_all file old (block_idx * length old))

pub length-pread_all :
    (file buf : Bytes) (offset : ℕ) → length (pread_all file buf offset) ≡ length buf
unfolding pread_all
length-pread_all file buf offset =
    let got = take (length buf) (drop offset file) in
    omega (
      arith,
      length-append got (drop (length got) buf),
      length-take (length buf) (drop offset file),
      length-drop (length got) buf,
    )

pub same_block_sound : (a b : BlockKey) → same_block a b ≡ true → a ≡ b
same_block_sound a b e =
    let seg : a.seg_id ≡ b.seg_id = (==_iff a.seg_id b.seg_id).0 (ground arith) in
    let block : a.block_idx ≡ b.block_idx = (==_iff a.block_idx b.block_idx).0 (ground arith) in
    let made : ℕ → ℕ → BlockKey = λ s i. record { seg_id = s; block_idx = i } in
    ap (λ s. made s a.block_idx) seg ∙ ap (made b.seg_id) block

same_block_refl : (a : BlockKey) → same_block a a ≡ true
same_block_refl a = rw (==_refl a.seg_id, ==_refl a.block_idx) refl

-- what a table that forgets a block still knows
pub table_without-knows :
    (table : BlockKey → Option ℕ) (old : Option BlockKey) (k : BlockKey) (i : ℕ)
    → table_without table old k ≡ some i
    → (table k ≡ some i) × (old ≢ some k)
table_without-knows table none k i e = (e, λ (p : none ≡ some k). cc p)
table_without-knows table (some old) k i e = elim (Bool-cases (same_block k old)) [
  | inl t ↦ let gone : none ≡ some i = rw t at e in cc gone
  | inr u ↦ (
    rw u at e,
    λ (p : some old ≡ some k).
        let same : old ≡ k = cc p in
        let t : same_block k old ≡ true = ap (same_block k) same ∙ same_block_refl k in cc (t, u),
  )
]

-- The page table leads to frames that hold the blocks, of the files of the segments.
pub record Holds (block_size : ℕ) (files : ℕ → Bytes) (d : DiskManager) : Type 0 where
  pub hand : d.cache.hand < length d.cache.frames
  pub sizes : (i : ℕ) → length (d.bufs i) ≡ block_size
  pub mapped :
      (k : BlockKey) (i : ℕ)
      → d.cache.table k ≡ some i
      → HasKey d.cache.frames i k × HoldsBlock block_size (files k.seg_id) k.block_idx (d.bufs i)

-- what a read of `key` that returns frame `idx` leaves
pub record Returned (block_size : ℕ) (files : ℕ → Bytes) (d : DiskManager) (key : BlockKey)
    (idx : ℕ) (t : DiskManager) : Type 0 where
  pub still : Holds block_size files t
  pub block : HoldsBlock block_size (files key.seg_id) key.block_idx (t.bufs idx)
  pub pinned : IsPinned t.cache.frames idx
  pub others :
      (i : ℕ) → IsPinned d.cache.frames i → IsPinned t.cache.frames i × (t.bufs i ≡ d.bufs i)
