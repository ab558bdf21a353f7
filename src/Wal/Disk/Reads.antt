-- ===== src/Wal/Disk/Reads.antt =====
-- What a read through the cache of the log returns: a hit, and a load in the place of a victim.
use todb.Prelude.{
  ℕ, ◌+◌, ◌*◌, ◌<◌, ◌≡◌, ◌≢◌, ◌∙◌, refl, sym, ap, inl, inr, true, false, List, length, get_elem?,
  set, Option, none, some, ok, arith, if◌then◌else◌, ◌==◌, ==_refl, ==_false, length-set,
  get_elem?-set_self, get_elem?-bound, Bool-cases, Option-cases, subst,
}
use todb.Bytes.{Bytes}
use todb.Wal.Clock.{
  Frame, BlockKey, ClockCache, same_block, pin_hit, find_victim, prepare_load, commit_load,
  table_without,
}
use todb.Wal.Clock.Victim.{pins, frame_of_pin, find_victim-unpinned}
use todb.Wal.Iter.{pread_all}
use todb.Wal.Disk.{DiskManager, with_buf, read_block}
use todb.Wal.Disk.Keys.{
  HasKey, IsPinned, keys-find_victim, same_keys-HasKey, same_pins-IsPinned, set-HasKey_self,
  set-HasKey_ne, set-IsPinned, set-HasKey,
}
use todb.Wal.Disk.Holds.{
  HoldsBlock, Holds, Returned, length-pread_all, same_block_sound, table_without-knows,
}

-- a read through a cache whose table is right
module _ (block_size : ℕ) (files : ℕ → Bytes) (d : DiskManager) (key : BlockKey)
    (holds : Holds block_size files d) where
  hit_lem :
      (idx : ℕ)
      → d.cache.table key ≡ some idx
      → (t : DiskManager) × (read_block (files key.seg_id) d key ≡ ok (some idx, t))
        × Returned block_size files d key idx t
  unfolding read_block pin_hit
  hit_lem idx e =
      let ((f, at_idx, is_key), block) = holds.mapped key idx e in
      let inside = get_elem?-bound d.cache.frames idx at_idx in
      let after : Frame = record f { pin_count = f.pin_count + 1; ref_bit = true } in
      let frames = set d.cache.frames idx after in
      let positive : 0 < after.pin_count = omega arith in
      (
        record d { cache = record d.cache { frames = frames } },
        rw (read_block, pin_hit, e, at_idx) refl,
        record {
          still = record {
            hand = omega (arith, holds.hand, length-set d.cache.frames idx after);
            sizes = holds.sizes;
            mapped = λ k i m.
                let (has, holds_k) = holds.mapped k i m in
                (set-HasKey d.cache.frames idx i f after k at_idx refl has, holds_k);
          };
          block = block;
          pinned = (after, get_elem?-set_self d.cache.frames idx after inside, positive);
          others = λ i p. (set-IsPinned d.cache.frames idx i after inside positive p, refl);
        },
      )

  -- the victim `v` that the clock found, and the cache after it
  module _ (v : ℕ) (after : ClockCache) (g : Frame)
      (found : find_victim d.cache ≡ ok (some v, after))
      (pins_same : pins after.frames ≡ pins d.cache.frames)
      (table_same : after.table ≡ d.cache.table) (hand : after.hand < length after.frames)
      (at_v : get_elem? after.frames v ≡ some g) (unpinned : g.pin_count ≡ 0) where
    -- the victim's frame while it is loaded, and after
    abbrev blank : Frame
    blank = record { key = none; ref_bit = false; pin_count = 1 }

    abbrev filled : Frame
    filled = record { key = some key; ref_bit = true; pin_count = 1 }

    abbrev loaded : List Frame
    loaded = set (set after.frames v blank) v filled

    abbrev table : BlockKey → Option ℕ
    table k = if same_block k key then some v else table_without after.table g.key k

    abbrev block_read : Bytes
    block_read = pread_all (files key.seg_id) (d.bufs v) (key.block_idx * length (d.bufs v))

    inside_blank : v < length (set after.frames v blank)
    inside_blank =
        omega (arith, length-set after.frames v blank, get_elem?-bound after.frames v at_v)

    HasKey-loaded : (k : BlockKey) (i : ℕ) → v ≢ i → HasKey d.cache.frames i k → HasKey loaded i k
    HasKey-loaded k i apart has = set-HasKey_ne (set after.frames v blank) v i filled k apart (
        set-HasKey_ne after.frames v i blank k apart (
          same_keys-HasKey d.cache.frames after.frames i k
            (keys-find_victim d.cache after (some v) found) has))

    frame_of_key_unique : (k : BlockKey) → HasKey d.cache.frames v k → g.key ≡ some k
    frame_of_key_unique k has =
        let (f, at_f, e) =
          same_keys-HasKey d.cache.frames after.frames v k
            (keys-find_victim d.cache after (some v) found) has in
        let same : some g ≡ some f = sym at_v ∙ at_f in
        let g_f : g ≡ f = cc same in ap (λ (x : Frame). x.key) g_f ∙ e

    mapped-loaded :
        (k : BlockKey) (i : ℕ)
        → table k ≡ some i
        → HasKey loaded i k
          × HoldsBlock block_size (files k.seg_id) k.block_idx (with_buf d.bufs v block_read i)
    mapped-loaded k i m = elim (Bool-cases (same_block k key)) [
      | inl t ↦
          let is_v : some v ≡ some i = rw t at m in
          let v_i : v ≡ i = cc is_v in
          let same = same_block_sound k key t in
          rw (← v_i, same, ==_refl v)
            (
              set-HasKey_self (set after.frames v blank) v filled key inside_blank refl,
              (d.bufs v, holds.sizes v, refl),
            )
      | inr u ↦
          let (known, other) = table_without-knows after.table g.key k i (rw u at m) in
          let (has, held) =
            holds.mapped k i (ap (λ (f : BlockKey → Option ℕ). f k) (sym table_same) ∙ known) in
          let apart : v ≢ i = λ p.
            other (frame_of_key_unique k (subst (λ x. HasKey d.cache.frames x k) (sym p) has)) in
          (HasKey-loaded k i apart has, rw (==_false i v (λ p. apart (sym p))) held)
    ]

    sizes-loaded : (i : ℕ) → length (with_buf d.bufs v block_read i) ≡ block_size
    sizes-loaded i = elim (Bool-cases (i == v)) [
      | inl t ↦ rw t (
          length-pread_all (files key.seg_id) (d.bufs v) (key.block_idx * length (d.bufs v))
          ∙ holds.sizes v)
      | inr u ↦ rw u (holds.sizes i)
    ]

    others-loaded :
        (i : ℕ)
        → IsPinned d.cache.frames i
        → IsPinned loaded i × (with_buf d.bufs v block_read i ≡ d.bufs i)
    others-loaded i p =
        let here = same_pins-IsPinned d.cache.frames after.frames i pins_same p in
        let apart : i ≢ v = λ q.
          let (f, at_f, l) = here in
          let same : some f ≡ some g = sym at_f ∙ ap (get_elem? after.frames) q ∙ at_v in
          let f_g : f ≡ g = cc same in
          let zero_pins = ap (λ (x : Frame). x.pin_count) f_g ∙ unpinned in
          omega (arith, zero_pins, l) in
        (
          set-IsPinned (set after.frames v blank) v i filled inside_blank (omega arith) (
              set-IsPinned after.frames v i blank (get_elem?-bound after.frames v at_v)
                (omega arith) here),
          rw (==_false i v apart) refl,
        )

    load_lem :
        d.cache.table key ≡ none
        → (t : DiskManager) × (read_block (files key.seg_id) d key ≡ ok (some v, t))
          × Returned block_size files d key v t
    unfolding read_block pin_hit prepare_load commit_load
    load_lem e = (
      record {
        cache = record { frames = loaded; table = table; hand = after.hand };
        bufs = with_buf d.bufs v block_read;
      },
      rw
          (
            read_block,
            pin_hit,
            e,
            found,
            prepare_load,
            commit_load,
            at_v,
            get_elem?-set_self after.frames v blank (get_elem?-bound after.frames v at_v),
          )
          refl,
      record {
        still = record {
          hand = omega (
            arith,
            hand,
            length-set after.frames v blank,
            length-set (set after.frames v blank) v filled,
          );
          sizes = sizes-loaded;
          mapped = mapped-loaded;
        };
        block = rw (==_refl v) (d.bufs v, holds.sizes v, refl);
        pinned = (
          filled,
          get_elem?-set_self (set after.frames v blank) v filled inside_blank,
          omega arith,
        );
        others = others-loaded;
      },
    )

  miss_lem :
      (j : ℕ)
      → d.cache.table key ≡ none
      → get_elem? (pins d.cache.frames) j ≡ some 0
      → (idx : ℕ) × (t : DiskManager) × (read_block (files key.seg_id) d key ≡ ok (some idx, t))
        × Returned block_size files d key idx t
  miss_lem j e z =
      let (v, after, found, p, q, same, l) = find_victim-unpinned d.cache j holds.hand z in
      let (g, at_v, unpinned) =
        frame_of_pin after.frames v 0 (ap (λ (ps : List ℕ). get_elem? ps v) q ∙ p) in
      let (t, r, k) = load_lem v after g found q same l at_v unpinned e in (v, t, r, k)

-- A read through the log's cache returns the block, one call at a time and with reads that do not
-- fail: where a segment number stands for one file, the page table leads only to frames that hold
-- their blocks, the hand stands at a frame and some frame is unpinned, `read_block` neither waits
-- nor panics. It returns a frame that is pinned and whose buffer holds the block's bytes of that
-- file, whether it was in the cache or is read in the place of a victim; the page table again leads
-- only to frames that hold their blocks; and every frame that was pinned stays pinned, with its
-- buffer unchanged.
pub read_block-Returned :
    (block_size : ℕ) (files : ℕ → Bytes) (d : DiskManager) (key : BlockKey) (j : ℕ)
    → Holds block_size files d
    → get_elem? (pins d.cache.frames) j ≡ some 0
    → (idx : ℕ) × (t : DiskManager) × (read_block (files key.seg_id) d key ≡ ok (some idx, t))
      × Returned block_size files d key idx t
read_block-Returned block_size files d key j holds z = elim (Option-cases (d.cache.table key)) [
  | inl e ↦ miss_lem block_size files d key holds j e z
  | inr (idx, e) ↦ let (t, r, k) = hit_lem block_size files d key holds idx e in (idx, t, r, k)
]
