-- ===== src/Wal/Buffer/Claims.antt =====
-- What writers that share a buffer get, in any order of their steps.
use todb.Prelude.{
  ap₂, ok_injective, ℕ, suc, ◌+◌, ◌*◌, ◌/◌, ◌%◌, ◌≤◌, ◌<◌, ◌≡◌, ◌∙◌, refl, sym, ap, List, [], ◌∷◌,
  length, Option, none, some, ok, arith, ltb, lt→ltb, ltb_false→le, Bool-cases, inl, inr,
  if◌then◌else◌, true, false, Bool,
}
use todb.Bytes.{u32_mod, u64_mod}
use todb.Wal.Buffer.{WalBuffer, pack, unpack, new, claim_buffer_range, claim_slot}

-- A buffer that writers share after any steps from a fresh one: the ranges that were claimed, the
-- newest first, the slots that were taken, how many writers have a range and no slot yet, and how
-- many bytes were asked for. A writer claims its range first, and each frame has a header.
pub data Claims (buffer_size min_lsn seg_id : ℕ)
    : WalBuffer → List (ℕ × ℕ) → List ℕ → ℕ → ℕ → Type 0 where
  fresh : Claims buffer_size min_lsn seg_id (new buffer_size min_lsn seg_id) [] [] 0 0
  range :
      {b c : WalBuffer} {ranges : List (ℕ × ℕ)} {slots : List ℕ} {waiting asked : ℕ} (len pos : ℕ)
      → Claims buffer_size min_lsn seg_id b ranges slots waiting asked
      → 16 ≤ len
      → claim_buffer_range b len ≡ (some pos, c)
      → Claims buffer_size min_lsn seg_id c ((pos, len) ∷ ranges) slots (suc waiting) (asked + len)
  refused :
      {b c : WalBuffer} {ranges : List (ℕ × ℕ)} {slots : List ℕ} {waiting asked : ℕ} (len : ℕ)
      → Claims buffer_size min_lsn seg_id b ranges slots waiting asked
      → claim_buffer_range b len ≡ (none, c)
      → Claims buffer_size min_lsn seg_id c ranges slots waiting (asked + len)
  slot :
      {b c : WalBuffer} {ranges : List (ℕ × ℕ)} {slots : List ℕ} {waiting asked : ℕ} (i : ℕ)
      → Claims buffer_size min_lsn seg_id b ranges slots (suc waiting) asked
      → claim_slot b ≡ ok (i, c)
      → Claims buffer_size min_lsn seg_id c ranges (i ∷ slots) waiting asked

-- every range ends at or before `n`
abbrev pub AllEndBy : ℕ → List (ℕ × ℕ) → Type 0
AllEndBy n [] = Unit
AllEndBy n (r ∷ rs) = (r.0 + r.1 ≤ n) × AllEndBy n rs

-- every range starts at or behind the ends of all that were claimed before it
abbrev pub AreDisjoint : List (ℕ × ℕ) → Type 0
AreDisjoint [] = Unit
AreDisjoint (r ∷ rs) = AllEndBy r.0 rs × AreDisjoint rs

-- the slots are those below `n`, each once, in order
abbrev pub AreNumbered : ℕ → List ℕ → Type 0
AreNumbered n [] = n ≡ 0
AreNumbered n (i ∷ is) = (n ≡ suc i) × AreNumbered i is

AllEndBy-le : (m n : ℕ) (rs : List (ℕ × ℕ)) → m ≤ n → AllEndBy m rs → AllEndBy n rs
AllEndBy-le m n [] h a = tt
AllEndBy-le m n (r ∷ rs) h a = (omega (arith, a.0), AllEndBy-le m n rs h a.1)

total : List (ℕ × ℕ) → ℕ
total [] = 0
total (r ∷ rs) = r.1 + total rs

record Inv (buffer_size : ℕ) (b : WalBuffer) (ranges : List (ℕ × ℕ)) (slots : List ℕ)
    (waiting asked : ℕ) : Type 0 where
  at_end : b.write_pos ≡ asked
  is_capacity : b.capacity ≡ buffer_size
  is_max : b.max_entries ≡ buffer_size / 16
  used : total ranges ≤ asked
  fits : total ranges ≤ buffer_size
  ends_here : AllEndBy asked ranges
  ends_inside : AllEndBy buffer_size ranges
  disjoint : AreDisjoint ranges
  headers : 16 * length ranges ≤ total ranges
  handed_out : b.entries_allocated + waiting ≡ length ranges
  numbered : AreNumbered b.entries_allocated slots

abbrev moved : WalBuffer → ℕ → WalBuffer
moved b len = record b { write_pos = b.write_pos + len }

mod_small : (n : ℕ) → n < u64_mod → n % u64_mod ≡ n
mod_small n h = omega arith

claim-eq :
    (b : WalBuffer) (len : ℕ)
    → b.write_pos + len < u64_mod
    → claim_buffer_range b len
      ≡ ((if ltb b.capacity (b.write_pos + len) then none else some b.write_pos), moved b len)
unfolding claim_buffer_range
claim-eq b len h =
    rw (mod_small (b.write_pos + len) h, lt→ltb (b.write_pos + len) u64_mod h)
      (elim (Bool-cases (ltb b.capacity (b.write_pos + len))) [
        | inl t ↦ rw t refl
        | inr f ↦ rw f refl
      ])

if-some : (t : Bool) (p q : ℕ) → (if t then none else some p) ≡ some q → (t ≡ false) × (p ≡ q)
if-some true p q e = cc e
if-some false p q e = (refl, cc e)

-- a slot that is there is handed out
claim_slot-room :
    (b : WalBuffer)
    → b.entries_allocated < b.max_entries
    → claim_slot b
      ≡ ok (
        b.entries_allocated,
        record b { entries_allocated = (b.entries_allocated + 1) % u64_mod },
      )
unfolding claim_slot
claim_slot-room b h = rw (lt→ltb b.entries_allocated b.max_entries h) refl

module _ (buffer_size min_lsn seg_id : ℕ) where
  Inv-fresh : Inv buffer_size (new buffer_size min_lsn seg_id) [] [] 0 0
  unfolding new total
  Inv-fresh = record {
    at_end = refl;
    is_capacity = refl;
    is_max = refl;
    used = omega arith;
    fits = omega arith;
    ends_here = tt;
    ends_inside = tt;
    disjoint = tt;
    headers = omega arith;
    handed_out = refl;
    numbered = refl;
  }

  Inv-range :
      (b : WalBuffer) (ranges : List (ℕ × ℕ)) (slots : List ℕ) (waiting asked len : ℕ)
      → Inv buffer_size b ranges slots waiting asked
      → 16 ≤ len
      → b.write_pos + len ≤ b.capacity
      → Inv buffer_size
          (moved b len)
          ((b.write_pos, len) ∷ ranges)
          slots
          (suc waiting)
          (asked + len)
  unfolding total
  Inv-range b ranges slots waiting asked len inv h room = record {
    at_end = omega (arith, inv.at_end);
    is_capacity = inv.is_capacity;
    is_max = inv.is_max;
    used = omega (arith, inv.used);
    fits = omega (arith, inv.used, inv.at_end, inv.is_capacity);
    ends_here = (
      omega (arith, inv.at_end),
      AllEndBy-le asked (asked + len) ranges (omega arith) inv.ends_here,
    );
    ends_inside = (omega (arith, inv.is_capacity), inv.ends_inside);
    disjoint = (rw inv.at_end inv.ends_here, inv.disjoint);
    headers = omega (arith, inv.headers);
    handed_out = omega (arith, inv.handed_out);
    numbered = inv.numbered;
  }

  Inv-refused :
      (b : WalBuffer) (ranges : List (ℕ × ℕ)) (slots : List ℕ) (waiting asked len : ℕ)
      → Inv buffer_size b ranges slots waiting asked
      → Inv buffer_size (moved b len) ranges slots waiting (asked + len)
  Inv-refused b ranges slots waiting asked len inv = record {
    at_end = omega (arith, inv.at_end);
    is_capacity = inv.is_capacity;
    is_max = inv.is_max;
    used = omega (arith, inv.used);
    fits = inv.fits;
    ends_here = AllEndBy-le asked (asked + len) ranges (omega arith) inv.ends_here;
    ends_inside = inv.ends_inside;
    disjoint = inv.disjoint;
    headers = inv.headers;
    handed_out = inv.handed_out;
    numbered = inv.numbered;
  }

  -- a writer that waits for a slot finds one
  slot_left :
      (b : WalBuffer) (ranges : List (ℕ × ℕ)) (slots : List ℕ) (waiting asked : ℕ)
      → Inv buffer_size b ranges slots (suc waiting) asked
      → b.entries_allocated < b.max_entries
  slot_left b ranges slots waiting asked inv =
      omega (arith, inv.headers, inv.fits, inv.handed_out, inv.is_max)

  Inv-slot :
      (b : WalBuffer) (ranges : List (ℕ × ℕ)) (slots : List ℕ) (waiting asked : ℕ)
      → Inv buffer_size b ranges slots (suc waiting) asked
      → asked < u64_mod
      → Inv buffer_size
          (record b { entries_allocated = (b.entries_allocated + 1) % u64_mod })
          ranges
          (b.entries_allocated ∷ slots)
          waiting
          asked
  Inv-slot b ranges slots waiting asked inv small =
      let next : (b.entries_allocated + 1) % u64_mod ≡ suc b.entries_allocated =
        omega (arith, inv.headers, inv.used, inv.handed_out) in
      record {
        at_end = inv.at_end;
        is_capacity = inv.is_capacity;
        is_max = inv.is_max;
        used = inv.used;
        fits = inv.fits;
        ends_here = inv.ends_here;
        ends_inside = inv.ends_inside;
        disjoint = inv.disjoint;
        headers = inv.headers;
        handed_out = omega (arith, next, inv.handed_out);
        numbered = (next, inv.numbered);
      }

  Claims-Inv :
      {b : WalBuffer} {ranges : List (ℕ × ℕ)} {slots : List ℕ} {waiting asked : ℕ}
      → Claims buffer_size min_lsn seg_id b ranges slots waiting asked
      → asked < u64_mod
      → Inv buffer_size b ranges slots waiting asked
  Claims-Inv Claims.fresh small = Inv-fresh
  Claims-Inv (Claims.range {b} {c} {ranges} {slots} {waiting} {asked} len pos g h e) small =
      let inv : Inv buffer_size b ranges slots waiting asked = Claims-Inv g (omega arith) in
      let s = sym (claim-eq b len (omega (arith, inv.at_end))) ∙ e in
      let (room, same) =
        if-some (ltb b.capacity (b.write_pos + len)) b.write_pos pos
          (ap (λ (p : Option ℕ × WalBuffer). p.0) s) in
      let after : moved b len ≡ c = ap (λ (p : Option ℕ × WalBuffer). p.1) s in
      rw (← after, ← same)
        (Inv-range b ranges slots waiting asked len inv h
          (ltb_false→le b.capacity (b.write_pos + len) room))
  Claims-Inv (Claims.refused {b} {c} {ranges} {slots} {waiting} {asked} len g e) small =
      let inv : Inv buffer_size b ranges slots waiting asked = Claims-Inv g (omega arith) in
      let s = sym (claim-eq b len (omega (arith, inv.at_end))) ∙ e in
      let after : moved b len ≡ c = ap (λ (p : Option ℕ × WalBuffer). p.1) s in
      rw (← after) (Inv-refused b ranges slots waiting asked len inv)
  Claims-Inv (Claims.slot {b} {c} {ranges} {slots} {waiting} {asked} i g e) small =
      let inv : Inv buffer_size b ranges slots (suc waiting) asked = Claims-Inv g small in
      let s = sym (claim_slot-room b (slot_left b ranges slots waiting asked inv)) ∙ e in
      let both = ok_injective s in
      rw (← ap (λ (p : ℕ × WalBuffer). p.1) both, ← ap (λ (p : ℕ × WalBuffer). p.0) both)
        (Inv-slot b ranges slots waiting asked inv small)

  -- Writers that share a buffer never write over each other: in any order of their claims, granted
  -- and refused, the ranges are pairwise disjoint and inside the buffer, the slots are different
  -- and numbered in the order they were taken, and no more of them than ranges. The bytes asked
  -- for in all are fewer than 2^64, and each frame is at least as long as its header.
  pub Claims-AreDisjoint :
      {b : WalBuffer} {ranges : List (ℕ × ℕ)} {slots : List ℕ} {waiting asked : ℕ}
      → Claims buffer_size min_lsn seg_id b ranges slots waiting asked
      → asked < u64_mod
      → AreDisjoint ranges
        × AllEndBy buffer_size ranges
        × AreNumbered b.entries_allocated slots
        × (b.entries_allocated + waiting ≡ length ranges)
  Claims-AreDisjoint g small =
      let inv = Claims-Inv g small in (inv.disjoint, inv.ends_inside, inv.numbered, inv.handed_out)

  -- A writer that was granted a range is given a slot: while one waits, `claim_slot` does not panic
  -- and returns the next number. The bytes asked for in all are fewer than 2^64.
  pub claim_slot-claimed :
      {b : WalBuffer} {ranges : List (ℕ × ℕ)} {slots : List ℕ} {waiting asked : ℕ}
      → Claims buffer_size min_lsn seg_id b ranges slots (suc waiting) asked
      → asked < u64_mod
      → (c : WalBuffer) × (claim_slot b ≡ ok (b.entries_allocated, c))
  claim_slot-claimed {b} {ranges} {slots} {waiting} {asked} g small =
      let inv = Claims-Inv g small in
      (_, claim_slot-room b (slot_left b ranges slots waiting asked inv))

-- A slot holds the place of its frame: what `pack` stored is what `unpack` reads, for a position
-- and a length that are 32-bit words.
unpack-pack :
    (pos frame_len : ℕ)
    → pos < u32_mod
    → frame_len < u32_mod
    → (v : ℕ) × (pack pos frame_len ≡ ok v) × (v < u64_mod) × (unpack v ≡ (pos, frame_len))
unfolding pack unpack
unpack-pack pos frame_len h k = (
  pos * u32_mod % u64_mod + frame_len,
  rw (lt→ltb pos u32_mod h) refl,
  omega arith,
  ap₂ (λ (a b : ℕ). (a, b)) (omega arith) (omega arith),
)
