-- ===== src/Wal/Disk/Keys.antt =====
-- The blocks that frames hold, which the clock does not change.
use todb.Prelude.{
  ℕ, zero, suc, ◌+◌, ◌%◌, ◌*◌, ◌≡◌, ◌∙◌, inl, inr, refl, sym, ap, false, List, [], ◌∷◌, length,
  get_elem?, set, map, Option, none, some, ◌==◌, ok, Bool-cases, ok_injective, unwrap, Bool, ◌<◌,
  ◌≢◌, get_elem?-set_self, get_elem?-set_ne, get_elem?-bound, ℕ_discrete, arith,
}
use todb.Wal.Clock.Victim.{pins, frame_of_pin, get_elem?-pins}
use todb.Wal.Clock.{Frame, BlockKey, ClockCache, evictable, second_chance, sweep, find_victim}
use todb.Iterators.IndexTree.Stale.{bind-ok}

abbrev pub keys : List Frame → List (Option BlockKey)
keys frames = map (λ (f : Frame). f.key) frames

keys-set :
    (frames : List Frame) (i : ℕ) (f : Frame) (b : Bool)
    → get_elem? frames i ≡ some f
    → keys (set frames i (record f { ref_bit = b })) ≡ keys frames
keys-set [] i f b e = refl
keys-set (g ∷ frames) zero f b e = let same : g ≡ f = cc e in rw same refl
keys-set (g ∷ frames) (suc i) f b e = ap (◌∷◌ g.key) (keys-set frames i f b e)

keys-second_chance :
    (frames : List Frame) (hand : ℕ) (f : Frame)
    → get_elem? frames hand ≡ some f
    → keys (second_chance frames hand f) ≡ keys frames
keys-second_chance frames hand f e = elim (Bool-cases (f.pin_count == 0)) [
  | inl t ↦ rw t (keys-set frames hand f false e)
  | inr u ↦ rw u refl
]

unwrapped : {A : Type 0} (o : Option A) (a : A) → unwrap o ≡ ok a → o ≡ some a
unwrapped none a e = cc e
unwrapped (some b) a e = ap some (ok_injective e)

keys-sweep :
    (rounds n : ℕ) (frames : List Frame) (hand : ℕ) (found : Option ℕ) (after : List Frame)
    (next : ℕ)
    → sweep rounds n frames hand ≡ ok (found, after, next)
    → keys after ≡ keys frames
unfolding sweep
keys-sweep zero n frames hand found after next e =
    ap (λ (r : Option ℕ × List Frame × ℕ). keys r.1) (sym (ok_injective e))
keys-sweep (suc rounds) n frames hand found after next e =
    let (f, g, k) = bind-ok (unwrap (get_elem? frames hand)) _ e in
    let at_hand = unwrapped (get_elem? frames hand) f g in
    elim (Bool-cases (evictable f)) [
      | inl t ↦ ap (λ (r : Option ℕ × List Frame × ℕ). keys r.1) (sym (ok_injective (rw t at k)))
      | inr u ↦
          keys-sweep rounds n (second_chance frames hand f) ((hand + 1) % n) found after next
            (rw u at k)
          ∙ keys-second_chance frames hand f at_hand
    ]

pub keys-find_victim :
    (c after : ClockCache) (found : Option ℕ)
    → find_victim c ≡ ok (found, after)
    → keys after.frames ≡ keys c.frames
unfolding find_victim
keys-find_victim c after found e = elim (Bool-cases (length c.frames == 0)) [
  | inl t ↦ ap (λ (r : Option ℕ × ClockCache). keys r.1.frames) (sym (ok_injective (rw t at e)))
  | inr u ↦
      let (swept, g, k) =
        bind-ok (sweep (2 * length c.frames) (length c.frames) c.frames c.hand) _ (rw u at e) in
      ap (λ (r : Option ℕ × ClockCache). keys r.1.frames) (sym (ok_injective k))
      ∙ keys-sweep (2 * length c.frames) (length c.frames) c.frames c.hand swept.0 swept.1 swept.2 g
]

-- frame `i` holds block `k`, and frame `i` is pinned
abbrev pub HasKey : List Frame → ℕ → BlockKey → Type 0
HasKey frames i k = (f : Frame) × (get_elem? frames i ≡ some f) × (f.key ≡ some k)

abbrev pub IsPinned : List Frame → ℕ → Type 0
IsPinned frames i = (f : Frame) × (get_elem? frames i ≡ some f) × (0 < f.pin_count)

frame_of_key :
    (frames : List Frame) (i : ℕ) (k : Option BlockKey)
    → get_elem? (keys frames) i ≡ some k
    → (f : Frame) × (get_elem? frames i ≡ some f) × (f.key ≡ k)
frame_of_key [] i k e = cc e
frame_of_key (g ∷ frames) zero k e = (g, refl, cc e)
frame_of_key (g ∷ frames) (suc i) k e = frame_of_key frames i k e

get_elem?-keys :
    (frames : List Frame) (i : ℕ) (f : Frame)
    → get_elem? frames i ≡ some f
    → get_elem? (keys frames) i ≡ some f.key
get_elem?-keys [] i f e = cc e
get_elem?-keys (g ∷ frames) zero f e = let same : g ≡ f = cc e in rw same refl
get_elem?-keys (g ∷ frames) (suc i) f e = get_elem?-keys frames i f e

pub same_keys-HasKey :
    (frames after : List Frame) (i : ℕ) (k : BlockKey)
    → keys after ≡ keys frames
    → HasKey frames i k
    → HasKey after i k
same_keys-HasKey frames after i k e (f, g, h) = frame_of_key after i (some k) (
    ap (λ (ks : List (Option BlockKey)). get_elem? ks i) e
    ∙ get_elem?-keys frames i f g
    ∙ ap some h)

pub same_pins-IsPinned :
    (frames after : List Frame) (i : ℕ)
    → pins after ≡ pins frames
    → IsPinned frames i
    → IsPinned after i
same_pins-IsPinned frames after i e (f, g, h) =
    let (f', g', h') =
      frame_of_pin after i f.pin_count
        (ap (λ (ps : List ℕ). get_elem? ps i) e ∙ get_elem?-pins frames i f g) in
    (f', g', omega (arith, h, h'))

-- a changed frame, and the others
pub set-HasKey_self :
    (frames : List Frame) (i : ℕ) (f : Frame) (k : BlockKey)
    → i < length frames
    → f.key ≡ some k
    → HasKey (set frames i f) i k
set-HasKey_self frames i f k h e = (f, get_elem?-set_self frames i f h, e)

pub set-HasKey_ne :
    (frames : List Frame) (i j : ℕ) (f : Frame) (k : BlockKey)
    → i ≢ j
    → HasKey frames j k
    → HasKey (set frames i f) j k
set-HasKey_ne frames i j f k d (g, e, h) = (g, get_elem?-set_ne frames i j f d ∙ e, h)

pub set-HasKey :
    (frames : List Frame) (i j : ℕ) (f after : Frame) (k : BlockKey)
    → get_elem? frames i ≡ some f
    → after.key ≡ f.key
    → HasKey frames j k
    → HasKey (set frames i after) j k
set-HasKey frames i j f after k e same (g, at_j, h) = elim (ℕ_discrete i j) [
  | yes s ↦
      let found : some f ≡ some g = sym e ∙ ap (get_elem? frames) s ∙ at_j in
      let f_g : f ≡ g = cc found in
      (
        after,
        ap (get_elem? (set frames i after)) (sym s)
            ∙ get_elem?-set_self frames i after (get_elem?-bound frames i e),
        same ∙ ap (λ (x : Frame). x.key) f_g ∙ h,
      )
  | no d ↦ (g, get_elem?-set_ne frames i j after d ∙ at_j, h)
]

pub set-IsPinned :
    (frames : List Frame) (i j : ℕ) (f : Frame)
    → i < length frames
    → 0 < f.pin_count
    → IsPinned frames j
    → IsPinned (set frames i f) j
set-IsPinned frames i j f h p (g, e, q) = elim (ℕ_discrete i j) [
  | yes s ↦ (f, ap (get_elem? (set frames i f)) (sym s) ∙ get_elem?-set_self frames i f h, p)
  | no d ↦ (g, get_elem?-set_ne frames i j f d ∙ e, q)
]
