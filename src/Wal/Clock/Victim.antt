-- ===== src/Wal/Clock/Victim.antt =====
-- The clock finds a frame that no reader has pinned whenever there is one.
use native.Mathlib.Nat.{mod-eq_of_lt, mod_self}
use todb.Prelude.{
  ℕ, zero, suc, ◌+◌, ◌-◌, ◌*◌, ◌%◌, ◌<◌, ◌≡◌, ◌≢◌, ◌∙◌, ◌⊎◌, inl, inr, refl, sym, ap, Bool, true,
  false, List, [], ◌∷◌, length, get_elem?, set, map, some, ◌==◌, ltb, ok, arith, Bool-cases, ltb→lt,
  ltb_false→le, length-set, get_elem?-set_ne, get_elem?-set_self, get_elem?-bound, get_elem?-lt,
  ==_iff, length-map, ==_false,
}
use todb.Wal.Clock.{Frame, ClockCache, evictable, second_chance, sweep, find_victim}

abbrev pub pins : List Frame → List ℕ
pins frames = map (λ (f : Frame). f.pin_count) frames

-- `j` is `d` frames past the hand
abbrev IsAhead : ℕ → ℕ → ℕ → ℕ → Type 0
IsAhead n hand d j = (hand + d ≡ j) ⊎ (hand + d ≡ j + n)

next_cases :
    (hand n : ℕ)
    → hand < n
    → (((hand + 1) % n ≡ hand + 1) × (hand + 1 < n)) ⊎ (((hand + 1) % n ≡ 0) × (hand + 1 ≡ n))
next_cases hand n h = elim (Bool-cases (ltb (hand + 1) n)) [
  | inl t ↦ inl (mod-eq_of_lt (ltb→lt (hand + 1) n t), ltb→lt (hand + 1) n t)
  | inr f ↦
      let e : hand + 1 ≡ n = omega (arith, ltb_false→le (hand + 1) n f) in
      inr (ap (λ m. m % n) e ∙ mod_self n, e)
]

next_below : (hand n : ℕ) → hand < n → (hand + 1) % n < n
next_below hand n h = elim (next_cases hand n h) [
  | inl (e, l) ↦ omega (arith, e)
  | inr (e, l) ↦ omega (arith, e)
]

IsAhead-next :
    (n hand d j : ℕ) → hand < n → j < n → IsAhead n hand (suc d) j → IsAhead n ((hand + 1) % n) d j
IsAhead-next n hand d j h k (inl a) = elim (next_cases hand n h) [
  | inl (e, l) ↦ inl (omega (arith, e))
  | inr (e, l) ↦ absurd (omega arith)
]
IsAhead-next n hand d j h k (inr a) = elim (next_cases hand n h) [
  | inl (e, l) ↦ inr (omega (arith, e))
  | inr (e, l) ↦ inl (omega (arith, e))
]

-- from the frame itself it is a whole round to it again
IsAhead-round : (n j : ℕ) → j < n → IsAhead n ((j + 1) % n) (n - 1) j
IsAhead-round n j h = elim (next_cases j n h) [
  | inl (e, l) ↦ inr (omega (arith, e))
  | inr (e, l) ↦ inl (omega (arith, e))
]

pins-set :
    (frames : List Frame) (i : ℕ) (f : Frame) (b : Bool)
    → get_elem? frames i ≡ some f
    → pins (set frames i (record f { ref_bit = b })) ≡ pins frames
pins-set [] i f b e = refl
pins-set (g ∷ frames) zero f b e = let same : g ≡ f = cc e in rw same refl
pins-set (g ∷ frames) (suc i) f b e = ap (◌∷◌ g.pin_count) (pins-set frames i f b e)

pub get_elem?-pins :
    (frames : List Frame) (i : ℕ) (f : Frame)
    → get_elem? frames i ≡ some f
    → get_elem? (pins frames) i ≡ some f.pin_count
get_elem?-pins [] i f e = cc e
get_elem?-pins (g ∷ frames) zero f e = let same : g ≡ f = cc e in rw same refl
get_elem?-pins (g ∷ frames) (suc i) f e = get_elem?-pins frames i f e

pub frame_of_pin :
    (frames : List Frame) (i p : ℕ)
    → get_elem? (pins frames) i ≡ some p
    → (f : Frame) × (get_elem? frames i ≡ some f) × (f.pin_count ≡ p)
frame_of_pin [] i p e = cc e
frame_of_pin (g ∷ frames) zero p e = (g, refl, cc e)
frame_of_pin (g ∷ frames) (suc i) p e = frame_of_pin frames i p e

-- what a round leaves
module _ (frames : List Frame) (hand : ℕ) (f : Frame)
    (at_hand : get_elem? frames hand ≡ some f) where
  pins-second_chance : pins (second_chance frames hand f) ≡ pins frames
  pins-second_chance = elim (Bool-cases (f.pin_count == 0)) [
    | inl t ↦ rw t (pins-set frames hand f false at_hand)
    | inr u ↦ rw u refl
  ]

  length-second_chance : length (second_chance frames hand f) ≡ length frames
  length-second_chance = elim (Bool-cases (f.pin_count == 0)) [
    | inl t ↦ rw t (length-set frames hand (record f { ref_bit = false }))
    | inr u ↦ rw u refl
  ]

  second_chance-ne :
      (j : ℕ) → hand ≢ j → get_elem? (second_chance frames hand f) j ≡ get_elem? frames j
  second_chance-ne j d = elim (Bool-cases (f.pin_count == 0)) [
    | inl t ↦ rw t (get_elem?-set_ne frames hand j (record f { ref_bit = false }) d)
    | inr u ↦ rw u refl
  ]

  sweep_hit :
      (rounds n : ℕ)
      → evictable f ≡ true
      → sweep (suc rounds) n frames hand ≡ ok (some hand, frames, (hand + 1) % n)
  unfolding sweep
  sweep_hit rounds n e = rw (at_hand, e) refl

  sweep_on :
      (rounds n : ℕ)
      → evictable f ≡ false
      → sweep (suc rounds) n frames hand
        ≡ sweep rounds n (second_chance frames hand f) ((hand + 1) % n)
  unfolding sweep
  sweep_on rounds n e = rw (at_hand, e) refl

unpinned_of : (f : Frame) → evictable f ≡ true → f.pin_count ≡ 0
unpinned_of f v = ground arith

evictable_unpinned : (f : Frame) → f.pin_count ≡ 0 → evictable (record f { ref_bit = false }) ≡ true
evictable_unpinned f z = rw ((==_iff f.pin_count 0).1 z) refl

-- what a sweep that finds a victim returns
abbrev Found : ℕ → ℕ → List Frame → ℕ → Type 0
Found rounds n frames hand =
    (i : ℕ) × (after : List Frame) × (next : ℕ) × (sweep rounds n frames hand
      ≡ ok (some i, after, next))
    × (get_elem? (pins frames) i ≡ some 0)
    × (pins after ≡ pins frames)
    × (next < n)

Found-hit :
    (rounds n : ℕ) (frames : List Frame) (hand : ℕ) (f : Frame)
    → get_elem? frames hand ≡ some f
    → hand < n
    → evictable f ≡ true
    → Found (suc rounds) n frames hand
Found-hit rounds n frames hand f e h v = (
  hand,
  frames,
  (hand + 1) % n,
  sweep_hit frames hand f e rounds n v,
  get_elem?-pins frames hand f e ∙ ap some (unpinned_of f v),
  refl,
  next_below hand n h,
)

Found-on :
    (rounds n : ℕ) (frames : List Frame) (hand : ℕ) (f : Frame)
    → get_elem? frames hand ≡ some f
    → evictable f ≡ false
    → Found rounds n (second_chance frames hand f) ((hand + 1) % n)
    → Found (suc rounds) n frames hand
Found-on rounds n frames hand f e v (i, after, next, s, p, q, l) =
    let same = pins-second_chance frames hand f e in
    (i, after, next, sweep_on frames hand f e rounds n v ∙ s, rw same at p, q ∙ same, l)

-- a frame without its reference bit is taken when the hand comes to it, if not another before it
sweep-reaches :
    (rounds n d : ℕ) (frames : List Frame) (hand j : ℕ) (f : Frame)
    → length frames ≡ n
    → hand < n
    → j < n
    → get_elem? frames j ≡ some f
    → evictable f ≡ true
    → IsAhead n hand d j
    → d < n
    → d < rounds
    → Found rounds n frames hand
sweep-reaches zero n d frames hand j f size h k e v a less enough = absurd (omega arith)
sweep-reaches (suc rounds) n zero frames hand j f size h k e v a less enough =
    let same : hand ≡ j = elim a [ inl p ↦ omega arith | inr p ↦ absurd (omega arith) ] in
    Found-hit rounds n frames hand f (ap (get_elem? frames) same ∙ e) h v
sweep-reaches (suc rounds) n (suc d) frames hand j f size h k e v a less enough =
    let (g, at_hand) = get_elem?-lt frames hand (omega arith) in
    elim (Bool-cases (evictable g)) [
      | inl t ↦ Found-hit rounds n frames hand g at_hand h t
      | inr u ↦
          let apart : hand ≢ j =
            λ p. elim a [ inl q ↦ omega (arith, p, q) | inr q ↦ omega (arith, p, q) ] in
          Found-on rounds n frames hand g at_hand u (
            sweep-reaches rounds n d (second_chance frames hand g) ((hand + 1) % n) j f
              (length-second_chance frames hand g at_hand ∙ size) (next_below hand n h) k
              (second_chance-ne frames hand g at_hand j apart ∙ e) v (IsAhead-next n hand d j h k a)
              (omega arith) (omega arith))
    ]

-- an unpinned frame with its reference bit loses it when the hand comes to it
cleared :
    (frames : List Frame) (hand : ℕ) (f : Frame)
    → get_elem? frames hand ≡ some f
    → hand < length frames
    → f.pin_count ≡ 0
    → get_elem? (second_chance frames hand f) hand ≡ some (record f { ref_bit = false })
cleared frames hand f e h z =
    rw ((==_iff f.pin_count 0).1 z)
      (get_elem?-set_self frames hand (record f { ref_bit = false }) h)

-- an unpinned frame is taken within two rounds of the hand
sweep-finds :
    (rounds n d : ℕ) (frames : List Frame) (hand j : ℕ) (f : Frame)
    → length frames ≡ n
    → hand < n
    → j < n
    → get_elem? frames j ≡ some f
    → f.pin_count ≡ 0
    → IsAhead n hand d j
    → d < n
    → d + n < rounds
    → Found rounds n frames hand
sweep-finds zero n d frames hand j f size h k e z a less enough = absurd (omega arith)
sweep-finds (suc rounds) n zero frames hand j f size h k e z a less enough =
    let same : hand ≡ j = elim a [ inl p ↦ omega arith | inr p ↦ absurd (omega arith) ] in
    let at_hand : get_elem? frames hand ≡ some f = ap (get_elem? frames) same ∙ e in
    elim (Bool-cases (evictable f)) [
      | inl t ↦ Found-hit rounds n frames hand f at_hand h t
      | inr u ↦ Found-on rounds n frames hand f at_hand u (
          sweep-reaches rounds n (n - 1) (second_chance frames hand f) ((hand + 1) % n) hand
            (record f { ref_bit = false }) (length-second_chance frames hand f at_hand ∙ size)
            (next_below hand n h) h (cleared frames hand f at_hand (omega arith) z)
            (evictable_unpinned f z) (IsAhead-round n hand h) (omega arith) (omega arith))
    ]
sweep-finds (suc rounds) n (suc d) frames hand j f size h k e z a less enough =
    let (g, at_hand) = get_elem?-lt frames hand (omega arith) in
    elim (Bool-cases (evictable g)) [
      | inl t ↦ Found-hit rounds n frames hand g at_hand h t
      | inr u ↦
          let apart : hand ≢ j =
            λ p. elim a [ inl q ↦ omega (arith, p, q) | inr q ↦ omega (arith, p, q) ] in
          Found-on rounds n frames hand g at_hand u (
            sweep-finds rounds n d (second_chance frames hand g) ((hand + 1) % n) j f
              (length-second_chance frames hand g at_hand ∙ size) (next_below hand n h) k
              (second_chance-ne frames hand g at_hand j apart ∙ e) z (IsAhead-next n hand d j h k a)
              (omega arith) (omega arith))
    ]

-- how far the hand is from a frame
distance_to : (n hand j : ℕ) → hand < n → j < n → (d : ℕ) × (d < n) × IsAhead n hand d j
distance_to n hand j h k = elim (Bool-cases (ltb j hand)) [
  | inl t ↦ let l = ltb→lt j hand t in (j + n - hand, omega arith, inr (omega arith))
  | inr f ↦ let l = ltb_false→le j hand f in (j - hand, omega arith, inl (omega arith))
]

-- The clock never gives up while a frame is free: if any frame is unpinned, `find_victim` returns
-- within its two rounds a frame that no reader has pinned, and changes no pin, neither the page
-- table. The hand stands at a frame, and does so afterwards.
pub find_victim-unpinned :
    (c : ClockCache) (j : ℕ)
    → c.hand < length c.frames
    → get_elem? (pins c.frames) j ≡ some 0
    → (i : ℕ) × (after : ClockCache) × (find_victim c ≡ ok (some i, after))
      × (get_elem? (pins c.frames) i ≡ some 0)
      × (pins after.frames ≡ pins c.frames)
      × (after.table ≡ c.table)
      × (after.hand < length after.frames)
unfolding find_victim
find_victim-unpinned c j h e =
    let n = length c.frames in
    let (f, at_j, z) = frame_of_pin c.frames j 0 e in
    let inside : j < n = get_elem?-bound c.frames j at_j in
    let (d, less, a) = distance_to n c.hand j h inside in
    let (i, after, next, s, p, q, l) =
      sweep-finds (2 * n) n d c.frames c.hand j f refl h inside at_j z a less (omega arith) in
    let size : length after ≡ n =
      sym (length-map after (λ (g : Frame). g.pin_count))
      ∙ ap length q
      ∙ length-map c.frames (λ (g : Frame). g.pin_count) in
    (
      i,
      record c { frames = after; hand = next },
      rw (==_false n 0 (λ z0. omega (arith, z0)), s) refl,
      p,
      q,
      refl,
      omega (arith, size),
    )
