-- ===== src/Iterators/Merge/Lists.antt =====
-- Lists by level, and which entries lead them.
use todb.Prelude.{
  ℕ, zero, suc, ◌<◌, ◌≡◌, ◌≢◌, refl, ap, Bool, true, false, List, [], ◌∷◌, map, length, set, arith,
  is_empty,
}
use todb.Bytes.{Bytes}
use todb.Iterators.Traits.{skip_to}
use todb.Iterators.Merge.Merged.{merge_all, merge_two, nth}
use todb.Iterators.Merge.Heap.{HeadFree, HeadAfter}

module _ {V : Type 0} where
  pub merge_all-empty :
      (ahead : Bytes → Bytes → Bool) (xss : List (List (Bytes × V)))
      → ((i : ℕ) → is_empty (nth xss i) ≡ true)
      → merge_all ahead xss ≡ []
  unfolding merge_all merge_two
  merge_all-empty ahead [] h = refl
  merge_all-empty ahead ([] ∷ xss) h = rw (merge_all-empty ahead xss λ i. h (suc i)) refl
  merge_all-empty ahead ((x ∷ xs) ∷ xss) h = cc (h 0)

  pub nth-bound :
      (xss : List (List (Bytes × V))) (i : ℕ) → is_empty (nth xss i) ≡ false → i < length xss
  nth-bound [] i h = cc h
  nth-bound (xs ∷ xss) zero h = omega arith
  nth-bound (xs ∷ xss) (suc i) h = omega (arith, nth-bound xss i h)

  pub nth-set_self :
      (xss : List (List (Bytes × V))) (i : ℕ) (xs : List (Bytes × V))
      → i < length xss
      → nth (set xss i xs) i ≡ xs
  nth-set_self [] i xs h = absurd (omega arith)
  nth-set_self (ys ∷ xss) zero xs h = refl
  nth-set_self (ys ∷ xss) (suc i) xs h = nth-set_self xss i xs (omega arith)

  pub nth-set_ne :
      (xss : List (List (Bytes × V))) (i j : ℕ) (xs : List (Bytes × V))
      → i ≢ j
      → nth (set xss i xs) j ≡ nth xss j
  nth-set_ne [] i j xs h = refl
  nth-set_ne (ys ∷ xss) zero zero xs h = absurd (h refl)
  nth-set_ne (ys ∷ xss) zero (suc j) xs h = refl
  nth-set_ne (ys ∷ xss) (suc i) zero xs h = refl
  nth-set_ne (ys ∷ xss) (suc i) (suc j) xs h = nth-set_ne xss i j xs (λ e. h (ap suc e))

  pub nth-skip_to :
      (ahead : Bytes → Bytes → Bool) (target : Bytes) (xss : List (List (Bytes × V))) (i : ℕ)
      → nth (map (skip_to ahead target) xss) i ≡ skip_to ahead target (nth xss i)
  unfolding skip_to
  nth-skip_to ahead target [] i = refl
  nth-skip_to ahead target (xs ∷ xss) zero = refl
  nth-skip_to ahead target (xs ∷ xss) (suc i) = nth-skip_to ahead target xss i

module _ {V : Type 0} (ahead : Bytes → Bytes → Bool) (k : Bytes) where
  pub HeadAfter-cons :
      (l : List (Bytes × V))
      → ((y : Bytes × V) (ys : List (Bytes × V)) → l ≡ y ∷ ys → ahead k y.0 ≡ true)
      → HeadAfter ahead k l
  HeadAfter-cons [] f = tt
  HeadAfter-cons (y ∷ ys) f = f y ys refl

  pub HeadFree-cons :
      (l : List (Bytes × V))
      → ((y : Bytes × V) (ys : List (Bytes × V)) → l ≡ y ∷ ys → ahead y.0 k ≡ false)
      → HeadFree ahead k l
  HeadFree-cons [] f = tt
  HeadFree-cons (y ∷ ys) f = f y ys refl

pub cons_of :
    {A : Type 0} (l : List A) → is_empty l ≡ false → (x : A) × (xs : List A) × (l ≡ x ∷ xs)
cons_of [] h = cc h
cons_of (x ∷ xs) h = (x, xs, refl)
