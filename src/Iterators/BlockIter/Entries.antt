-- ===== src/Iterators/BlockIter/Entries.antt =====
-- The entries of a block as a list, and its parts in front of and behind a position.
use todb.Prelude.{
  ℕ, zero, suc, ◌≤◌, ◌<◌, ◌≡◌, refl, sym, ap, ◌∙◌, Bool, true, false, not, List, [], ◌∷◌, ◌++◌,
  reverse, length, take, drop, get_elem?, some, arith, take-append-drop,
}
use mathlib.Core.List.{reverse-append}
use todb.Bytes.{Bytes}
use todb.Iterators.Traits.{skip_to}
use todb.Iterators.BlockIter.Search.{Splits}

-- the entries of a block, in the order of the block
unfoldable pub zip_entries : List Bytes → List Bytes → List (Bytes × Bytes)
zip_entries [] values = []
zip_entries (k ∷ keys) [] = []
zip_entries (k ∷ keys) (v ∷ values) = (k, v) ∷ zip_entries keys values

pub length-zip_entries-le :
    (keys values : List Bytes) → length (zip_entries keys values) ≤ length keys
unfolding zip_entries
length-zip_entries-le [] values = omega arith
length-zip_entries-le (k ∷ keys) [] = omega arith
length-zip_entries-le (k ∷ keys) (v ∷ values) = omega (arith, length-zip_entries-le keys values)

pub drop-zip_entries :
    (keys values : List Bytes) (i : ℕ) {k v : Bytes}
    → get_elem? keys i ≡ some k
    → get_elem? values i ≡ some v
    → drop i (zip_entries keys values) ≡ (k, v) ∷ drop (suc i) (zip_entries keys values)
unfolding zip_entries
drop-zip_entries [] values i p q = absurd (ground arith)
drop-zip_entries (k ∷ keys) [] i p q = absurd (ground arith)
drop-zip_entries (k ∷ keys) (v ∷ values) zero p q = ground arith
drop-zip_entries (k ∷ keys) (v ∷ values) (suc i) p q = drop-zip_entries keys values i p q

pub drop-zip_entries_end :
    (keys values : List Bytes) (i : ℕ) → length keys ≤ i → drop i (zip_entries keys values) ≡ []
unfolding zip_entries
drop-zip_entries_end [] values zero h = refl
drop-zip_entries_end [] values (suc i) h = refl
drop-zip_entries_end (k ∷ keys) values zero h = absurd (omega arith)
drop-zip_entries_end (k ∷ keys) [] (suc i) h = refl
drop-zip_entries_end (k ∷ keys) (v ∷ values) (suc i) h =
    drop-zip_entries_end keys values i (omega arith)

pub take-zip_entries :
    (keys values : List Bytes) (i : ℕ) {k v : Bytes}
    → get_elem? keys i ≡ some k
    → get_elem? values i ≡ some v
    → take (suc i) (zip_entries keys values) ≡ take i (zip_entries keys values) ++ (k, v) ∷ []
unfolding zip_entries
take-zip_entries [] values i p q = absurd (ground arith)
take-zip_entries (k ∷ keys) [] i p q = absurd (ground arith)
take-zip_entries (k ∷ keys) (v ∷ values) zero p q = ground arith
take-zip_entries (k ∷ keys) (v ∷ values) (suc i) p q =
    ap (λ (xs : List (Bytes × Bytes)). (k, v) ∷ xs) (take-zip_entries keys values i p q)

-- the last of the first `i + 1` entries, then those before it
pub reverse-take-zip_entries :
    (keys values : List Bytes) (i : ℕ) {k v : Bytes}
    → get_elem? keys i ≡ some k
    → get_elem? values i ≡ some v
    → reverse (take (suc i) (zip_entries keys values))
      ≡ (k, v) ∷ reverse (take i (zip_entries keys values))
reverse-take-zip_entries keys values i {k} {v} p q =
    ap reverse (take-zip_entries keys values i p q)
    ∙ reverse-append (take i (zip_entries keys values)) ((k, v) ∷ [])

-- all keys have this answer to a test
abbrev pub AllKeys : (Bytes → Bool) → Bool → List (Bytes × Bytes) → Type 0
AllKeys test b [] = Unit
AllKeys test b (x ∷ xs) = (test x.0 ≡ b) × AllKeys test b xs

AllKeys-append :
    (test : Bytes → Bool) (b : Bool) (xs ys : List (Bytes × Bytes))
    → AllKeys test b xs
    → AllKeys test b ys
    → AllKeys test b (xs ++ ys)
AllKeys-append test b [] ys p q = q
AllKeys-append test b (x ∷ xs) ys p q = (p.0, AllKeys-append test b xs ys p.1 q)

AllKeys-reverse :
    (test : Bytes → Bool) (b : Bool) (xs : List (Bytes × Bytes))
    → AllKeys test b xs
    → AllKeys test b (reverse xs)
AllKeys-reverse test b [] p = tt
AllKeys-reverse test b (x ∷ xs) p =
    rw (reverse-append (x ∷ []) xs)
      (AllKeys-append test b (reverse xs) (x ∷ []) (AllKeys-reverse test b xs p.1) (p.0, tt))

AllKeys-take :
    (test : Bytes → Bool) (b : Bool) (keys values : List Bytes) (n : ℕ)
    → ((i : ℕ) (k : Bytes) → i < n → get_elem? keys i ≡ some k → test k ≡ b)
    → AllKeys test b (take n (zip_entries keys values))
unfolding zip_entries
AllKeys-take test b [] values zero h = tt
AllKeys-take test b [] values (suc n) h = tt
AllKeys-take test b (k ∷ keys) [] zero h = tt
AllKeys-take test b (k ∷ keys) [] (suc n) h = tt
AllKeys-take test b (k ∷ keys) (v ∷ values) zero h = tt
AllKeys-take test b (k ∷ keys) (v ∷ values) (suc n) h = (
  h zero k (omega arith) refl,
  AllKeys-take test b keys values n (λ i l p q. h (suc i) l (omega arith) q),
)

AllKeys-drop :
    (test : Bytes → Bool) (b : Bool) (keys values : List Bytes) (n : ℕ)
    → ((i : ℕ) (k : Bytes) → n ≤ i → get_elem? keys i ≡ some k → test k ≡ b)
    → AllKeys test b (drop n (zip_entries keys values))
unfolding zip_entries
AllKeys-drop test b [] values zero h = tt
AllKeys-drop test b [] values (suc n) h = tt
AllKeys-drop test b (k ∷ keys) [] zero h = tt
AllKeys-drop test b (k ∷ keys) [] (suc n) h = tt
AllKeys-drop test b (k ∷ keys) (v ∷ values) zero h = (
  h zero k (omega arith) refl,
  AllKeys-drop test b keys values zero (λ i l p q. h (suc i) l (omega arith) q),
)
AllKeys-drop test b (k ∷ keys) (v ∷ values) (suc n) h =
    AllKeys-drop test b keys values n (λ i l p q. h (suc i) l (omega arith) q)

-- A seek passes what is ahead of the target and stops at what is not.
skip_to-append :
    (ahead : Bytes → Bytes → Bool) (target : Bytes) (xs ys : List (Bytes × Bytes))
    → AllKeys (λ k. ahead k target) true xs
    → AllKeys (λ k. ahead k target) false ys
    → skip_to ahead target (xs ++ ys) ≡ ys
unfolding skip_to
skip_to-append ahead target [] [] p q = refl
skip_to-append ahead target [] (y ∷ ys) p q = ground arith
skip_to-append ahead target (x ∷ xs) ys p q =
    ground (arith, skip_to-append ahead target xs ys p.1 q)

module _ (ahead : Bytes → Bytes → Bool) (target : Bytes) (keys values : List Bytes) (n : ℕ) where
  pub skip_to-forward :
      Splits (λ k. ahead k target) keys n
      → skip_to ahead target (zip_entries keys values) ≡ drop n (zip_entries keys values)
  skip_to-forward s =
      ap (skip_to ahead target) (sym (take-append-drop n (zip_entries keys values)))
      ∙ skip_to-append ahead target (take n (zip_entries keys values))
          (drop n (zip_entries keys values))
          (AllKeys-take (λ k. ahead k target) true keys values n s.before)
          (AllKeys-drop (λ k. ahead k target) false keys values n s.after)

  pub skip_to-backward :
      Splits (λ k. not (ahead k target)) keys n
      → skip_to ahead target (reverse (zip_entries keys values))
        ≡ reverse (take n (zip_entries keys values))
  skip_to-backward s =
      ap (skip_to ahead target) (
        ap reverse (sym (take-append-drop n (zip_entries keys values)))
        ∙ reverse-append (take n (zip_entries keys values)) (drop n (zip_entries keys values)))
      ∙ skip_to-append ahead target (reverse (drop n (zip_entries keys values)))
          (reverse (take n (zip_entries keys values)))
          (AllKeys-reverse (λ k. ahead k target) true (drop n (zip_entries keys values))
            (AllKeys-drop (λ k. ahead k target) true keys values n
              (λ i k p q. ground (arith, s.after i k p q))))
          (AllKeys-reverse (λ k. ahead k target) false (take n (zip_entries keys values))
            (AllKeys-take (λ k. ahead k target) false keys values n
              (λ i k p q. ground (arith, s.before i k p q))))
