-- ===== src/Iterators/BlockIter/Ascending.antt =====
-- Sorted keys, spelled out entry by entry.
use todb.Prelude.{ℕ, zero, suc, ◌≡◌, true, some, List, [], ◌∷◌, get_elem?, arith}
use todb.Bytes.{Bytes}
use todb.Bytes.Order.{lt_bytes}
use todb.Iterators.BlockIter.Search.{IsSorted}

-- `k` is below every key
abbrev pub IsBelow : Bytes → List Bytes → Type 0
IsBelow k [] = Unit
IsBelow k (x ∷ xs) = (lt_bytes k x ≡ true) × IsBelow k xs

abbrev pub IsAscending : List Bytes → Type 0
IsAscending [] = Unit
IsAscending (x ∷ xs) = IsBelow x xs × IsAscending xs

below_elem :
    (k l : Bytes) (xs : List Bytes) (j : ℕ)
    → IsBelow k xs
    → get_elem? xs j ≡ some l
    → lt_bytes k l ≡ true
below_elem k l [] j b e = cc e
below_elem k l (x ∷ xs) zero b e = let xl : x ≡ l = cc e in rw (← xl) b.0
below_elem k l (x ∷ xs) (suc j) b e = below_elem k l xs j b.1 e

pub IsAscending-IsSorted : (xs : List Bytes) → IsAscending xs → IsSorted xs
IsAscending-IsSorted [] a i j k l h p q = cc p
IsAscending-IsSorted (x ∷ xs) a i zero k l h p q = absurd (omega arith)
IsAscending-IsSorted (x ∷ xs) a zero (suc j) k l h p q =
    let xk : x ≡ k = cc p in below_elem k l xs j (rw (← xk) a.0) q
IsAscending-IsSorted (x ∷ xs) a (suc i) (suc j) k l h p q =
    IsAscending-IsSorted xs a.1 i j k l (omega arith) p q
