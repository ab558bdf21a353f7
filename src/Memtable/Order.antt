-- ===== src/Memtable/Order.antt =====
-- The entries of a memtable backwards.
use mathlib.Core.List.{reverse-append}
use todb.Prelude.{◌≡◌, sym, subst, Bool, true, List, [], ◌∷◌, ◌++◌, reverse}
use todb.Bytes.{Bytes}
use todb.Iterators.Traits.{forward, backward}
use todb.Memtable.SkipList.{Item, AllAfter, Ascending}

AllAfter-snoc :
    (ahead : Bytes → Bytes → Bool) (k : Bytes) (xs : List Item) (x : Item)
    → AllAfter ahead k xs
    → ahead k x.0 ≡ true
    → AllAfter ahead k (xs ++ x ∷ [])
AllAfter-snoc ahead k [] x a h = (h, tt)
AllAfter-snoc ahead k (y ∷ xs) x a h = (a.0, AllAfter-snoc ahead k xs x a.1 h)

AllAfter-reverse :
    (k : Bytes) (xs : List Item) → AllAfter forward k xs → AllAfter forward k (reverse xs)
AllAfter-reverse k [] a = tt
AllAfter-reverse k (x ∷ xs) a =
    subst (AllAfter forward k) (sym (reverse-append (x ∷ []) xs))
      (AllAfter-snoc forward k (reverse xs) x (AllAfter-reverse k xs a.1) a.0)

Ascending-snoc :
    (zs : List Item) (x : Item)
    → AllAfter forward x.0 zs
    → Ascending backward zs
    → Ascending backward (zs ++ x ∷ [])
Ascending-snoc [] x a b = (tt, tt)
Ascending-snoc (z ∷ zs) x a b =
    (AllAfter-snoc backward z.0 zs x b.0 a.0, Ascending-snoc zs x a.1 b.1)

-- backwards the entries are in the reverse order
pub Ascending-reverse : (xs : List Item) → Ascending forward xs → Ascending backward (reverse xs)
Ascending-reverse [] a = tt
Ascending-reverse (x ∷ xs) a =
    subst (Ascending backward) (sym (reverse-append (x ∷ []) xs))
      (Ascending-snoc (reverse xs) x (AllAfter-reverse x.0 xs a.0) (Ascending-reverse xs a.1))
