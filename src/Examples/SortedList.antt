-- ===== src/Examples/SortedList.antt =====
-- A skip list to try the model on: a sorted association list.
use mathlib.Core.List.{head?}
use todb.Prelude.{
  ◌≡◌, refl, sym, subst, ap, ◌∙◌, inl, inr, Bool, true, false, List, [], ◌∷◌, ◌++◌, reverse, Option,
  none, some, length, arith, Bool-cases, if◌then◌else◌,
}
use todb.Bytes.{Bytes}
use todb.Bytes.Order.{
  lt_bytes, eq_bytes, eq_bytes_sound, eq_bytes_refl, lt_bytes_trans, lt_bytes_total,
  lt_bytes_irrefl,
}
use todb.Iterators.Traits.{forward, backward, skip_to}
use todb.Iterators.TwoMerge.Priority.{find}
use todb.Memtable.Order.{Ascending-reverse}
use todb.Memtable.SkipList.{Entry, Item, SkipMap, Laws, AllAfter, Ascending}

pub record SortedList : Type 0 where
  pub items : List Item
  pub sorted : Ascending forward items

unfoldable pub insert_item : Bytes → Entry → List Item → List Item
insert_item k e [] = (k, e) ∷ []
insert_item k e (x ∷ xs) = elim (eq_bytes k x.0) [
  | true ↦ (k, e) ∷ xs
  | false ↦ elim (lt_bytes k x.0) [ true ↦ (k, e) ∷ x ∷ xs | false ↦ x ∷ insert_item k e xs ]
]

AllAfter-later :
    (k j : Bytes) (xs : List Item)
    → lt_bytes k j ≡ true
    → AllAfter forward j xs
    → AllAfter forward k xs
AllAfter-later k j [] h a = tt
AllAfter-later k j (x ∷ xs) h a = (lt_bytes_trans k j x.0 h a.0, AllAfter-later k j xs h a.1)

AllAfter-insert_item :
    (j k : Bytes) (e : Entry) (xs : List Item)
    → lt_bytes j k ≡ true
    → AllAfter forward j xs
    → AllAfter forward j (insert_item k e xs)
unfolding insert_item
AllAfter-insert_item j k e [] h a = (h, tt)
AllAfter-insert_item j k e (x ∷ xs) h a = elim (Bool-cases (eq_bytes k x.0)) [
  | inl t ↦ rw (t, insert_item) (h, a.1)
  | inr f ↦ elim (Bool-cases (lt_bytes k x.0)) [
    | inl u ↦ rw (f, u, insert_item) (h, a)
    | inr g ↦ rw (f, g, insert_item) (a.0, AllAfter-insert_item j k e xs h a.1)
  ]
]

pub insert_item-Ascending :
    (k : Bytes) (e : Entry) (xs : List Item)
    → Ascending forward xs
    → Ascending forward (insert_item k e xs)
unfolding insert_item
insert_item-Ascending k e [] a = (tt, tt)
insert_item-Ascending k e (x ∷ xs) a = elim (Bool-cases (eq_bytes k x.0)) [
  | inl t ↦
      rw (t, insert_item)
        (subst (λ (j : Bytes). AllAfter forward j xs) (sym (eq_bytes_sound k x.0 t)) a.0, a.1)
  | inr f ↦ elim (Bool-cases (lt_bytes k x.0)) [
    | inl u ↦ rw (f, u, insert_item) ((u, AllAfter-later k x.0 xs u a.0), a)
    | inr g ↦
        let after : lt_bytes x.0 k ≡ true = elim (Bool-cases (lt_bytes x.0 k)) [
          | inl h ↦ h
          | inr h ↦
              let same : eq_bytes k x.0 ≡ true =
                rw (lt_bytes_total k x.0 g h) (eq_bytes_refl x.0) in
              cc (same, f)
        ] in
        rw (f, g, insert_item)
          (AllAfter-insert_item x.0 k e xs after a.0, insert_item-Ascending k e xs a.1)
  ]
]

pub find-insert_item :
    (j k : Bytes) (e : Entry) (xs : List Item)
    → find j (insert_item k e xs) ≡ (if eq_bytes k j then some e else find j xs)
unfolding insert_item find
find-insert_item j k e [] = refl
find-insert_item j k e (x ∷ xs) = elim (Bool-cases (eq_bytes k x.0)) [
  | inl t ↦
      let same : k ≡ x.0 = eq_bytes_sound k x.0 t in rw (t, insert_item) (rw same (ground arith))
  | inr f ↦ elim (Bool-cases (lt_bytes k x.0)) [
    | inl u ↦ rw (f, u, insert_item) refl
    | inr g ↦
        rw (f, g, insert_item)
          (elim (Bool-cases (eq_bytes k j)) [
            | inl m ↦
                let kj : k ≡ j = eq_bytes_sound k j m in
                let other : eq_bytes x.0 j ≡ false = elim (Bool-cases (eq_bytes x.0 j)) [
                  | inr o ↦ o
                  | inl o ↦
                      let same : eq_bytes k x.0 ≡ true =
                        rw kj (rw (eq_bytes_sound x.0 j o) (eq_bytes_refl j)) in
                      cc (same, f)
                ] in
                rw other (find-insert_item j k e xs)
            | inr o ↦ ground (arith, find-insert_item j k e xs)
          ])
  ]
]

-- the entry behind the one with a key
unfoldable pub follow : Bytes → List Item → Option Item
follow k [] = none
follow k (x ∷ xs) = if eq_bytes x.0 k then head? xs else follow k xs

-- an order in which no key is ahead of itself
module _ (ahead : Bytes → Bytes → Bool) (irrefl : (a : Bytes) → ahead a a ≡ false) where
  ahead-ne : (a b : Bytes) → ahead a b ≡ true → eq_bytes a b ≡ false
  ahead-ne a b h = elim (Bool-cases (eq_bytes a b)) [
    | inr f ↦ f
    | inl t ↦ cc (subst (λ (c : Bytes). ahead c b ≡ true) (eq_bytes_sound a b t) h, irrefl b)
  ]

  AllAfter-mid :
      (k : Bytes) (before : List Item) (x : Item) (after : List Item)
      → AllAfter ahead k (before ++ x ∷ after)
      → ahead k x.0 ≡ true
  AllAfter-mid k [] x after a = a.0
  AllAfter-mid k (y ∷ before) x after a = AllAfter-mid k before x after a.1

  pub follow-append :
      (before : List Item) (x : Item) (after : List Item)
      → Ascending ahead (before ++ x ∷ after)
      → follow x.0 (before ++ x ∷ after) ≡ head? after
  unfolding follow
  follow-append [] x after a = rw (eq_bytes_refl x.0) refl
  follow-append (y ∷ before) x after a =
      rw (ahead-ne y.0 x.0 (AllAfter-mid y.0 before x after a.0)) (follow-append before x after a.1)

abbrev pub sorted_list : SkipMap SortedList
sorted_list = record {
  empty = record { items = []; sorted = tt };
  insert = λ m k e. record {
    items = insert_item k e m.items;
    sorted = insert_item-Ascending k e m.items m.sorted;
  };
  len = λ m. length m.items;
  front = λ m. head? m.items;
  back = λ m. head? (reverse m.items);
  lower_bound = λ m k. head? (skip_to forward k m.items);
  upper_bound = λ m k. head? (skip_to backward k (reverse m.items));
  next = λ m k. follow k m.items;
  prev = λ m k. follow k (reverse m.items);
}

abbrev pub sorted_list-Laws : Laws sorted_list
sorted_list-Laws = record {
  entries = λ m. m.items;
  ascending = λ m. m.sorted;
  entries_empty = refl;
  find_insert = λ m j k e. find-insert_item j k e m.items;
  len_at = λ m. refl;
  front_at = λ m. refl;
  back_at = λ m. refl;
  lower_at = λ m k. refl;
  upper_at = λ m k. refl;
  next_at = λ m before x after e.
      ap (follow x.0) e
      ∙ follow-append forward lt_bytes_irrefl before x after (subst (Ascending forward) e m.sorted);
  prev_at = λ m before x after e.
      ap (follow x.0) e
      ∙ follow-append backward lt_bytes_irrefl before x after
          (subst (Ascending backward) e (Ascending-reverse m.items m.sorted));
}
