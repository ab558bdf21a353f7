-- ===== src/Builder/DataBlock/Size.antt =====
-- The running estimate of a data block's size, against the bytes that are written.
use todb.Prelude.{
  ℕ, ◌+◌, ◌≤◌, ◌≡◌, refl, ap, ◌∙◌, false, List, [], ◌∷◌, ◌++◌, map, length, arith, ok,
}
use todb.Bytes.{Bytes}
use todb.Builder.Layout.{sum}
use todb.Builder.DataBlock.{
  SstOption, BlockEntry, put, delete, entry_key, value_len, envelope, DataBlockBuilder, new, add,
  add_delete, would_exceed, encode, block_fixed_header_size, per_entry_offset_table_bytes,
  data_entry_header_len,
}
use todb.Iterators.BlockIter.RoundTrip.{lens, header_size}
use todb.Iterators.DataBlockRoundTrip.{keys_of, length-encode}

-- A builder as `SstBuilder` uses it: it adds an entry after `would_exceed` has denied.
pub data Grown (opt : SstOption) : DataBlockBuilder → Type 0 where
  start : Grown opt (new opt)
  put_next :
      {b c : DataBlockBuilder} (k v : Bytes)
      → Grown opt b
      → would_exceed b k v ≡ false
      → add b k v ≡ ok c
      → Grown opt c
  delete_next :
      {b c : DataBlockBuilder} (k : Bytes)
      → Grown opt b
      → would_exceed b k [] ≡ false
      → add_delete b k ≡ ok c
      → Grown opt c

-- what `add` and `add_delete` add to the estimate
entry_size : BlockEntry → ℕ
entry_size e =
    length (entry_key e) + value_len e + per_entry_offset_table_bytes + data_entry_header_len

sizes : List BlockEntry → ℕ
sizes [] = 0
sizes (e ∷ es) = entry_size e + sizes es

sizes-append :
    (es : List BlockEntry) (e : BlockEntry) → sizes (es ++ e ∷ []) ≡ sizes es + entry_size e
unfolding sizes
sizes-append [] e = omega arith
sizes-append (d ∷ es) e = omega (arith, sizes-append es e)

-- the sizes count all bytes behind the fixed header
layout_size :
    (es : List BlockEntry)
    → header_size (keys_of es) + sum (lens (keys_of es)) + sum (lens (map envelope es))
      ≡ 12 + sizes es
unfolding sizes entry_size sum
layout_size [] = omega arith
layout_size (put k v ∷ es) = omega (arith, layout_size es)
layout_size (delete k ∷ es) = omega (arith, layout_size es)

-- what holds of a builder
record IsAccounted (opt : SstOption) (b : DataBlockBuilder) : Type 0 where
  counted : b.estimated_size ≡ sizes b.entries
  option_kept : b.option.block_size ≡ opt.block_size
  room : 12 ≤ opt.block_size → 12 + b.estimated_size ≤ opt.block_size

-- the builder after an entry that was accepted
record Added (b c : DataBlockBuilder) (e : BlockEntry) : Type 0 where
  estimated : c.estimated_size ≡ b.estimated_size + entry_size e
  entries_are : c.entries ≡ b.entries ++ e ∷ []
  option_is : c.option ≡ b.option

add-Added : (b c : DataBlockBuilder) (k v : Bytes) → add b k v ≡ ok c → Added b c (put k v)
unfolding add entry_size
add-Added b c k v e = ground arith

add_delete-Added :
    (b c : DataBlockBuilder) (k : Bytes) → add_delete b k ≡ ok c → Added b c (delete k)
unfolding add_delete entry_size
add_delete-Added b c k e = ground arith

IsAccounted-Added :
    (opt : SstOption) (b c : DataBlockBuilder) (e : BlockEntry)
    → IsAccounted opt b
    → Added b c e
    → 12 + b.estimated_size + entry_size e ≤ b.option.block_size
    → IsAccounted opt c
IsAccounted-Added opt b c e a n h = record {
  counted = omega (arith, a.counted, n.estimated, sizes-append b.entries e, ap sizes n.entries_are);
  option_kept = ap (λ (o : SstOption). o.block_size) n.option_is ∙ a.option_kept;
  room = λ _. omega (arith, a.option_kept, n.estimated);
}

put-fits :
    (b : DataBlockBuilder) (k v : Bytes)
    → would_exceed b k v ≡ false
    → 12 + b.estimated_size + entry_size (put k v) ≤ b.option.block_size
unfolding would_exceed entry_size
put-fits b k v w = ground arith

delete-fits :
    (b : DataBlockBuilder) (k : Bytes)
    → would_exceed b k [] ≡ false
    → 12 + b.estimated_size + entry_size (delete k) ≤ b.option.block_size
unfolding would_exceed entry_size
delete-fits b k w = ground arith

Grown-IsAccounted : (opt : SstOption) {b : DataBlockBuilder} → Grown opt b → IsAccounted opt b
Grown-IsAccounted opt start = record {
  counted = unfold sizes in refl;
  option_kept = refl;
  room = λ h. h;
}
Grown-IsAccounted opt (put_next {b} {c} k v g w e) =
    IsAccounted-Added opt b c (put k v) (Grown-IsAccounted opt g) (add-Added b c k v e)
      (put-fits b k v w)
Grown-IsAccounted opt (delete_next {b} {c} k g w e) =
    IsAccounted-Added opt b c (delete k) (Grown-IsAccounted opt g) (add_delete-Added b c k e)
      (delete-fits b k w)

-- While entries are added only where `would_exceed` denied, the estimate and the fixed header are
-- exactly the bytes that are encoded, and these fit in the block: `finish` pads and never cuts.
pub encode-fits :
    (opt : SstOption) (b : DataBlockBuilder)
    → Grown opt b
    → 12 ≤ opt.block_size
    → (length (encode b.entries) ≡ block_fixed_header_size + b.estimated_size)
      × (length (encode b.entries) ≤ b.option.block_size)
encode-fits opt b g h =
    let a : IsAccounted opt b = Grown-IsAccounted opt g in
    let e : length (encode b.entries) ≡ 12 + b.estimated_size =
      length-encode b.entries ∙ layout_size b.entries ∙ omega (arith, a.counted) in
    (e, omega (arith, a.room h, a.option_kept))
