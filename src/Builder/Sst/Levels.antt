-- ===== src/Builder/Sst/Levels.antt =====
-- The recursion over the index levels of an SST builder ends: no operation runs out of fuel.
use todb.Prelude.{
  ℕ, zero, suc, ◌+◌, ◌-◌, ◌≤◌, ◌<◌, ◌≡◌, ◌≢◌, refl, subst, ap, ◌∙◌, leb→le, leb_false→lt, inl, inr,
  true, false, List, [], ◌∷◌, ◌++◌, length, length-set, get_elem?, is_empty, Option, none, some,
  Run, ok, err, panic, no_fuel, unwrap, ◌>>=◌, arith, Bool-cases, leb,
}
use todb.Bytes.{Bytes}
use todb.Builder.DataBlock
use todb.Builder.IndexBlock.{Position, IndexBlockBuilder}
use todb.Builder.IndexBlock
use todb.Block.{DefaultSstWriter, sst_write_block}
use todb.Builder.Sst.{
  SstBuilder, see_key, flush_index_block, grown, push_index_entry, add_index_entry, levels_fuel,
  flush_data_block, make_room, add, add_delete, flush_level, flush_levels, top_is_wide, flush_top,
  finish,
}

pub bind-ne-no_fuel :
    {A B : Type 0} (m : Run A) (f : A → Run B)
    → m ≢ no_fuel
    → ((a : A) → m ≡ ok a → f a ≢ no_fuel)
    → (m >>= f) ≢ no_fuel
bind-ne-no_fuel (ok a) f e k = k a refl
bind-ne-no_fuel (err e) f h k = λ q. cc q
bind-ne-no_fuel panic f h k = λ q. cc q
bind-ne-no_fuel no_fuel f h k = λ q. h refl

unwrap-ne-no_fuel : {A : Type 0} (m : Option A) → unwrap m ≢ no_fuel
unwrap-ne-no_fuel none = λ q. cc q
unwrap-ne-no_fuel (some a) = λ q. cc q

false-ne-true : true ≢ false
false-ne-true = λ e. cc e

unwrapped : {A : Type 0} (m : Option A) {a : A} → unwrap m ≡ ok a → m ≡ some a
unwrapped none e = cc e
unwrapped (some x) e = cc e

-- the level that was just added is empty
get_elem?-pushed :
    {A : Type 0} (xs : List A) (x y : A) (i : ℕ)
    → length xs ≤ i
    → get_elem? (xs ++ x ∷ []) i ≡ some y
    → y ≡ x
get_elem?-pushed [] x y zero h e = cc e
get_elem?-pushed [] x y (suc i) h e = cc e
get_elem?-pushed (z ∷ xs) x y zero h e = absurd (omega arith)
get_elem?-pushed (z ∷ xs) x y (suc i) h e = get_elem?-pushed xs x y i (omega arith) e

index_add-ne-no_fuel :
    (b : IndexBlockBuilder) (e : Bytes) (p : Position) → IndexBlock.add b e p ≢ no_fuel
unfolding IndexBlock.add
index_add-ne-no_fuel b e p = ground arith

push_index_entry-ne-no_fuel :
    (level : ℕ) (e : Bytes) (p : Position) (b : SstBuilder) → push_index_entry level e p b ≢ no_fuel
unfolding push_index_entry
push_index_entry-ne-no_fuel level e p b =
    bind-ne-no_fuel (unwrap (get_elem? b.index_builders level)) _
      (unwrap-ne-no_fuel (get_elem? b.index_builders level))
      λ builder _.
        bind-ne-no_fuel (IndexBlock.add builder e p) _ (index_add-ne-no_fuel builder e p)
          λ c _ q. cc q

sst_write_block-ne-no_fuel :
    (w : DefaultSstWriter) (block : Bytes) → sst_write_block w block ≢ no_fuel
unfolding sst_write_block
sst_write_block-ne-no_fuel w block = ground arith

-- a flush ends where the entry that it hands on is added by a call that ends
flush_index_block-ne-no_fuel :
    (rec : ℕ → Bytes → Position → SstBuilder → Run SstBuilder) (level : ℕ) (b : SstBuilder)
    → ((builder : IndexBlockBuilder)
        → get_elem? b.index_builders level ≡ some builder
        → is_empty builder.entries ≡ false
        → (e : Bytes) (p : Position) (c : SstBuilder)
        → length c.index_builders ≡ length b.index_builders
        → rec (level + 1) e p c ≢ no_fuel)
    → flush_index_block rec level b ≢ no_fuel
unfolding flush_index_block
flush_index_block-ne-no_fuel rec level b h =
    bind-ne-no_fuel (unwrap (get_elem? b.index_builders level)) _
      (unwrap-ne-no_fuel (get_elem? b.index_builders level))
      λ builder found. elim (Bool-cases (is_empty builder.entries)) [
        | inl t ↦ rw t (λ q. cc q)
        | inr f ↦ rw f (
            bind-ne-no_fuel (sst_write_block b.writer (IndexBlock.finish builder).0) _
              (sst_write_block-ne-no_fuel b.writer (IndexBlock.finish builder).0)
              λ written _.
                h builder (unwrapped (get_elem? b.index_builders level) found) f _ written.0 _
                  (length-set b.index_builders level (IndexBlock.finish builder).1))
      ]

grown-new :
    (level : ℕ) (b : SstBuilder)
    → leb (length b.index_builders) level ≡ true
    → (grown level b).index_builders ≡ b.index_builders ++ IndexBlock.new b.option ∷ []
unfolding grown
grown-new level b h = rw h refl

grown-old :
    (level : ℕ) (b : SstBuilder)
    → leb (length b.index_builders) level ≡ false
    → (grown level b).index_builders ≡ b.index_builders
unfolding grown
grown-old level b h = rw h refl

-- one level, given the calls for the levels above it
add_index_entry-ne-no_fuel :
    (fuel level : ℕ) (e : Bytes) (p : Position) (b : SstBuilder)
    → 0 < fuel
    → length b.index_builders < level + fuel
    → add_index_entry fuel level e p b ≢ no_fuel
unfolding add_index_entry
add_index_entry-ne-no_fuel zero level e p b h k = absurd (omega arith)
add_index_entry-ne-no_fuel (suc fuel) level e p b h k =
    bind-ne-no_fuel (unwrap (get_elem? (grown level b).index_builders level)) _
      (unwrap-ne-no_fuel (get_elem? (grown level b).index_builders level))
      λ builder found.
        bind-ne-no_fuel _ _
          (elim (Bool-cases (IndexBlock.would_exceed builder e p)) [
            | inr f ↦ rw f (λ q. cc q)
            | inl t ↦ rw t (
                flush_index_block-ne-no_fuel (add_index_entry fuel) level (grown level b)
                  (elim (Bool-cases (leb (length b.index_builders) level)) [
                    | inl new ↦ λ c at full.
                        let pushed : c ≡ IndexBlock.new b.option =
                          get_elem?-pushed b.index_builders (IndexBlock.new b.option) c level
                            (leb→le _ _ new)
                            (subst (λ (l : List IndexBlockBuilder). get_elem? l level ≡ some c)
                              (grown-new level b new) at) in
                        absurd (
                          false-ne-true (
                            subst (λ (d : IndexBlockBuilder). is_empty d.entries ≡ false) pushed
                              full))
                    | inr old ↦ λ c at full e' p' d same.
                        let size : length d.index_builders ≡ length b.index_builders =
                          same ∙ ap length (grown-old level b old) in
                        let below : level < length b.index_builders = leb_false→lt _ _ old in
                        add_index_entry-ne-no_fuel fuel (level + 1) e' p' d (omega arith)
                          (omega arith)
                  ]))
          ])
          λ c _. push_index_entry-ne-no_fuel level e p c

flush_data_block-ne-no_fuel : (b : SstBuilder) → flush_data_block b ≢ no_fuel
unfolding flush_data_block
flush_data_block-ne-no_fuel b = elim (Bool-cases (is_empty b.data_builder.entries)) [
  | inl t ↦ rw (t, flush_data_block) (λ q. cc q)
  | inr f ↦
      rw (f, flush_data_block)
        (bind-ne-no_fuel (sst_write_block b.writer (DataBlock.finish b.data_builder).0) _
          (sst_write_block-ne-no_fuel b.writer (DataBlock.finish b.data_builder).0)
          λ written _.
            add_index_entry-ne-no_fuel (levels_fuel b) 0 _ written.0 _ (omega arith) (omega arith))
]

make_room-ne-no_fuel : (b : SstBuilder) (k v : Bytes) → make_room b k v ≢ no_fuel
unfolding make_room
make_room-ne-no_fuel b k v = elim (Bool-cases (DataBlock.would_exceed b.data_builder k v)) [
  | inl t ↦ rw (t, make_room) (flush_data_block-ne-no_fuel b)
  | inr f ↦ rw (f, make_room) (λ q. cc q)
]

data_add-ne-no_fuel :
    (b : DataBlock.DataBlockBuilder) (k v : Bytes)
    → (DataBlock.add b k v ≢ no_fuel) × (DataBlock.add_delete b k ≢ no_fuel)
unfolding DataBlock.add DataBlock.add_delete
data_add-ne-no_fuel b k v = (ground arith, ground arith)

add-ne-no_fuel : (b : SstBuilder) (k v : Bytes) → add b k v ≢ no_fuel
unfolding add
add-ne-no_fuel b k v =
    bind-ne-no_fuel (make_room (see_key b k) k v) _ (make_room-ne-no_fuel (see_key b k) k v) λ c _.
      bind-ne-no_fuel (DataBlock.add c.data_builder k v) _
        (data_add-ne-no_fuel c.data_builder k v).0 λ d _ q. cc q

add_delete-ne-no_fuel : (b : SstBuilder) (k : Bytes) → add_delete b k ≢ no_fuel
unfolding add_delete
add_delete-ne-no_fuel b k =
    bind-ne-no_fuel (make_room (see_key b k) k []) _ (make_room-ne-no_fuel (see_key b k) k [])
      λ c _.
        bind-ne-no_fuel (DataBlock.add_delete c.data_builder k) _
          (data_add-ne-no_fuel c.data_builder k []).1 λ d _ q. cc q

flush_level-ne-no_fuel : (level : ℕ) (b : SstBuilder) → flush_level level b ≢ no_fuel
unfolding flush_level
flush_level-ne-no_fuel level b =
    flush_index_block-ne-no_fuel (add_index_entry (levels_fuel b)) level b
      λ builder at full e p c same.
        add_index_entry-ne-no_fuel (levels_fuel b) (level + 1) e p c (omega arith) (omega arith)

flush_levels-ne-no_fuel : (left level : ℕ) (b : SstBuilder) → flush_levels left level b ≢ no_fuel
unfolding flush_levels
flush_levels-ne-no_fuel zero level b = λ q. cc q
flush_levels-ne-no_fuel (suc left) level b =
    bind-ne-no_fuel (flush_level level b) _ (flush_level-ne-no_fuel level b)
      λ c _. flush_levels-ne-no_fuel left (level + 1) c

flush_top-ne-no_fuel : (b : SstBuilder) → flush_top b ≢ no_fuel
unfolding flush_top
flush_top-ne-no_fuel b = elim (Bool-cases (top_is_wide b)) [
  | inl t ↦ rw (t, flush_top) (flush_level-ne-no_fuel (length b.index_builders - 1) b)
  | inr f ↦ rw (f, flush_top) (λ q. cc q)
]

finish-ne-no_fuel : (b : SstBuilder) → finish b ≢ no_fuel
unfolding finish
finish-ne-no_fuel b = bind-ne-no_fuel (flush_data_block b) _ (flush_data_block-ne-no_fuel b) λ c _.
    bind-ne-no_fuel (flush_levels (length c.index_builders) 0 c) _
      (flush_levels-ne-no_fuel (length c.index_builders) 0 c)
      λ d _. bind-ne-no_fuel (flush_top d) _ (flush_top-ne-no_fuel d) λ e _ q. cc q

-- On any builder, whatever its levels hold, adding an entry or a tombstone and finishing the file
-- end: the calls of add_index_entry and flush_index_block for ever higher levels never go beyond
-- two levels above those that there are, which is the fuel that the model gives them.
pub operations_end :
    (b : SstBuilder) (key value : Bytes)
    → (add b key value ≢ no_fuel) × (add_delete b key ≢ no_fuel) × (finish b ≢ no_fuel)
operations_end b key value =
    (add-ne-no_fuel b key value, add_delete-ne-no_fuel b key, finish-ne-no_fuel b)
