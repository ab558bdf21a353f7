-- ===== src/Iterators/IndexTree.antt =====
-- crates/storage/src/iterators/index_tree_iter.rs: `IndexTreeIter`, over the blocks of a file in
-- memory.
--
-- The two directions differ in the methods of the block iterators alone: `raw` are those of the
-- direction. A loop that goes down takes as fuel the height of the tree, one that goes up one round
-- more than `curr_iter_idx`.
pub mod Stale
use todb.Prelude.{
  ℕ, zero, suc, ◌+◌, ◌-◌, Bool, true, false, ◌&&◌, List, [], ◌∷◌, ◌++◌, length, get_elem?, set,
  Option, none, some, Run, ok, err, no_fuel, invalid_value, assert, unwrap, is_empty, ◌>>=◌, ◌>>◌,
  if◌then◌else◌, leb, ltb, ◌==◌, not,
}
use todb.Bytes.{Bytes}
use todb.Builder.DataBlock.{SstOption}
use todb.Builder.IndexBlock.{Position}
use todb.Builder.Footer.{SstFooter}
use todb.Block.{InMemoryBlockReader, read_block}
use todb.Iterators.Traits.{Iter}
use todb.Iterators.BlockIter.{NormalBlockIter}
use todb.Iterators.BlockIter
use todb.Iterators.BlockIter.Scans.{block_forward}
use todb.Iterators.IndexEntryDecode.{IndexEntryDecodeIter, index_entries, position_of}
use todb.Iterators.IndexEntryDecode

abbrev pub LevelIter : Type 0
LevelIter = IndexEntryDecodeIter NormalBlockIter

pub record IndexTreeIter : Type 0 where
  pub reader : InMemoryBlockReader
  pub option : SstOption
  pub tree_height : ℕ
  pub root_position : Position
  pub index_iters : List LevelIter
  pub curr_iter_idx : ℕ

unfoldable pub new : InMemoryBlockReader → SstFooter → SstOption → IndexTreeIter
new reader footer option = record {
  reader = reader;
  option = option;
  tree_height = footer.tree_height;
  root_position = footer.root_index_block_position;
  index_iters = [];
  curr_iter_idx = 0;
}

-- `reset` clears the iterators and nothing else
unfoldable pub reset : IndexTreeIter → IndexTreeIter
reset t = record t { index_iters = [] }

-- the subtraction panics below a height of 2
unfoldable pub last_index_level : IndexTreeIter → Run ℕ
last_index_level t = do assert (leb 2 t.tree_height); ok (t.tree_height - 2)

-- an index block with its iterator moved by `move`
unfoldable pub load : IndexTreeIter → (LevelIter → Run LevelIter) → Position → Run LevelIter
load t move position = do
  block ← read_block t.reader position
  it ← BlockIter.new block
  move (IndexEntryDecode.new it)

unfoldable pub push_iter : IndexTreeIter → LevelIter → IndexTreeIter
push_iter t it = record t { index_iters = t.index_iters ++ it ∷ [] }

-- `Vec::remove` at an index that the vector has
abbrev pub remove {ℓ} : {A : Type ℓ} → List A → ℕ → List A
remove [] i = []
remove (x ∷ xs) zero = xs
remove (x ∷ xs) (suc i) = x ∷ remove xs i

-- `ok_or_else` on the value of an entry
abbrev pub position_or_err : Option Bytes → Run Position
position_or_err none = err invalid_value
position_or_err (some v) = position_of v

-- a root that is behind every key is "not found"; an empty block below is an error
unfoldable pub not_found : IndexTreeIter → Run IndexTreeIter
not_found t = if t.curr_iter_idx == 0 then ok t else err invalid_value

module _ (raw : Iter NormalBlockIter Bytes) where
  abbrev pub entries : Iter LevelIter Bytes
  entries = index_entries raw

  -- the child of the current entry of a level, moved by `move`
  unfoldable pub load_child :
      IndexTreeIter → (LevelIter → Run LevelIter) → LevelIter → Run LevelIter
  load_child t move it = do v ← entries.value it; position ← position_or_err v; load t move position

  -- the loop of `locate` and of the two seeks to an end; `stuck` is what it does where a level
  -- has no current entry
  unfoldable pub descend :
      ℕ
      → (LevelIter → Run LevelIter)
      → (IndexTreeIter → Run IndexTreeIter)
      → IndexTreeIter
      → Run IndexTreeIter
  descend zero move stuck t = no_fuel
  descend (suc fuel) move stuck t = do
    last ← last_index_level t
    elim (ltb t.curr_iter_idx last) [
      | false ↦ ok t
      | true ↦ do
        it ← unwrap (get_elem? t.index_iters t.curr_iter_idx)
        elim (entries.valid it) [
          | false ↦ stuck t
          | true ↦ do
            child ← load_child t move it
            descend fuel move stuck
                (record (push_iter t child) { curr_iter_idx = t.curr_iter_idx + 1 })
        ]
    ]

  -- the three descents: nothing without an index, and otherwise from the root
  unfoldable pub from_root :
      (LevelIter → Run LevelIter)
      → (IndexTreeIter → Run IndexTreeIter)
      → IndexTreeIter
      → Run IndexTreeIter
  from_root move stuck t = elim (leb t.tree_height 1) [
    | true ↦ ok t
    | false ↦ do
      let t = reset t
      root ← load t move t.root_position
      descend t.tree_height move stuck (push_iter t root)
  ]

  -- `seek_lower_bound` looks for the lower bound in both directions
  unfoldable pub locate : IndexTreeIter → Bytes → Run IndexTreeIter
  locate t target = from_root (λ it. (index_entries block_forward).seek it target) not_found t

  -- `inner_seek_to_first` and `inner_seek_to_last`
  unfoldable pub seek_to_first : IndexTreeIter → Run IndexTreeIter
  seek_to_first t = from_root entries.seek_to_first (λ u. err invalid_value) t

  unfoldable pub valid : IndexTreeIter → Bool
  valid t = elim (get_elem? t.index_iters t.curr_iter_idx) [
    | none ↦ false
    | some it ↦ entries.valid it
  ]

  unfoldable pub key : IndexTreeIter → Run (Option Bytes)
  key t = elim (valid t) [
    | false ↦ ok none
    | true ↦ do it ← unwrap (get_elem? t.index_iters t.curr_iter_idx); entries.key it
  ]

  unfoldable pub value : IndexTreeIter → Run (Option Position)
  value t = elim (valid t) [
    | false ↦ ok none
    | true ↦ do
      it ← unwrap (get_elem? t.index_iters t.curr_iter_idx)
      v ← entries.value it
      elim v [ none ↦ ok none | some b ↦ do position ← position_of b; ok (some position) ]
  ]

  -- phase 1 of `inner_next` and `inner_prev`: the tree, and whether the root is exhausted
  unfoldable pub climb : ℕ → IndexTreeIter → Run (IndexTreeIter × Bool)
  climb zero t = no_fuel
  climb (suc fuel) t = do
    it ← unwrap (get_elem? t.index_iters t.curr_iter_idx)
    it ← entries.next it
    elim (entries.valid it) [
      | true ↦ ok (record t { index_iters = set t.index_iters t.curr_iter_idx it }, false)
      | false ↦
          (let t = record t { index_iters = remove t.index_iters t.curr_iter_idx } in
            elim (t.curr_iter_idx == 0) [
              | true ↦ ok (t, true)
              | false ↦ climb fuel (record t { curr_iter_idx = t.curr_iter_idx - 1 })
            ])
    ]

  -- phase 2: down again, through the first entries; an empty block is an error
  unfoldable pub redescend : ℕ → ℕ → IndexTreeIter → Run IndexTreeIter
  redescend zero last t = no_fuel
  redescend (suc fuel) last t = elim (ltb t.curr_iter_idx last) [
    | false ↦ ok t
    | true ↦ do
      it ← unwrap (get_elem? t.index_iters t.curr_iter_idx)
      child ← load_child t entries.seek_to_first it
      elim (entries.valid child) [
        | false ↦ err invalid_value
        | true ↦
            redescend fuel last (record (push_iter t child) { curr_iter_idx = t.curr_iter_idx + 1 })
      ]
  ]

  -- `inner_next` and `inner_prev`
  unfoldable pub next : IndexTreeIter → Run IndexTreeIter
  next t = do
    last ← last_index_level t
    elim (is_empty t.index_iters) [
      | true ↦ ok t
      | false ↦ do
        r ← climb (t.curr_iter_idx + 1) t
        elim r.1 [ true ↦ ok r.0 | false ↦ redescend t.tree_height last r.0 ]
    ]

-- `ReverseIter::seek`: behind every key it is the last entry
unfoldable pub reverse_seek : Iter NormalBlockIter Bytes → IndexTreeIter → Bytes → Run IndexTreeIter
reverse_seek raw t target = do
  t ← locate raw t target
  elim (valid raw t) [ true ↦ ok t | false ↦ seek_to_first raw t ]
