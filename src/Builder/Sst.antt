-- ===== src/Builder/Sst.antt =====
-- crates/storage/src/builder/sst.rs: `SstBuilder`, over the SST writer of Block.antt.
--
-- `add_index_entry` and `flush_index_block` call each other with the next level, so the first takes
-- fuel for the levels and hands itself to the second; its callers give it one round for each level
-- that there is and two more.
pub mod Levels
use mathlib.Core.Option
use todb.Prelude.{
  ℕ, zero, suc, ◌+◌, ◌-◌, ◌%◌, ◌^◌, Bool, true, false, List, [], ◌∷◌, ◌++◌, length, get_elem?, set,
  get_last?, is_empty, Option, none, some, Run, ok, no_fuel, unwrap, ◌>>=◌, if◌then◌else◌, leb, ltb,
}
use todb.Bytes.{Bytes}
use todb.Builder.DataBlock.{SstOption, DataBlockBuilder}
use todb.Builder.DataBlock
use todb.Builder.IndexBlock.{Position, IndexEntry, IndexBlockBuilder, last_entry}
use todb.Builder.IndexBlock
use todb.Builder.Footer.{SstFooter}
use todb.Block.{DefaultSstWriter, sst_write_block, sst_write_footer}

pub record SstBuilder : Type 0 where
  pub writer : DefaultSstWriter
  pub data_builder : DataBlockBuilder
  pub index_builders : List IndexBlockBuilder
  pub option : SstOption
  pub first_key : Option Bytes
  pub last_key : Option Bytes

unfoldable pub new : DefaultSstWriter → SstOption → SstBuilder
new writer option = record {
  writer = writer;
  data_builder = DataBlock.new option;
  index_builders = [];
  option = option;
  first_key = none;
  last_key = none;
}

-- `unwrap_or_default`
abbrev pub or_empty : Option Bytes → Bytes
or_empty none = []
or_empty (some b) = b

-- the first lines of `add` and `add_delete`
unfoldable pub see_key : SstBuilder → Bytes → SstBuilder
see_key b key = record b {
  first_key = elim b.first_key [ none ↦ some key | some k ↦ some k ];
  last_key = some key;
}

-- `rec` is `add_index_entry`
unfoldable pub flush_index_block :
    (ℕ → Bytes → Position → SstBuilder → Run SstBuilder) → ℕ → SstBuilder → Run SstBuilder
flush_index_block rec level b = do
  builder ← unwrap (get_elem? b.index_builders level)
  elim (is_empty builder.entries) [
    | true ↦ ok b
    | false ↦ do
      let end_key = or_empty (Option.map (λ (e : IndexEntry). e.end_key) (last_entry builder))
      written ← sst_write_block b.writer (IndexBlock.finish builder).0
      rec (level + 1) end_key written.0 (record b {
        writer = written.1;
        index_builders = set b.index_builders level (IndexBlock.finish builder).1;
      })
  ]

-- the levels, with one more where `level` is not there yet
unfoldable pub grown : ℕ → SstBuilder → SstBuilder
grown level b =
    if leb (length b.index_builders) level
    then record b { index_builders = b.index_builders ++ IndexBlock.new b.option ∷ [] }
    else b

-- the last lines of `add_index_entry`
unfoldable pub push_index_entry : ℕ → Bytes → Position → SstBuilder → Run SstBuilder
push_index_entry level end_key position b = do
  builder ← unwrap (get_elem? b.index_builders level)
  builder ← IndexBlock.add builder end_key position
  ok (record b { index_builders = set b.index_builders level builder })

unfoldable pub add_index_entry : ℕ → ℕ → Bytes → Position → SstBuilder → Run SstBuilder
add_index_entry zero level end_key position b = no_fuel
add_index_entry (suc fuel) level end_key position b = do
  let b = grown level b
  builder ← unwrap (get_elem? b.index_builders level)
  b ← elim (IndexBlock.would_exceed builder end_key position) [
    | false ↦ ok b
    | true ↦ flush_index_block (add_index_entry fuel) level b
  ]
  push_index_entry level end_key position b

-- fuel for the levels of a builder
abbrev pub levels_fuel : SstBuilder → ℕ
levels_fuel b = length b.index_builders + 2

unfoldable pub flush_data_block : SstBuilder → Run SstBuilder
flush_data_block b = elim (is_empty b.data_builder.entries) [
  | true ↦ ok b
  | false ↦ do
    let end_key = or_empty (DataBlock.last_key b.data_builder)
    written ← sst_write_block b.writer (DataBlock.finish b.data_builder).0
    add_index_entry (levels_fuel b) 0 end_key written.0
        (record b { writer = written.1; data_builder = (DataBlock.finish b.data_builder).1 })
]

-- `flush_data_block` where the entry would not fit
unfoldable pub make_room : SstBuilder → Bytes → Bytes → Run SstBuilder
make_room b key value = elim (DataBlock.would_exceed b.data_builder key value) [
  | false ↦ ok b
  | true ↦ flush_data_block b
]

unfoldable pub add : SstBuilder → Bytes → Bytes → Run SstBuilder
add b key value = do
  b ← make_room (see_key b key) key value
  d ← DataBlock.add b.data_builder key value
  ok (record b { data_builder = d })

unfoldable pub add_delete : SstBuilder → Bytes → Run SstBuilder
add_delete b key = do
  b ← make_room (see_key b key) key []
  d ← DataBlock.add_delete b.data_builder key
  ok (record b { data_builder = d })

-- `flush_index_block` from the outside
unfoldable pub flush_level : ℕ → SstBuilder → Run SstBuilder
flush_level level b = flush_index_block (add_index_entry (levels_fuel b)) level b

-- the loop of `finish` over `left` levels from `level` on; an empty one is left alone in
-- `flush_index_block` too
unfoldable pub flush_levels : ℕ → ℕ → SstBuilder → Run SstBuilder
flush_levels zero level b = ok b
flush_levels (suc left) level b = do b ← flush_level level b; flush_levels left (level + 1) b

-- whether the topmost level has several entries, which then have no parent
unfoldable pub top_is_wide : SstBuilder → Bool
top_is_wide b = elim (get_last? b.index_builders) [
  | none ↦ false
  | some t ↦ ltb 1 (length t.entries)
]

unfoldable pub flush_top : SstBuilder → Run SstBuilder
flush_top b = elim (top_is_wide b) [
  | false ↦ ok b
  | true ↦ flush_level (length b.index_builders - 1) b
]

-- `root_position`: the child of the last entry of the topmost level
unfoldable pub root_position : SstBuilder → Position
root_position b = elim (get_last? b.index_builders) [
  | none ↦ record { offset = 0 }
  | some t ↦ elim (last_entry t) [ none ↦ record { offset = 0 } | some e ↦ e.child ]
]

unfoldable pub footer_of : SstBuilder → SstFooter
footer_of b = record {
  root_index_block_position = root_position b;
  tree_height = length b.index_builders % 2 ^ 32;
  first_key = or_empty b.first_key;
  last_key = or_empty b.last_key;
}

unfoldable pub finish : SstBuilder → Run (SstFooter × DefaultSstWriter)
finish b = do
  b ← flush_data_block b
  b ← flush_levels (length b.index_builders) 0 b
  b ← flush_top b
  ok (footer_of b, (sst_write_footer b.writer (footer_of b)).1)
