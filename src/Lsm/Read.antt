-- ===== src/Lsm/Read.antt =====
-- crates/storage/src/lsm_store.rs: `build_merged_iter` and `scan`. A scan reads through the same
-- merged iterator in both directions, by its forward or its reverse methods. `fuel` bounds the
-- rounds of the loops of the merge and of the scan.
pub mod Memtables
pub mod Sides
pub mod View
use todb.Prelude.{ℕ, Bool, true, false, List, [], ◌∷◌, Run, ok, ◌>>=◌}
use todb.Bytes.{Bytes}
use todb.Builder.DataBlock.{SstOption}
use todb.Iterators.Traits.{Iter}
use todb.Iterators.BlockIter.Scans.{block_forward, block_reverse}
use todb.Iterators.TwoMerge.{TwoMergeIter, two_merge}
use todb.Iterators.TwoMerge
use todb.Iterators.Merge.{MergeIter, Direction, forward_scan, reverse_scan, order_of, merge_iter}
use todb.Iterators.Merge
use todb.Iterators.Concat.{ConcatIter, concat_iter, rev_concat_iter}
use todb.Iterators.Concat
use todb.Iterators.Sst.{SstIter, sst_forward, sst_reverse}
use todb.Iterators.Sst as SstScan
use todb.Iterators.DataEntryDecode.{EntryValue}
use todb.Memtable.SkipList.{SkipMap}
use todb.Memtable.{MemTable, MemTableIter, mem_table_iter, MapIter, map_iter, map_value}
use todb.Memtable
use todb.Lsm.State.{SstMeta, LevelMeta, LsmState}
use todb.Lsm.Disk.{DiskManager, open_sst}
use todb.Lsm.Range.{Bound, LsmScan}
use todb.Lsm.Range

-- the methods of each direction
abbrev pub sst_iter : Direction → Iter SstIter EntryValue
sst_iter forward_scan = sst_forward block_forward
sst_iter reverse_scan = sst_reverse block_reverse

abbrev pub level_iter : Direction → Iter (ConcatIter SstIter) EntryValue
level_iter forward_scan = concat_iter (sst_iter forward_scan)
level_iter reverse_scan = rev_concat_iter (sst_iter reverse_scan)

abbrev pub L0Side : Type 0
L0Side = MergeIter SstIter

abbrev pub LnSide : Type 0
LnSide = MergeIter (ConcatIter SstIter)

abbrev pub SstSide : Type 0
SstSide = TwoMergeIter L0Side LnSide

abbrev pub l0_side : Direction → Iter L0Side EntryValue
l0_side d = merge_iter (sst_iter d) d

abbrev pub ln_side : Direction → Iter LnSide EntryValue
ln_side d = merge_iter (level_iter d) d

abbrev pub sst_side : Direction → ℕ → Iter SstSide EntryValue
sst_side d fuel = two_merge (l0_side d) (ln_side d) (order_of d) fuel

-- an iterator over the file of an SST, and those of a level
unfoldable pub open_iter : DiskManager → SstMeta → Run SstIter
open_iter disk sst = do
  opened ← open_sst disk sst.id
  let opt : SstOption = record { block_size = disk.block_size }
  ok (SstScan.new opened.reader opened.footer opt)

unfoldable pub open_all : DiskManager → List SstMeta → Run (List SstIter)
open_all disk [] = ok []
open_all disk (s ∷ ss) = do x ← open_iter disk s; xs ← open_all disk ss; ok (x ∷ xs)

-- `levels.first()`, and `levels.iter().skip(1)`
unfoldable pub l0_iters : DiskManager → List LevelMeta → Run (List SstIter)
l0_iters disk [] = ok []
l0_iters disk (l ∷ ls) = open_all disk l.ssts

unfoldable pub concat_levels : DiskManager → List LevelMeta → Run (List (ConcatIter SstIter))
concat_levels disk [] = ok []
concat_levels disk (l ∷ ls) = do
  xs ← open_all disk l.ssts
  rest ← concat_levels disk ls
  ok (Concat.new (sst_iter forward_scan) xs ∷ rest)

unfoldable pub ln_iters : DiskManager → List LevelMeta → Run (List (ConcatIter SstIter))
ln_iters disk [] = ok []
ln_iters disk (l ∷ ls) = concat_levels disk ls

-- the bounds at which a scan begins and ends
abbrev pub start_of : Direction → Bound → Bound → Bound
start_of forward_scan lower upper = lower
start_of reverse_scan lower upper = upper

abbrev pub stop_of : Direction → Bound → Bound → Bound
stop_of forward_scan lower upper = upper
stop_of reverse_scan lower upper = lower

abbrev pub direction_of : Bool → Direction
direction_of true = reverse_scan
direction_of false = forward_scan

module _ {M : Type 0} (sm : SkipMap M) where
  -- the memtable side
  abbrev pub mem_rows : Direction → Iter (MapIter (MemTableIter M)) EntryValue
  mem_rows d = map_iter (mem_table_iter sm d) map_value

  abbrev pub MemSide : Type 0
  MemSide = MergeIter (MapIter (MemTableIter M))

  abbrev pub mem_side : Direction → Iter MemSide EntryValue
  mem_side d = merge_iter (mem_rows d) d

  unfoldable pub mem_iters : List (MemTable M) → List (MapIter (MemTableIter M))
  mem_iters [] = []
  mem_iters (t ∷ ts) = record { inner = Memtable.iter sm t } ∷ mem_iters ts

  abbrev pub MergedIter : Type 0
  MergedIter = TwoMergeIter MemSide SstSide

  abbrev pub merged_iter : Direction → ℕ → Iter MergedIter EntryValue
  merged_iter d fuel = two_merge (mem_side d) (sst_side d fuel) (order_of d) fuel

  module _ (fuel : ℕ) where
    unfoldable pub build_merged_iter : DiskManager → LsmState M → Run MergedIter
    build_merged_iter disk st = do
      let mems = mem_iters (st.active_mem ∷ st.imm_memtables)
      l0 ← l0_iters disk st.levels
      ln ← ln_iters disk st.levels
      sst_merge ←
          TwoMerge.new (l0_side forward_scan) (ln_side forward_scan) (order_of forward_scan) fuel
            (Merge.new l0) (Merge.new ln)
      TwoMerge.new (mem_side forward_scan) (sst_side forward_scan fuel) (order_of forward_scan) fuel
          (Merge.new mems) sst_merge

    -- the scan after `init`
    unfoldable pub scan : DiskManager → LsmState M → Bound → Bound → Bool → Run (LsmScan MergedIter)
    scan disk st lower upper reverse = do
      merged ← build_merged_iter disk st
      let d = direction_of reverse
      Range.init (merged_iter d fuel) (order_of d) fuel (
          Range.new (merged_iter d fuel) (order_of d) merged (start_of d lower upper)
            (stop_of d lower upper))
