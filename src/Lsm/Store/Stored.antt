-- ===== src/Lsm/Store/Stored.antt =====
-- The SSTs of a store and their files.
use todb.Prelude.{suc, ◌^◌, ◌<◌, ◌≡◌, List, [], ◌∷◌, some, ok, length}
use todb.Bytes.{Bytes}
use todb.Block
use todb.Block.{DefaultSstWriter}
use todb.Builder.Footer.{SstFooter}
use todb.Builder.Footer.RoundTrip.{FitsFooter}
use todb.Builder.DataBlock.{SstOption}
use todb.Builder.Sst.{SstBuilder}
use todb.Builder.Sst
use todb.Memtable.SkipList.{SkipMap, Laws}
use todb.Memtable.{MemTable}
use todb.Lsm.State.{SstMeta, LevelMeta}
use todb.Lsm.Disk.{DiskManager, read_footer, create_sst, store_file}
use todb.Lsm.Store.{add_items}

-- The file of an SST is there, with the size of its metadata, and opens, and its footer has the key
-- range of the metadata; its id is not given again.
pub record IsStored (disk : DiskManager) (sst : SstMeta) : Type 0 where
  pub file : Bytes
  pub footer : SstFooter
  pub given : sst.id < disk.next_sst_id
  pub there : disk.files sst.id ≡ some file
  pub opens : read_footer file ≡ ok footer
  pub range : sst.key_range ≡ (footer.first_key, footer.last_key)
  pub size : sst.file_size ≡ length file

abbrev pub AllStored : DiskManager → List SstMeta → Type 0
AllStored disk [] = Unit
AllStored disk (s ∷ ss) = IsStored disk s × AllStored disk ss

abbrev pub LevelsStored : DiskManager → List LevelMeta → Type 0
LevelsStored disk [] = Unit
LevelsStored disk (l ∷ ls) = AllStored disk l.ssts × LevelsStored disk ls

-- the builder after the entries of a memtable
abbrev pub start_builder : DiskManager → SstBuilder
start_builder disk =
    let opt : SstOption = record { block_size = disk.block_size } in
    Sst.new (record { inner = Block.new; option = opt }) opt

module _ (disk : DiskManager) (room : suc disk.next_sst_id < 2 ^ 64) (file : Bytes) where
  abbrev after : DiskManager
  after = store_file (create_sst disk).1 disk.next_sst_id file

module _ {M : Type 0} (sm : SkipMap M) (laws : Laws sm) (disk : DiskManager) (oldest : MemTable M)
    (room : suc disk.next_sst_id < 2 ^ 64)
    (fits : (b : SstBuilder) (f : SstFooter) (w : DefaultSstWriter)
      → add_items (start_builder disk) (laws.entries oldest.map) ≡ ok b
      → Sst.finish b ≡ ok (f, w)
      → FitsFooter f) where
  -- what a build leaves on the disk
  record Built (sst : SstMeta) (then_disk : DiskManager) : Type 0 where
    file : Bytes
    stored : IsStored then_disk sst
    disk_after : after disk room file ≡ then_disk
