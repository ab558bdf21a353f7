-- ===== src/Lsm/Disk.antt =====
-- crates/storage/src/disk_manager.rs: `DiskManager`, with the directory as a function from the ids
-- of the files to their bytes. System calls are taken to succeed, but for opening a file that is
-- not there.
pub mod Tail
use todb.Prelude.{
  ℕ, ◌+◌, ◌-◌, ◌%◌, ◌^◌, Option, none, some, Run, ok, err, not_found, invalid_value, ◌>>=◌, length,
  if◌then◌else◌, ltb, ◌==◌,
}
use todb.Bytes.{Bytes, slice, slice_from, from_be}
use todb.Builder.Footer.{SstFooter, decode}
use todb.Block.{InMemoryBlockReader}

pub record DiskManager : Type 0 where
  pub block_size : ℕ
  pub next_sst_id : ℕ
  pub files : ℕ → Option Bytes

-- over a directory with these files; the ids start at 1 whatever it holds
unfoldable pub new : ℕ → (ℕ → Option Bytes) → DiskManager
new block_size files = record { block_size = block_size; next_sst_id = 1; files = files }

-- `create_sst`: the id of the new file; `fetch_add` wraps
unfoldable pub create_sst : DiskManager → ℕ × DiskManager
create_sst d = (d.next_sst_id, record d { next_sst_id = (d.next_sst_id + 1) % 2 ^ 64 })

-- the directory after a file was written, in place of any of its name
unfoldable pub store_file : DiskManager → ℕ → Bytes → DiskManager
store_file d id bytes = record d { files = λ i. if i == id then some bytes else d.files i }

pub record SstFileReader : Type 0 where
  pub reader : InMemoryBlockReader
  pub footer : SstFooter

-- the footer from the tail of a file: its length stands in the last four bytes
unfoldable pub read_footer : Bytes → Run SstFooter
read_footer file = if ltb (length file) 4 then err invalid_value else do
  trailer ← slice file (length file - 4) (length file)
  let footer_total = from_be trailer + 4
  (if ltb (length file) footer_total
      then err invalid_value
      else (do b ← slice_from file (length file - footer_total); decode b))

-- `open`
unfoldable pub open_sst : DiskManager → ℕ → Run SstFileReader
open_sst d id = elim (d.files id) [
  | none ↦ err not_found
  | some file ↦ do
    footer ← read_footer file
    ok (record { reader = record { buf = file; block_size = d.block_size }; footer = footer })
]

-- `remove`: a file that is not there is no error
unfoldable pub remove : DiskManager → ℕ → DiskManager
remove d id = record d { files = λ i. if i == id then none else d.files i }
