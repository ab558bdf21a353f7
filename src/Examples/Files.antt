-- ===== src/Examples/Files.antt =====
-- A block of four bytes behind another one.
use todb.Prelude.{◌≡◌, ◌++◌, refl, ok, [], ◌∷◌}
use todb.Builder.IndexBlock.{Position}
use todb.Block.{DefaultSstWriter, sst_write_block, read_block}
use todb.Block.Written.{IsAtEnd, sst_write_block-read_block}

abbrev writer : DefaultSstWriter
writer = record {
  inner = record { buf = 1 ∷ 2 ∷ 3 ∷ 4 ∷ []; next_offset = 4 };
  option = record { block_size = 4 };
}

sst_write_block-read_block_example :
    (p : Position) × (after : DefaultSstWriter) × (sst_write_block writer (5 ∷ 6 ∷ 7 ∷ 8 ∷ [])
      ≡ ok (p, after))
    × IsAtEnd after.inner
    × (read_block (record { buf = after.inner.buf ++ (9 ∷ []); block_size = 4 }) p
        ≡ ok (5 ∷ 6 ∷ 7 ∷ 8 ∷ []))
sst_write_block-read_block_example =
    sst_write_block-read_block writer (5 ∷ 6 ∷ 7 ∷ 8 ∷ []) (9 ∷ []) refl refl
