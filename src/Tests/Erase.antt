-- ===== src/Tests/Erase.antt =====
-- A container of one block, whose application leaves the sector at 8192 alone.
use mcu_updater.Base.{ℕ, ◌+◌, ◌*◌, ◌<◌, ◌≡◌, refl, List, [], ◌∷◌, ◌++◌, length, get_or, arith}
use mcu_updater.Base.Bytes.{Bytes, word, le32, pack32}
use mcu_updater.Base.Result.{ok, err}
use mcu_updater.Uf2.Container.{block_size}
use mcu_updater.Uf2.Image.{extract_image}
use mcu_updater.Erase.Defs.{
  EraseBlock, overlaps, sector_size, chunk, blocks, blocks_from, read_block, is_main, main_blocks,
  touches, refuse_overlap, erased_pages, insert, sort, ordered, pack_block, pack_from, erase_main,
  with_erased_sector,
}
use mcu_updater.Erase.Sector.{extract_image-with_erased_sector}
use mcu_updater.Erase.Order.{IsSorted, with_erased_sector-blocks}
use mcu_updater.Erase.Numbers.{with_erased_sector-IsNumbered}
use mathlib.Core.List.{Perm}

abbrev app : EraseBlock
app = record { flags = 0x2000; target = 12288; payload = 1 ∷ 2 ∷ []; family = 7 }

abbrev file : Bytes
file = chunk 0 1 app

file_overlaps : with_erased_sector file 12288 ≡ err (overlaps 12288)
unfolding with_erased_sector blocks blocks_from read_block word le32 chunk pack32 main_blocks
    is_main erase_main refuse_overlap touches
file_overlaps = refl

abbrev out : Bytes
out = elim (with_erased_sector file 8192) [ ok bytes ↦ bytes | err _ ↦ [] ]

file_written : with_erased_sector file 8192 ≡ ok out
unfolding with_erased_sector blocks blocks_from read_block word le32 chunk pack32 main_blocks
    is_main erase_main refuse_overlap touches ordered sort insert erased_pages pack_from pack_block
file_written = refl

written_size : length out ≡ 17 * block_size
unfolding with_erased_sector blocks blocks_from read_block word le32 chunk pack32 main_blocks
    is_main erase_main refuse_overlap touches ordered sort insert erased_pages pack_from pack_block
written_size = refl

extract_image-with_erased_sector_example :
    (img : Bytes) × (extract_image out 8192 sector_size ≡ ok img)
    × (length img ≡ sector_size)
    × ((i : ℕ) → i < sector_size → get_or img i 0 ≡ 0xff)
extract_image-with_erased_sector_example =
    extract_image-with_erased_sector file 8192 out file_written

with_erased_sector-blocks_example :
    (bs : List EraseBlock) × (first : EraseBlock) × (others : List EraseBlock) × (written : List
      EraseBlock)
    × (blocks file ≡ ok bs)
    × (main_blocks bs ≡ first ∷ others)
    × (blocks out ≡ ok written)
    × Perm written (bs ++ erased_pages 16 8192 first.flags first.family)
    × IsSorted written
    × (length out ≡ (length bs + 16) * block_size)
with_erased_sector-blocks_example = with_erased_sector-blocks file 8192 out file_written

with_erased_sector-IsNumbered_example :
    (word out (block_size * 5 + 20) ≡ 5)
    × (word out (block_size * 5 + 24) * block_size ≡ length out)
with_erased_sector-IsNumbered_example =
    with_erased_sector-IsNumbered file 8192 out 5 file_written (omega (arith, written_size))
