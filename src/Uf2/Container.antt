-- ===== src/Uf2/Container.antt =====
-- `_blocks` of src/mcu_updater/uf2.py: the container's blocks, magic checked.
use mcu_updater.Base.{
  ℕ, zero, suc, ◌+◌, ◌-◌, ◌/◌, ◌%◌, Bool, ◌||◌, not, List, [], ◌∷◌, length, ltb, ◌==◌,
  if◌then◌else◌,
}
use mcu_updater.Base.Bytes.{Bytes, word}
use mcu_updater.Base.Result.{Result, ok, err, ◌>>=◌}

abbrev pub block_size : ℕ
block_size = 512

abbrev pub header_size : ℕ
header_size = 32

abbrev pub max_payload : ℕ
max_payload = block_size - header_size - 4

abbrev pub magic_start0 : ℕ
magic_start0 = 0x0A324655

abbrev pub magic_start1 : ℕ
magic_start1 = 0x9E5D5157

abbrev pub magic_end : ℕ
magic_end = 0x0AB16F30

-- Uf2Error, a constructor for each message
pub data Uf2Error : Type 0 where
  not_container : ℕ → Uf2Error
  bad_magic oversized : ℕ → Uf2Error
  bad_length : Uf2Error
  uncovered : ℕ → Uf2Error
  no_flash_blocks : Uf2Error
  unsupported_algorithm : ℕ → Uf2Error

pub record Block : Type 0 where
  pub offset : ℕ
  pub flags : ℕ
  pub target : ℕ
  pub payload_size : ℕ

-- not flags & UF2_FLAG_NOT_MAIN_FLASH, the lowest bit
unfoldable pub is_main : Block → Bool
is_main b = b.flags % 2 == 0

-- the body of the loop
unfoldable pub read_block : Bytes → ℕ → Result Uf2Error Block
read_block uf2 offset =
    if not (word uf2 offset == magic_start0)
      || not (word uf2 (offset + 4) == magic_start1)
      || not (word uf2 (offset + (block_size - 4)) == magic_end)
    then err (bad_magic offset)
    else if ltb max_payload (word uf2 (offset + 16))
    then err (oversized offset)
    else ok (record {
      offset = offset;
      flags = word uf2 (offset + 8);
      target = word uf2 (offset + 12);
      payload_size = word uf2 (offset + 16);
    })

-- `for offset in range(0, len(uf2), UF2_BLOCK_SIZE)`, with the number of rounds left
unfoldable pub blocks_from : ℕ → ℕ → Bytes → Result Uf2Error (List Block)
blocks_from zero offset uf2 = ok []
blocks_from (suc n) offset uf2 = do
  b ← read_block uf2 offset
  bs ← blocks_from n (offset + block_size) uf2
  ok (b ∷ bs)

unfoldable pub blocks : Bytes → Result Uf2Error (List Block)
blocks uf2 =
    if not (length uf2 % block_size == 0) || length uf2 == 0
    then err (not_container (length uf2))
    else blocks_from (length uf2 / block_size) 0 uf2
