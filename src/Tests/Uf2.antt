-- ===== src/Tests/Uf2.antt =====
-- A container of two blocks for src/mcu_updater/uf2.py: the second overlaps the first.
use mcu_updater.Base.{
  ℕ, ◌+◌, ◌-◌, ◌≤◌, ◌<◌, ◌≡◌, ◌≢◌, refl, none, some, ◌⊎◌, List, [], ◌∷◌, ◌++◌, length, get_or,
  arith,
}
use mcu_updater.Base.Text.{codes, strip, lstrip, rstrip, is_space, lower, text_eq}
use mcu_updater.Base.Bytes.{Bytes, word, le32, pack32}
use mcu_updater.Base.Result.{ok, err}
use mcu_updater.Uf2.Container.{Block, uncovered, blocks, blocks_from, read_block, is_main}
use mcu_updater.Uf2.Image.{
  extract_image, image_extent, place_blocks, place_bytes, place_byte, first_gap, spans, span_extent,
  lowest, highest,
}
use mcu_updater.Uf2.Digest.{
  DigestFields, digest_crc32_iso_hdlc, crc32_iso_hdlc, digest_fields, describe, linked_length,
  image_digest, algorithm_id,
}
use mcu_updater.Uf2.Extraction.{
  byte_at, extract_image-byte_at, extract_image_total, extract_image_gap,
}
use mcu_updater.Uf2.Extent.{image_extent-IsTight}
use mcu_updater.Uf2.Provenance.{digest_fields-image, digest_fields_foreign_bin}
use mcu_updater.Erase.Defs.{chunk}

crc_check : crc32_iso_hdlc (codes "123456789") ≡ 0xCBF43926
unfolding crc32_iso_hdlc
crc_check = refl

spelled_otherwise : algorithm_id (some (codes " CRC32-ISO-HDLC\n")) ≡ some digest_crc32_iso_hdlc
unfolding algorithm_id strip lstrip rstrip is_space lower text_eq
spelled_otherwise = refl

abbrev packed : ℕ → Bytes → Bytes
packed target payload =
    chunk 0 2 (record { flags = 0; target = target; payload = payload; family = 0 })

abbrev file : Bytes
file = packed 100 (1 ∷ 2 ∷ 3 ∷ []) ++ packed 102 (9 ∷ 8 ∷ [])

abbrev file_blocks : List Block
file_blocks =
    record { offset = 0; flags = 0; target = 100; payload_size = 3 }
    ∷ record { offset = 512; flags = 0; target = 102; payload_size = 2 }
    ∷ []

abbrev image : Bytes
image = 1 ∷ 2 ∷ 9 ∷ 8 ∷ []

file_read : blocks file ≡ ok file_blocks
unfolding blocks blocks_from read_block word le32 chunk pack32
file_read = refl

file_image : extract_image file 100 4 ≡ ok image
unfolding extract_image blocks blocks_from read_block word le32 chunk pack32 place_blocks
    place_bytes place_byte is_main first_gap
file_image = refl

file_gap : extract_image file 100 6 ≡ err (uncovered 104)
unfolding extract_image blocks blocks_from read_block word le32 chunk pack32 place_blocks
    place_bytes place_byte is_main first_gap
file_gap = refl

file_extent : image_extent file ≡ ok (100, 4)
unfolding image_extent blocks blocks_from read_block word le32 chunk pack32 spans span_extent lowest
    highest is_main
file_extent = refl

extract_image-byte_at_example :
    (length image ≡ 4)
    × ((i : ℕ) → i < 4 → byte_at file file_blocks (100 + i) ≡ some (get_or image i 0))
extract_image-byte_at_example =
    extract_image-byte_at file 100 4 file_blocks file_read image file_image

file_supplied : (i : ℕ) → i < 4 → byte_at file file_blocks (100 + i) ≢ none
file_supplied i lt e =
    let (_, bytes) = extract_image-byte_at file 100 4 file_blocks file_read image file_image in
    cc (bytes i lt, e)

extract_image_total_example : (img : Bytes) × (extract_image file 100 4 ≡ ok img)
extract_image_total_example =
    extract_image_total file 100 4 file_blocks file_read (omega arith) file_supplied

extract_image_gap_example :
    (100 ≤ 104)
    × (104 < 100 + 6)
    × (byte_at file file_blocks 104 ≡ none)
    × ((a' : ℕ) → 100 ≤ a' → a' < 104 → byte_at file file_blocks a' ≢ none)
extract_image_gap_example = extract_image_gap file 100 6 file_blocks file_read 104 file_gap

image_extent-IsTight_example :
    ((a : ℕ) → byte_at file file_blocks a ≢ none → (100 ≤ a) × (a < 100 + 4))
    × (0 < 4)
    × (byte_at file file_blocks 100 ≢ none)
    × (byte_at file file_blocks (100 + 4 - 1) ≢ none)
image_extent-IsTight_example = image_extent-IsTight file file_blocks 100 4 file_read file_extent

abbrev fields : DigestFields
fields = record { digest_algorithm = 1; digest = 1164271468; image_start = 100; image_length = 4 }

file_described : digest_fields (some file) none ≡ some fields
unfolding digest_fields describe linked_length image_digest crc32_iso_hdlc extract_image blocks
    blocks_from read_block word le32 chunk pack32 place_blocks place_bytes place_byte first_gap
    image_extent spans span_extent lowest highest is_main
file_described = refl

digest_fields-image_example :
    (img : Bytes) × (size : ℕ) × (extract_image file 100 4 ≡ ok img)
    × (1164271468 ≡ crc32_iso_hdlc img)
    × (fields.digest_algorithm ≡ digest_crc32_iso_hdlc)
    × (image_extent file ≡ ok (100, size))
    × (4 ≤ size)
    × ((4 ≡ size) ⊎ (none ≡ some img))
digest_fields-image_example = digest_fields-image file none fields file_described

file_byte : extract_image file 100 1 ≡ ok (1 ∷ [])
unfolding extract_image blocks blocks_from read_block word le32 chunk pack32 place_blocks
    place_bytes place_byte is_main first_gap
file_byte = refl

digest_fields_foreign_bin_example : digest_fields (some file) (some (7 ∷ [])) ≡ some fields
digest_fields_foreign_bin_example =
    digest_fields_foreign_bin file (7 ∷ []) 100 4 fields file_extent (λ h. cc (file_byte, h))
      file_described
