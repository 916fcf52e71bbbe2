-- ===== src/Uf2/Digest.antt =====
-- `crc32_iso_hdlc`, `image_digest`, `_linked_length` and `digest_fields` of src/mcu_updater/uf2.py.
-- A file that cannot be read, or that is not there, is `none`.
use Prim.Native.Nat.{bit_xor}
use mcu_updater.Base.{
  ℕ, ◌/◌, ◌%◌, ◌^◌, not, ◌||◌, Option, none, some, [], ◌∷◌, length, ltb, ◌==◌, if◌then◌else◌,
}
use mcu_updater.Base.Text.{Text, codes, text_eq, strip, lower}
use mcu_updater.Base.Bytes.{Bytes}
use mcu_updater.Base.Result.{Result, ok, err, ◌>>=◌}
use mcu_updater.Uf2.Container.{Uf2Error, unsupported_algorithm}
use mcu_updater.Uf2.Image.{extract_image, image_extent}

abbrev pub digest_crc32_iso_hdlc : ℕ
digest_crc32_iso_hdlc = 1

-- one bit of the reflected polynomial division
unfoldable pub crc_bit : ℕ → ℕ
crc_bit c = if c % 2 == 1 then bit_xor (c / 2) 0xEDB88320 else c / 2

unfoldable pub crc_byte : ℕ → ℕ → ℕ
unfolding crc_bit
crc_byte c byte =
    crc_bit (crc_bit (crc_bit (crc_bit (crc_bit (crc_bit (crc_bit (crc_bit (bit_xor c byte))))))))

unfoldable pub crc_bytes : ℕ → Bytes → ℕ
unfolding crc_byte
crc_bytes c [] = c
crc_bytes c (byte ∷ bs) = crc_bytes (crc_byte c byte) bs

-- binascii.crc32(data) & 0xFFFFFFFF
unfoldable pub crc32_iso_hdlc : Bytes → ℕ
unfolding crc_bytes
crc32_iso_hdlc bs = bit_xor (crc_bytes 0xFFFFFFFF bs) 0xFFFFFFFF % 2 ^ 32

unfoldable pub image_digest : Bytes → ℕ → ℕ → ℕ → Result Uf2Error ℕ
image_digest uf2 start size algorithm =
    if not (algorithm == digest_crc32_iso_hdlc)
    then err (unsupported_algorithm algorithm)
    else do img ← extract_image uf2 start size; ok (crc32_iso_hdlc img)

-- `_linked_length`: the raw image is believed only where the container has its bytes
unfoldable pub linked_length : Bytes → ℕ → ℕ → Option Bytes → Result Uf2Error ℕ
linked_length uf2 start size none = ok size
linked_length uf2 start size (some linked) =
    if length linked == 0 || ltb size (length linked) then ok size else do
      img ← extract_image uf2 start (length linked)
      ok (if not (text_eq img linked) then size else length linked)

pub record DigestFields : Type 0 where
  pub digest_algorithm : ℕ
  pub digest : ℕ
  pub image_start : ℕ
  pub image_length : ℕ

-- the body of the `try`
unfoldable pub describe : Bytes → Option Bytes → Result Uf2Error DigestFields
describe uf2 bin = do
  extent ← image_extent uf2
  size ← linked_length uf2 extent.0 extent.1 bin
  digest ← image_digest uf2 extent.0 size digest_crc32_iso_hdlc
  ok (record {
    digest_algorithm = digest_crc32_iso_hdlc;
    digest = digest;
    image_start = extent.0;
    image_length = size;
  })

abbrev pub or_nothing {ℓ} : {E A : Type ℓ} → Result E A → Option A
or_nothing (ok a) = some a
or_nothing (err e) = none

-- `digest_fields(path, bin_path)`: `none` is the empty dict
unfoldable pub digest_fields : Option Bytes → Option Bytes → Option DigestFields
digest_fields none bin = none
digest_fields (some uf2) bin = or_nothing (describe uf2 bin)

-- `algorithm_id(name)`; `none` is a name that is no string
unfoldable pub algorithm_id : Option Text → Option ℕ
algorithm_id none = none
algorithm_id (some name) =
    if text_eq (lower (strip name)) (codes "crc32-iso-hdlc")
    then some digest_crc32_iso_hdlc
    else none
