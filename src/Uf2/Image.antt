-- ===== src/Uf2/Image.antt =====
-- `extract_image` and `image_extent` of src/mcu_updater/uf2.py.
use mathlib.Core.Option
use mcu_updater.Base.{
  ℕ, zero, suc, ◌+◌, ◌-◌, ◌&&◌, not, Option, none, some, List, [], ◌∷◌, get_or, set, replicate, leb,
  ltb, min, max, ◌==◌, if◌then◌else◌,
}
use mcu_updater.Base.Bytes.{Bytes}
use mcu_updater.Base.Result.{Result, ok, err, ◌>>=◌}
use mcu_updater.Uf2.Container.{
  Uf2Error, bad_length, uncovered, no_flash_blocks, Block, is_main, blocks, header_size,
}

-- the two byte arrays that the loop fills
pub record Canvas : Type 0 where
  pub image : Bytes
  pub covered : Bytes

abbrev pub blank : ℕ → Canvas
blank size = record { image = replicate size 0; covered = replicate size 0 }

-- uf2[offset + UF2_HEADER_SIZE + index]
abbrev pub payload_byte : Bytes → Block → ℕ → ℕ
payload_byte uf2 b index = get_or uf2 (b.offset + header_size + index) 0

-- one round of the inner loop; `slot` is `target + index - start`
unfoldable pub place_byte : Bytes → Block → ℕ → ℕ → ℕ → Canvas → Canvas
place_byte uf2 b start size index c =
    let slot = b.target + index - start in
    if leb start (b.target + index) && ltb (b.target + index) (start + size)
    then record {
      image = set c.image slot (payload_byte uf2 b index);
      covered = set c.covered slot 1;
    }
    else c

-- `for index in range(payload_size)`, with the rounds left and the index
unfoldable pub place_bytes : Bytes → Block → ℕ → ℕ → ℕ → ℕ → Canvas → Canvas
place_bytes uf2 b start size zero index c = c
place_bytes uf2 b start size (suc n) index c =
    place_bytes uf2 b start size n (suc index) (place_byte uf2 b start size index c)

-- the loop over the blocks
unfoldable pub place_blocks : Bytes → List Block → ℕ → ℕ → Canvas → Canvas
place_blocks uf2 [] start size c = c
place_blocks uf2 (b ∷ bs) start size c =
    place_blocks uf2 bs start size
      (if not (is_main b) then c else place_bytes uf2 b start size b.payload_size 0 c)

-- covered.index(0)
unfoldable pub first_gap : Bytes → Option ℕ
first_gap [] = none
first_gap (zero ∷ cs) = some 0
first_gap (suc _ ∷ cs) = Option.map suc (first_gap cs)

abbrev pub read_canvas : ℕ → Canvas → Result Uf2Error Bytes
read_canvas start c = elim (first_gap c.covered) [
  | none ↦ ok c.image
  | some missing ↦ err (uncovered (start + missing))
]

unfoldable pub extract_image : Bytes → ℕ → ℕ → Result Uf2Error Bytes
extract_image uf2 start size =
    if size == 0
    then err bad_length
    else do bs ← blocks uf2; read_canvas start (place_blocks uf2 bs start size (blank size))

-- the list `spans`
unfoldable pub spans : List Block → List (ℕ × ℕ)
spans [] = []
spans (b ∷ bs) =
    let rest = spans bs in
    if is_main b && not (b.payload_size == 0)
    then (b.target, b.target + b.payload_size) ∷ rest
    else rest

-- min(span[0] for span in spans) and max(span[1] for span in spans), of a list that is not empty
unfoldable pub lowest : ℕ → List (ℕ × ℕ) → ℕ
lowest m [] = m
lowest m (s ∷ ss) = lowest (min m s.0) ss

unfoldable pub highest : ℕ → List (ℕ × ℕ) → ℕ
highest m [] = m
highest m (s ∷ ss) = highest (max m s.1) ss

-- `image_extent` from `if not spans` on
unfoldable pub span_extent : List (ℕ × ℕ) → Result Uf2Error (ℕ × ℕ)
span_extent [] = err no_flash_blocks
span_extent (s ∷ ss) = ok (lowest s.0 ss, highest s.1 ss - lowest s.0 ss)

unfoldable pub image_extent : Bytes → Result Uf2Error (ℕ × ℕ)
image_extent uf2 = do bs ← blocks uf2; span_extent (spans bs)
