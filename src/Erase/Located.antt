-- ===== src/Erase/Located.antt =====
-- The blocks that are written, as the reader of src/mcu_updater/uf2.py sees them.
use mathlib.Core.Path.{subst, subst₂}
use mathlib.Core.List.{append_assoc}
use mcu_updater.Base.{
  ℕ, ◌+◌, ◌-◌, ◌≡◌, refl, ap, ◌∙◌, ◌&&◌, Option, none, some, List, [], ◌∷◌, ◌++◌, length, get_or,
  All, arith, leb, ltb, length-append, if◌then◌else◌,
}
use mcu_updater.Base.Bytes.{Bytes}
use mcu_updater.Base.Result.{ok}
use mcu_updater.Uf2.Container
use mcu_updater.Uf2.Container.{Block, block_size}
use mcu_updater.Uf2.Extraction.{block_byte, byte_at}
use mcu_updater.Uf2.Canvas.{or_else}
use mcu_updater.Erase.Defs.{EraseBlock, is_main, chunk, pack_from}
use mcu_updater.Erase.Chunk.{length-chunk, at_offset, read_uf2_block-chunk, get_or-chunk}
use mcu_updater.Erase.Sizes.{IsSmall}
use mcu_updater.Erase.RoundTrip.{pack_from_cons}

-- The byte that one block gives an address.
unfoldable pub gives : EraseBlock → ℕ → Option ℕ
gives b a =
    if is_main b && (leb b.target a && ltb a (b.target + length b.payload))
    then some (get_or b.payload (a - b.target) 0)
    else none

-- The blocks as the reader of uf2.py sees them, from an offset on.
unfoldable pub located : ℕ → List EraseBlock → List Block
located offset [] = []
located offset (b ∷ bs) = at_offset offset b ∷ located (offset + block_size) bs

pub pack_from-located :
    (bs : List EraseBlock) (number count : ℕ) (out pre : Bytes)
    → All IsSmall bs
    → pack_from number count bs ≡ ok out
    → Container.blocks_from (length bs) (length pre) (pre ++ out) ≡ ok (located (length pre) bs)
unfolding Container.blocks_from located
pack_from-located [] number count out pre k h = refl
pack_from-located (b ∷ bs) number count out pre k h =
    let (rest, e, r, fits) = pack_from_cons b bs number count out h in
    let bytes = chunk number count b in
    let next =
      length-append pre bytes ∙ ap (λ k. length pre + k) (length-chunk number count b k.0) in
    let ih = pack_from-located bs (number + 1) count rest (pre ++ bytes) k.1 r in
    let head =
      read_uf2_block-chunk pre rest number count b fits.flags fits.target k.0 fits.family in
    let tail : Container.blocks_from (length bs) (length pre + block_size) (pre ++ (bytes ++ rest))
        ≡ ok (located (length pre + block_size) bs) =
      subst₂ (λ o u. Container.blocks_from (length bs) o u ≡ ok (located o bs)) next
        (append_assoc pre bytes rest) ih in
    rw (← e) (rw (head, tail))

block_byte-chunk :
    (pre rest : Bytes) (number count : ℕ) (b : EraseBlock) (a : ℕ)
    → block_byte (pre ++ (chunk number count b ++ rest)) (at_offset (length pre) b) a ≡ gives b a
unfolding block_byte gives is_main Container.is_main
block_byte-chunk pre rest number count b a =
    ground (arith, get_or-chunk pre rest number count b (a - b.target))

-- The byte that a list of blocks gives an address: the last one's.
unfoldable pub flash_byte : List EraseBlock → ℕ → Option ℕ
flash_byte [] a = none
flash_byte (b ∷ bs) a = or_else (flash_byte bs a) (gives b a)

pub byte_at-located :
    (bs : List EraseBlock) (number count : ℕ) (out pre : Bytes) (a : ℕ)
    → All IsSmall bs
    → pack_from number count bs ≡ ok out
    → byte_at (pre ++ out) (located (length pre) bs) a ≡ flash_byte bs a
unfolding byte_at located flash_byte
byte_at-located [] number count out pre a k h = refl
byte_at-located (b ∷ bs) number count out pre a k h =
    let (rest, e, r, fits) = pack_from_cons b bs number count out h in
    let bytes = chunk number count b in
    let next =
      length-append pre bytes ∙ ap (λ k. length pre + k) (length-chunk number count b k.0) in
    let whole : pre ++ (bytes ++ rest) ≡ pre ++ out = ap (λ u. pre ++ u) e in
    let ih = byte_at-located bs (number + 1) count rest (pre ++ bytes) a k.1 r in
    let later : byte_at (pre ++ out) (located (length pre + block_size) bs) a ≡ flash_byte bs a =
      subst₂ (λ o u. byte_at u (located o bs) a ≡ flash_byte bs a) next
        (append_assoc pre bytes rest ∙ whole) ih in
    let now : block_byte (pre ++ out) (at_offset (length pre) b) a ≡ gives b a =
      subst (λ u. block_byte u (at_offset (length pre) b) a ≡ gives b a) whole
        (block_byte-chunk pre rest number count b a) in
    rw (later, now) refl
