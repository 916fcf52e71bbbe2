-- ===== src/Erase/Numbers.antt =====
-- The block numbers that are written.
use mathlib.Core.Path.{subst}
use mcu_updater.Base.{
  ℕ, zero, suc, ◌+◌, ◌*◌, ◌<◌, ◌≡◌, ◌∙◌, List, [], ◌∷◌, ◌++◌, length, All, arith,
}
use mcu_updater.Base.Bytes.{Bytes, word, word-append}
use mcu_updater.Base.Result.{ok}
use mcu_updater.Uf2.Container.{block_size}
use mcu_updater.Erase.Defs.{EraseBlock, chunk, pack_from, ordered, with_erased_sector}
use mcu_updater.Erase.Chunk.{length-chunk, word-chunk-number, word-chunk-count}
use mcu_updater.Erase.Sizes.{IsSmall, blocks-IsSmall, ordered-IsSmall}
use mcu_updater.Erase.RoundTrip.{
  IsPackable, pack_from_cons, pack_from-blocks_from, with_erased_sector-Extended,
}

-- Block `i` of the output carries the number `number + i` and the count.
abbrev IsNumbered : ℕ → ℕ → Bytes → ℕ → Type 0
IsNumbered number count out i =
    (word out (block_size * i + 20) ≡ number + i) × (word out (block_size * i + 24) ≡ count)

IsNumbered-chunk :
    (number count : ℕ) (b : EraseBlock) (rest : Bytes)
    → IsPackable number count b
    → IsNumbered number count (chunk number count b ++ rest) 0
IsNumbered-chunk number count b rest fits = (
  word-chunk-number number count b rest fits.number_fits ∙ omega arith,
  word-chunk-count number count b rest fits.count_fits,
)

IsNumbered-behind :
    (number count i : ℕ) (bytes rest : Bytes)
    → length bytes ≡ block_size
    → IsNumbered (number + 1) count rest i
    → IsNumbered number count (bytes ++ rest) (suc i)
IsNumbered-behind number count i bytes rest size h = (at 20 ∙ h.0 ∙ omega arith, at 24 ∙ h.1)
  where
    place : (k : ℕ) → block_size * suc i + k ≡ length bytes + (block_size * i + k)
    place k = omega arith

    at : (k : ℕ) → word (bytes ++ rest) (block_size * suc i + k) ≡ word rest (block_size * i + k)
    at k = rw (place k) (word-append bytes rest (block_size * i + k))

pack_from-IsNumbered :
    (bs : List EraseBlock) (number count : ℕ) (out : Bytes) (i : ℕ)
    → All IsSmall bs
    → pack_from number count bs ≡ ok out
    → i < length bs
    → IsNumbered number count out i
pack_from-IsNumbered [] number count out i k h lt = elim lt [ ]
pack_from-IsNumbered (b ∷ bs) number count out zero k h lt =
    let (rest, e, r, fits) = pack_from_cons b bs number count out h in
    subst (λ o. IsNumbered number count o 0) e (IsNumbered-chunk number count b rest fits)
pack_from-IsNumbered (b ∷ bs) number count out (suc i) k h lt =
    let (rest, e, r, fits) = pack_from_cons b bs number count out h in
    subst (λ o. IsNumbered number count o (suc i)) e
      (IsNumbered-behind number count i (chunk number count b) rest
        (length-chunk number count b k.0)
        (pack_from-IsNumbered bs (number + 1) count rest i k.1 r (omega arith)))

-- The blocks that are written are numbered from 0 in their order, and every one of them carries their
-- total, the image's own blocks included.
pub with_erased_sector-IsNumbered :
    (uf2 : Bytes) (address : ℕ) (out : Bytes) (i : ℕ)
    → with_erased_sector uf2 address ≡ ok out
    → i * block_size < length out
    → (word out (block_size * i + 20) ≡ i)
      × (word out (block_size * i + 24) * block_size ≡ length out)
with_erased_sector-IsNumbered uf2 address out i h lt =
    let x = with_erased_sector-Extended uf2 address out h in
    let os = ordered address x.first x.bs in
    let small = ordered-IsSmall address x.first x.bs (blocks-IsSmall uf2 x.bs x.read) in
    let size = (pack_from-blocks_from os 0 (length os) out [] small x.packed).0 in
    let n = pack_from-IsNumbered os 0 (length os) out i small x.packed (omega arith) in
    (n.0 ∙ omega arith, omega arith)
