-- ===== src/Erase/RoundTrip.antt =====
-- The container that `with_erased_sector` writes reads back as its ordered blocks.
use mcu_updater.Base.{
  ℕ, ◌+◌, ◌*◌, ◌/◌, ◌%◌, ◌<◌, ◌≡◌, refl, sym, ap, ◌∙◌, true, false, not, ◌||◌, List, [], ◌∷◌, ◌++◌,
  length, All, arith, length-append, ◌==◌,
}
use mathlib.Core.Path.{subst₂}
use mathlib.Core.List.{append_assoc}
use mcu_updater.Base.Bytes.{Bytes, u32_mod}
use mcu_updater.Base.Result.{ok, ◌>>=◌, >>=-eq-ok, ok-injective}
use mcu_updater.Uf2.Container.{block_size}
use mcu_updater.Erase.Defs.{
  EraseBlock, blocks_from, blocks, main_blocks, refuse_overlap, sector_size, chunk, pack_block,
  pack_from, ordered, erase_main, with_erased_sector,
}
use mcu_updater.Erase.Sizes.{IsSmall, blocks-IsSmall, length-ordered, ordered-IsSmall}
use mcu_updater.Erase.Chunk.{length-chunk, read_block-chunk}

-- The fields that `struct` accepted.
pub record IsPackable (number count : ℕ) (b : EraseBlock) : Type 0 where
  pub flags : b.flags < u32_mod
  pub target : b.target < u32_mod
  pub family : b.family < u32_mod
  pub number_fits : number < u32_mod
  pub count_fits : count < u32_mod

pack_block_ok :
    (number count : ℕ) (b : EraseBlock) (bytes : Bytes)
    → pack_block number count b ≡ ok bytes
    → (bytes ≡ chunk number count b) × IsPackable number count b
unfolding pack_block
pack_block_ok number count b bytes h = (
  ground arith,
  record {
    flags = ground arith;
    target = ground arith;
    family = ground arith;
    number_fits = ground arith;
    count_fits = ground arith;
  },
)

-- Inversion of packing a block and the ones behind it.
pub pack_from_cons :
    (b : EraseBlock) (bs : List EraseBlock) (number count : ℕ) (out : Bytes)
    → pack_from number count (b ∷ bs) ≡ ok out
    → (rest : Bytes) × (chunk number count b ++ rest ≡ out)
      × (pack_from (number + 1) count bs ≡ ok rest)
      × IsPackable number count b
unfolding pack_from
pack_from_cons b bs number count out h =
    let (bytes, p, q) =
      >>=-eq-ok (pack_block number count b)
        (λ bytes. pack_from (number + 1) count bs >>= λ rest. ok (bytes ++ rest)) h in
    let (rest, r, s) = >>=-eq-ok (pack_from (number + 1) count bs) (λ rest. ok (bytes ++ rest)) q in
    let (c, fits) = pack_block_ok number count b bytes p in
    (rest, rw (← c) (ok-injective s), r, fits)

pub pack_from-blocks_from :
    (bs : List EraseBlock) (number count : ℕ) (out pre : Bytes)
    → All IsSmall bs
    → pack_from number count bs ≡ ok out
    → (length out ≡ length bs * block_size)
      × (blocks_from (length bs) (length pre) (pre ++ out) ≡ ok bs)
unfolding pack_from blocks_from
pack_from-blocks_from [] number count out pre k h = (ap length (sym (ok-injective h)), refl)
pack_from-blocks_from (b ∷ bs) number count out pre k h =
    let (rest, e, r, fits) = pack_from_cons b bs number count out h in
    let bytes = chunk number count b in
    let size = length-chunk number count b k.0 in
    let (len, ih) = pack_from-blocks_from bs (number + 1) count rest (pre ++ bytes) k.1 r in
    let head = read_block-chunk pre rest number count b fits.flags fits.target k.0 fits.family in
    let tail : blocks_from (length bs) (length pre + block_size) (pre ++ (bytes ++ rest)) ≡ ok bs =
      subst₂ (λ o u. blocks_from (length bs) o u ≡ ok bs)
        (length-append pre bytes ∙ ap (λ k. length pre + k) size) (append_assoc pre bytes rest)
        ih in
    (omega (arith, ap length e, length-append bytes rest, size, len), rw (← e) (rw (head, tail)))

blocks-whole :
    (n : ℕ) (out : Bytes) → 0 < n → length out ≡ n * block_size → blocks out ≡ blocks_from n 0 out
unfolding blocks
blocks-whole n out pos h =
    let whole : (length out == 0 || not (length out % block_size == 0)) ≡ false = ground arith in
    let count : length out / block_size ≡ n = omega arith in rw (whole, count) refl

-- What an extension that succeeded went through.
pub record Extended (uf2 : Bytes) (address : ℕ) (out : Bytes) : Type 0 where
  pub bs : List EraseBlock
  pub first : EraseBlock
  pub others : List EraseBlock
  pub aligned : address % sector_size ≡ 0
  pub read : blocks uf2 ≡ ok bs
  pub main : main_blocks bs ≡ first ∷ others
  pub clear : refuse_overlap address (first ∷ others) ≡ ok tt
  pub packed : pack_from 0 (length (ordered address first bs)) (ordered address first bs) ≡ ok out

erase_main_ok :
    (address : ℕ) (bs main : List EraseBlock) (out : Bytes)
    → erase_main address bs main ≡ ok out
    → (first : EraseBlock) × (others : List EraseBlock) × (main ≡ first ∷ others)
      × (refuse_overlap address main ≡ ok tt)
      × (pack_from 0 (length (ordered address first bs)) (ordered address first bs) ≡ ok out)
unfolding erase_main
erase_main_ok address bs [] out h = cc
erase_main_ok address bs (first ∷ others) out h =
    let (u, p, q) =
      >>=-eq-ok (refuse_overlap address (first ∷ others))
        (λ _. pack_from 0 (length (ordered address first bs)) (ordered address first bs)) h in
    (first, others, refl, p, q)

pub with_erased_sector-Extended :
    (uf2 : Bytes) (address : ℕ) (out : Bytes)
    → with_erased_sector uf2 address ≡ ok out
    → Extended uf2 address out
unfolding with_erased_sector
with_erased_sector-Extended uf2 address out h =
    let aligned : (address % sector_size == 0) ≡ true = ground arith in
    let (bs, p, q) =
      >>=-eq-ok (blocks uf2) (λ bs. erase_main address bs (main_blocks bs)) (rw aligned at h) in
    let (first, others, m, c, k) = erase_main_ok address bs (main_blocks bs) out q in
    record {
      bs = bs;
      first = first;
      others = others;
      aligned = ground arith;
      read = p;
      main = m;
      clear = rw m at c;
      packed = k;
    }

-- What is written reads back as the ordered blocks.
pub blocks-with_erased_sector :
    (uf2 : Bytes) (address : ℕ) (out : Bytes)
    → with_erased_sector uf2 address ≡ ok out
    → (bs : List EraseBlock) × (first : EraseBlock) × (others : List EraseBlock) × (blocks uf2
        ≡ ok bs)
      × (main_blocks bs ≡ first ∷ others)
      × (blocks out ≡ ok (ordered address first bs))
      × (length out ≡ (length bs + 16) * block_size)
blocks-with_erased_sector uf2 address out h =
    let x = with_erased_sector-Extended uf2 address out h in
    let n = length-ordered address x.first x.bs in
    let small = blocks-IsSmall uf2 x.bs x.read in
    let (size, back) =
      pack_from-blocks_from (ordered address x.first x.bs) 0 (length (ordered address x.first x.bs))
        out [] (ordered-IsSmall address x.first x.bs small) x.packed in
    (
      x.bs,
      x.first,
      x.others,
      x.read,
      x.main,
      blocks-whole (length (ordered address x.first x.bs)) out (omega arith) size ∙ back,
      omega arith,
    )
