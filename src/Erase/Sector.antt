-- ===== src/Erase/Sector.antt =====
-- What a board finds at the application's first sector once the file is written.
use mcu_updater.Base.{
  ℕ, ◌+◌, ◌*◌, ◌/◌, ◌%◌, ◌<◌, ◌≤◌, ◌≡◌, refl, sym, ◌∙◌, true, false, not, ◌||◌, some, List, [], ◌∷◌,
  ◌++◌, length, get_or, All-append, arith, inl, inr, Bool-cases, some_eq, ◌==◌,
}
use mcu_updater.Base.Bytes.{Bytes}
use mcu_updater.Base.Result.{ok}
use mcu_updater.Uf2.Container
use mcu_updater.Uf2.Container.{Block, block_size}
use mcu_updater.Uf2.Image.{extract_image}
use mcu_updater.Uf2.Extraction.{byte_at, extract_image_total, extract_image-byte_at}
use mcu_updater.Erase.Defs.{
  EraseBlock, is_main, main_blocks, erased_pages, sector_size, sort, ordered, with_erased_sector,
}
use mcu_updater.Erase.Sizes.{blocks-IsSmall, ordered-IsSmall, length-ordered}
use mcu_updater.Erase.RoundTrip.{pack_from-blocks_from, with_erased_sector-Extended}
use mcu_updater.Erase.Located.{located, pack_from-located, flash_byte, byte_at-located}
use mcu_updater.Erase.Spares.{
  flash_byte-blank, sort-Spares, sort-Blanks, append-Blanks, refuse_overlap-Spares,
  erased_pages-Spares, erased_pages-Blanks, is_main-even, Spares,
}

-- A file of whole blocks, for the reader of uf2.py.
blocks-whole :
    (n : ℕ) (out : Bytes)
    → 0 < n
    → length out ≡ n * block_size
    → Container.blocks out ≡ Container.blocks_from n 0 out
unfolding Container.blocks
blocks-whole n out pos h =
    let whole : (not (length out % block_size == 0) || length out == 0) ≡ false = ground arith in
    let count : length out / block_size ≡ n = omega arith in rw (whole, count) refl

first-is_main :
    (bs others : List EraseBlock) (first : EraseBlock)
    → main_blocks bs ≡ first ∷ others
    → is_main first ≡ true
unfolding main_blocks
first-is_main [] others first h = cc
first-is_main (b ∷ bs) others first h = elim (Bool-cases (is_main b)) [
  | inl m ↦ let h' = rw m at h in cc (h', m)
  | inr m ↦ first-is_main bs others first (rw m at h)
]

module _ (uf2 : Bytes) (address : ℕ) (out : Bytes)
    (h : with_erased_sector uf2 address ≡ ok out) where
  sector-flash_byte :
      (a : ℕ)
      → address ≤ a
      → a < address + sector_size
      → let x = with_erased_sector-Extended uf2 address out h in
        flash_byte (ordered address x.first x.bs) a ≡ some 0xff
  unfolding ordered
  sector-flash_byte a low high =
      let x = with_erased_sector-Extended uf2 address out h in
      let pages = erased_pages 16 address x.first.flags x.first.family in
      let spared = refuse_overlap-Spares x.bs address a (rw x.main x.clear) low high in
      let even : x.first.flags % 2 ≡ 0 =
        is_main-even x.first (first-is_main x.bs x.others x.first x.main) in
      flash_byte-blank (sort (x.bs ++ pages)) a
        (sort-Spares a (x.bs ++ pages) (
          All-append (Spares a) x.bs pages spared
            (erased_pages-Spares 16 address x.first.flags x.first.family a)))
        (sort-Blanks a (x.bs ++ pages) (
          append-Blanks a x.bs pages
            (erased_pages-Blanks 16 address x.first.flags x.first.family a even low (omega arith))))

  sector-byte_at :
      let x = with_erased_sector-Extended uf2 address out h in
      let os = ordered address x.first x.bs in
      (Container.blocks out ≡ ok (located 0 os))
      × ((i : ℕ) → i < sector_size → byte_at out (located 0 os) (address + i) ≡ some 0xff)
  sector-byte_at =
      let x = with_erased_sector-Extended uf2 address out h in
      let os = ordered address x.first x.bs in
      let n = length-ordered address x.first x.bs in
      let small = ordered-IsSmall address x.first x.bs (blocks-IsSmall uf2 x.bs x.read) in
      let size = (pack_from-blocks_from os 0 (length os) out [] small x.packed).0 in
      (
        blocks-whole (length os) out (omega arith) size
            ∙ pack_from-located os 0 (length os) out [] small x.packed,
        λ i lt.
            byte_at-located os 0 (length os) out [] (address + i) small x.packed
            ∙ sector-flash_byte (address + i) (omega arith) (omega arith),
      )

  -- Reading the flash image of the file that was written over the application's first sector succeeds,
  -- and gives 4096 bytes of 0xff.
  pub extract_image-with_erased_sector :
      (img : Bytes) × (extract_image out address sector_size ≡ ok img)
      × (length img ≡ sector_size)
      × ((i : ℕ) → i < sector_size → get_or img i 0 ≡ 0xff)
  extract_image-with_erased_sector =
      let x = with_erased_sector-Extended uf2 address out h in
      let bs = located 0 (ordered address x.first x.bs) in
      let (read, bytes) = sector-byte_at in
      let (img, e) =
        extract_image_total out address sector_size bs read (omega arith)
          (λ i lt none_there. cc (bytes i lt, none_there)) in
      let (size, same) = extract_image-byte_at out address sector_size bs read img e in
      (img, e, size, λ i lt. some_eq (sym (same i lt) ∙ bytes i lt))
