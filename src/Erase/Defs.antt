-- ===== src/Erase/Defs.antt =====
-- `with_erased_sector` and `_blocks` of src/mcu_updater/uf2_erase.py. `sorted` is an insertion sort,
-- stable like Python's; `struct.error` for a field past 32 bits is `pack_error`.
use mcu_updater.Base.{
  ℕ, zero, suc, ◌+◌, ◌-◌, ◌/◌, ◌%◌, Bool, not, ◌&&◌, ◌||◌, List, [], ◌∷◌, ◌++◌, length, take, drop,
  replicate, leb, ltb, ◌==◌, if◌then◌else◌,
}
use mcu_updater.Base.Bytes.{Bytes, u32_mod, word, pack32}
use mcu_updater.Base.Result.{Result, ok, err, ◌>>=◌}
use mcu_updater.Uf2.Container.{
  block_size, header_size, max_payload, magic_start0, magic_start1, magic_end,
}

abbrev pub sector_size : ℕ
sector_size = 4096

abbrev pub page_size : ℕ
page_size = 256

-- Uf2EraseError, a constructor for each message, and struct.error
pub data Uf2EraseError : Type 0 where
  off_boundary : ℕ → Uf2EraseError
  no_main_block : Uf2EraseError
  overlaps : ℕ → Uf2EraseError
  not_container bad_magic oversized : ℕ → Uf2EraseError
  pack_error : Uf2EraseError

-- the tuple (flags, target, payload, family)
pub record EraseBlock : Type 0 where
  pub flags : ℕ
  pub target : ℕ
  pub payload : Bytes
  pub family : ℕ

unfoldable pub is_main : EraseBlock → Bool
is_main b = b.flags % 2 == 0

-- the body of the loop of `_blocks`
unfoldable pub read_block : Bytes → ℕ → Result Uf2EraseError EraseBlock
read_block uf2 offset =
    if not (word uf2 offset == magic_start0)
      || not (word uf2 (offset + 4) == magic_start1)
      || not (word uf2 (offset + (block_size - 4)) == magic_end)
    then err (bad_magic offset)
    else if ltb max_payload (word uf2 (offset + 16))
    then err (oversized offset)
    else ok (record {
      flags = word uf2 (offset + 8);
      target = word uf2 (offset + 12);
      payload = take (word uf2 (offset + 16)) (drop (offset + header_size) uf2);
      family = word uf2 (offset + 28);
    })

-- `for offset in range(0, len(uf2), UF2_BLOCK_SIZE)`, with the number of rounds left
unfoldable pub blocks_from : ℕ → ℕ → Bytes → Result Uf2EraseError (List EraseBlock)
blocks_from zero offset uf2 = ok []
blocks_from (suc n) offset uf2 = do
  b ← read_block uf2 offset
  bs ← blocks_from n (offset + block_size) uf2
  ok (b ∷ bs)

unfoldable pub blocks : Bytes → Result Uf2EraseError (List EraseBlock)
blocks uf2 =
    if length uf2 == 0 || not (length uf2 % block_size == 0)
    then err (not_container (length uf2))
    else blocks_from (length uf2 / block_size) 0 uf2

-- [b for b in blocks if not b[0] & UF2_FLAG_NOT_MAIN_FLASH]
unfoldable pub main_blocks : List EraseBlock → List EraseBlock
main_blocks [] = []
main_blocks (b ∷ bs) = let rest = main_blocks bs in if is_main b then b ∷ rest else rest

unfoldable pub touches : ℕ → EraseBlock → Bool
touches address b =
    ltb b.target (address + sector_size) && ltb address (b.target + length b.payload)

-- the loop that refuses an image which writes the sector already
unfoldable pub refuse_overlap : ℕ → List EraseBlock → Result Uf2EraseError (Unit {0})
refuse_overlap address [] = ok tt
refuse_overlap address (b ∷ bs) =
    let rest = refuse_overlap address bs in
    if touches address b then err (overlaps b.target) else rest

-- `for page in range(address, end, PAGE_SIZE)`, with the number of pages left
unfoldable pub erased_pages : ℕ → ℕ → ℕ → ℕ → List EraseBlock
erased_pages zero page flags family = []
erased_pages (suc n) page flags family =
    record { flags = flags; target = page; payload = replicate page_size 0xff; family = family }
    ∷ erased_pages n (page + page_size) flags family

-- sorted(..., key=lambda b: b[1])
unfoldable pub insert : EraseBlock → List EraseBlock → List EraseBlock
insert b [] = b ∷ []
insert b (c ∷ cs) = if leb b.target c.target then b ∷ c ∷ cs else c ∷ insert b cs

unfoldable pub sort : List EraseBlock → List EraseBlock
unfolding insert
sort [] = []
sort (b ∷ bs) = insert b (sort bs)

abbrev pub fits : ℕ → Bool
fits n = ltb n u32_mod

-- bytes.ljust(n, b"\0")
abbrev pub ljust : ℕ → Bytes → Bytes
ljust n bs = bs ++ replicate (n - length bs) 0

-- _HEADER.pack(...), the padded payload and _END.pack(...)
unfoldable pub chunk : ℕ → ℕ → EraseBlock → Bytes
chunk number count b =
    pack32 magic_start0
    ++ (pack32 magic_start1
        ++ (pack32 b.flags
            ++ (pack32 b.target
                ++ (pack32 (length b.payload)
                    ++ (pack32 number
                        ++ (pack32 count
                            ++ (pack32 b.family
                                ++ (ljust (block_size - header_size - 4) b.payload
                                    ++ pack32 magic_end))))))))

unfoldable pub pack_block : ℕ → ℕ → EraseBlock → Result Uf2EraseError Bytes
pack_block number count b =
    if fits b.flags
      && fits b.target
      && fits (length b.payload)
      && fits number
      && fits count
      && fits b.family
    then ok (chunk number count b)
    else err pack_error

-- `for number, (...) in enumerate(ordered)`
unfoldable pub pack_from : ℕ → ℕ → List EraseBlock → Result Uf2EraseError Bytes
pack_from number count [] = ok []
pack_from number count (b ∷ bs) = do
  bytes ← pack_block number count b
  rest ← pack_from (number + 1) count bs
  ok (bytes ++ rest)

-- `with_erased_sector` once the blocks are read
unfoldable pub ordered : ℕ → EraseBlock → List EraseBlock → List EraseBlock
ordered address first bs =
    sort (bs ++ erased_pages (sector_size / page_size) address first.flags first.family)

unfoldable pub erase_main : ℕ → List EraseBlock → List EraseBlock → Result Uf2EraseError Bytes
erase_main address bs [] = err no_main_block
erase_main address bs (first ∷ main) = do
  _ ← refuse_overlap address (first ∷ main)
  let out = ordered address first bs
  pack_from 0 (length out) out

unfoldable pub with_erased_sector : Bytes → ℕ → Result Uf2EraseError Bytes
with_erased_sector uf2 address =
    if not (address % sector_size == 0)
    then err (off_boundary address)
    else do bs ← blocks uf2; erase_main address bs (main_blocks bs)
