-- ===== src/Erase/Sizes.antt =====
-- Payloads that fit into a block, and how many blocks are written.
use mathlib.Core.Path.{subst}
use mcu_updater.Base.{
  ℕ, zero, suc, ◌+◌, ◌/◌, ◌≤◌, ◌≡◌, refl, ap, ◌∙◌, List, [], ◌∷◌, ◌++◌, length, All, All-append,
  take, drop, arith, inl, inr, Bool-cases, length-append, length-take, length-replicate, leb,
}
use mcu_updater.Base.Bytes.{Bytes, word}
use mcu_updater.Base.Result.{Result, ok, ◌>>=◌, >>=-eq-ok, ok-injective}
use mcu_updater.Uf2.Container.{block_size, header_size, max_payload}
use mcu_updater.Erase.Defs.{
  EraseBlock, Uf2EraseError, read_block, blocks_from, blocks, erased_pages, page_size, insert, sort,
  ordered,
}

-- A payload that fits into a block.
abbrev pub IsSmall : EraseBlock → Type 0
IsSmall b = length b.payload ≤ max_payload

read_block-IsSmall :
    (uf2 : Bytes) (offset : ℕ) (b : EraseBlock) → read_block uf2 offset ≡ ok b → IsSmall b
unfolding read_block
read_block-IsSmall uf2 offset b h =
    let size = word uf2 (offset + 16) in
    let f : (take size (drop (offset + header_size) uf2) ≡ b.payload) × (size ≤ max_payload) =
      ground arith in
    omega (arith, ap length f.0, length-take size (drop (offset + header_size) uf2), f.1)

-- What follows the first block of a loop over blocks.
abbrev after_block : ℕ → ℕ → Bytes → EraseBlock → Result Uf2EraseError (List EraseBlock)
after_block n offset uf2 b = do bs ← blocks_from n (offset + block_size) uf2; ok (b ∷ bs)

blocks_from-IsSmall :
    (n offset : ℕ) (uf2 : Bytes) (bs : List EraseBlock)
    → blocks_from n offset uf2 ≡ ok bs
    → All IsSmall bs
unfolding blocks_from
blocks_from-IsSmall zero offset uf2 bs h = subst (All IsSmall) (ok-injective h) tt
blocks_from-IsSmall (suc n) offset uf2 bs h =
    let (b, p, q) = >>=-eq-ok (read_block uf2 offset) (after_block n offset uf2) h in
    let (rest, r, s) =
      >>=-eq-ok (blocks_from n (offset + block_size) uf2) (λ rest. ok (b ∷ rest)) q in
    subst (All IsSmall) (ok-injective s)
      (read_block-IsSmall uf2 offset b p, blocks_from-IsSmall n (offset + block_size) uf2 rest r)

pub blocks-IsSmall : (uf2 : Bytes) (bs : List EraseBlock) → blocks uf2 ≡ ok bs → All IsSmall bs
unfolding blocks
blocks-IsSmall uf2 bs h = blocks_from-IsSmall (length uf2 / block_size) 0 uf2 bs (ground arith)

insert-IsSmall :
    (b : EraseBlock) (bs : List EraseBlock) → IsSmall b → All IsSmall bs → All IsSmall (insert b bs)
unfolding insert
insert-IsSmall b [] h k = (h, tt)
insert-IsSmall b (c ∷ cs) h k = elim (Bool-cases (leb b.target c.target)) [
  | inl le ↦ rw le (h, k)
  | inr gt ↦ rw gt (k.0, insert-IsSmall b cs h k.1)
]

sort-IsSmall : (bs : List EraseBlock) → All IsSmall bs → All IsSmall (sort bs)
unfolding sort
sort-IsSmall [] h = tt
sort-IsSmall (b ∷ bs) h = insert-IsSmall b (sort bs) h.0 (sort-IsSmall bs h.1)

erased_pages-IsSmall : (n page flags family : ℕ) → All IsSmall (erased_pages n page flags family)
unfolding erased_pages
erased_pages-IsSmall zero page flags family = tt
erased_pages-IsSmall (suc n) page flags family = (
  omega (arith, length-replicate {0} {A = ℕ} 256 0xff),
  erased_pages-IsSmall n (page + page_size) flags family,
)

length-insert : (b : EraseBlock) (bs : List EraseBlock) → length (insert b bs) ≡ suc (length bs)
unfolding insert
length-insert b [] = refl
length-insert b (c ∷ cs) = ground (arith, length-insert b cs)

pub length-sort : (bs : List EraseBlock) → length (sort bs) ≡ length bs
unfolding sort
length-sort [] = refl
length-sort (b ∷ bs) = length-insert b (sort bs) ∙ ap suc (length-sort bs)

length-erased_pages : (n page flags family : ℕ) → length (erased_pages n page flags family) ≡ n
unfolding erased_pages
length-erased_pages zero page flags family = refl
length-erased_pages (suc n) page flags family =
    ap suc (length-erased_pages n (page + page_size) flags family)

pub length-ordered :
    (address : ℕ) (first : EraseBlock) (bs : List EraseBlock)
    → length (ordered address first bs) ≡ length bs + 16
unfolding ordered
length-ordered address first bs =
    length-sort (bs ++ erased_pages 16 address first.flags first.family)
    ∙ length-append bs (erased_pages 16 address first.flags first.family)
    ∙ ap (λ k. length bs + k) (length-erased_pages 16 address first.flags first.family)

pub ordered-IsSmall :
    (address : ℕ) (first : EraseBlock) (bs : List EraseBlock)
    → All IsSmall bs
    → All IsSmall (ordered address first bs)
unfolding ordered
ordered-IsSmall address first bs h =
    sort-IsSmall (bs ++ erased_pages 16 address first.flags first.family) (
      All-append IsSmall bs (erased_pages 16 address first.flags first.family) h
        (erased_pages-IsSmall 16 address first.flags first.family))
