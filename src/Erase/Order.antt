-- ===== src/Erase/Order.antt =====
-- The order of the blocks that are written, and their numbers.
use mathlib.Core.List.{Perm}
use mathlib.Core.List.Perm
use mcu_updater.Base.{
  ℕ, ◌+◌, ◌*◌, ◌≤◌, ◌≡◌, List, [], ◌∷◌, ◌++◌, length, All, arith, inl, inr, Bool-cases, leb,
}
use mcu_updater.Base.Bytes.{Bytes}
use mcu_updater.Base.Result.{ok}
use mcu_updater.Uf2.Container.{block_size}
use mcu_updater.Erase.Defs.{
  EraseBlock, blocks, main_blocks, erased_pages, insert, sort, ordered, with_erased_sector,
}
use mcu_updater.Erase.RoundTrip.{blocks-with_erased_sector}

-- In ascending order of the address.
abbrev pub IsSorted : List EraseBlock → Type 0
IsSorted [] = Unit
IsSorted (b ∷ bs) = All (λ c. b.target ≤ c.target) bs × IsSorted bs

insert-perm : (b : EraseBlock) (bs : List EraseBlock) → Perm (insert b bs) (b ∷ bs)
unfolding insert
insert-perm b [] = Perm.refl (b ∷ [])
insert-perm b (c ∷ cs) = elim (Bool-cases (leb b.target c.target)) [
  | inl le ↦ rw le (Perm.refl (b ∷ c ∷ cs))
  | inr gt ↦ rw gt (Perm.trans (Perm.cons c (insert-perm b cs)) (Perm.swap b c cs))
]

sort-perm : (bs : List EraseBlock) → Perm (sort bs) bs
unfolding sort
sort-perm [] = Perm.refl []
sort-perm (b ∷ bs) = Perm.trans (insert-perm b (sort bs)) (Perm.cons b (sort-perm bs))

All-le_trans :
    (m n : ℕ) (bs : List EraseBlock)
    → m ≤ n
    → All (λ c. n ≤ c.target) bs
    → All (λ c. m ≤ c.target) bs
All-le_trans m n [] h k = tt
All-le_trans m n (c ∷ cs) h k = (omega arith, All-le_trans m n cs h k.1)

All-insert :
    (m : ℕ) (b : EraseBlock) (bs : List EraseBlock)
    → m ≤ b.target
    → All (λ c. m ≤ c.target) bs
    → All (λ c. m ≤ c.target) (insert b bs)
unfolding insert
All-insert m b [] h k = (h, tt)
All-insert m b (c ∷ cs) h k = elim (Bool-cases (leb b.target c.target)) [
  | inl le ↦ rw le (h, k)
  | inr gt ↦ rw gt (k.0, All-insert m b cs h k.1)
]

insert-IsSorted : (b : EraseBlock) (bs : List EraseBlock) → IsSorted bs → IsSorted (insert b bs)
unfolding insert
insert-IsSorted b [] h = (tt, tt)
insert-IsSorted b (c ∷ cs) h = elim (Bool-cases (leb b.target c.target)) [
  | inl le ↦
      let p : b.target ≤ c.target = ground arith in
      rw le ((p, All-le_trans b.target c.target cs p h.0), h)
  | inr gt ↦ rw gt (All-insert c.target b cs (ground arith) h.0, insert-IsSorted b cs h.1)
]

sort-IsSorted : (bs : List EraseBlock) → IsSorted (sort bs)
unfolding sort
sort-IsSorted [] = tt
sort-IsSorted (b ∷ bs) = insert-IsSorted b (sort bs) (sort-IsSorted bs)

ordered-perm-IsSorted :
    (address : ℕ) (first : EraseBlock) (bs : List EraseBlock)
    → Perm (ordered address first bs) (bs ++ erased_pages 16 address first.flags first.family)
      × IsSorted (ordered address first bs)
unfolding ordered
ordered-perm-IsSorted address first bs =
    let all = bs ++ erased_pages 16 address first.flags first.family in
    (sort-perm all, sort-IsSorted all)

-- The file that is written is a container of whole blocks. Reading it back gives each block of the
-- image and the sixteen erased pages of the sector, with the flags and the family of the image's first
-- main-flash block, as often as they are, in ascending order of their addresses.
pub with_erased_sector-blocks :
    (uf2 : Bytes) (address : ℕ) (out : Bytes)
    → with_erased_sector uf2 address ≡ ok out
    → (bs : List EraseBlock) × (first : EraseBlock) × (others : List EraseBlock) × (written : List
        EraseBlock)
      × (blocks uf2 ≡ ok bs)
      × (main_blocks bs ≡ first ∷ others)
      × (blocks out ≡ ok written)
      × Perm written (bs ++ erased_pages 16 address first.flags first.family)
      × IsSorted written
      × (length out ≡ (length bs + 16) * block_size)
with_erased_sector-blocks uf2 address out h =
    let (bs, first, others, read, main, back, size) = blocks-with_erased_sector uf2 address out h in
    let (perm, sorted) = ordered-perm-IsSorted address first bs in
    (bs, first, others, ordered address first bs, read, main, back, perm, sorted, size)
