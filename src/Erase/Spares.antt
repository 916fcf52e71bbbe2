-- ===== src/Erase/Spares.antt =====
-- Blocks that leave the application's first sector alone, and those that blank it.
use native.Mathlib.Decide.{dec_lt}
use mcu_updater.Base.{
  ℕ, zero, suc, ◌+◌, ◌-◌, ◌*◌, ◌%◌, ◌<◌, ◌≤◌, ◌≡◌, refl, ◌∙◌, true, false, ◌&&◌, none, some, List,
  [], ◌∷◌, ◌++◌, replicate, All, arith, ◌⊎◌, inl, inr, Bool-cases, leb, ltb, length-replicate,
  get_or-replicate_in, if◌then◌else◌, ◌==◌,
}
use mcu_updater.Base.Result.{ok}
use mcu_updater.Erase.Defs.{
  EraseBlock, is_main, main_blocks, touches, refuse_overlap, erased_pages, sector_size, page_size,
  insert, sort,
}
use mcu_updater.Erase.Located.{gives, flash_byte}

-- A block that leaves an address alone or blanks it.
abbrev pub Spares : ℕ → EraseBlock → Type 0
Spares a b = (gives b a ≡ none) ⊎ (gives b a ≡ some 0xff)

-- Some block of the list blanks the address.
abbrev pub Blanks : ℕ → List EraseBlock → Type 0
Blanks a [] = ⊥
Blanks a (b ∷ bs) = (gives b a ≡ some 0xff) ⊎ Blanks a bs

flash_byte-spared :
    (bs : List EraseBlock) (a : ℕ)
    → All (Spares a) bs
    → (flash_byte bs a ≡ none) ⊎ (flash_byte bs a ≡ some 0xff)
unfolding flash_byte
flash_byte-spared [] a h = inl refl
flash_byte-spared (b ∷ bs) a h = ground (arith, h.0, flash_byte-spared bs a h.1)

pub flash_byte-blank :
    (bs : List EraseBlock) (a : ℕ) → All (Spares a) bs → Blanks a bs → flash_byte bs a ≡ some 0xff
unfolding flash_byte
flash_byte-blank [] a h k = absurd k
flash_byte-blank (b ∷ bs) a h (inl k) = ground (arith, flash_byte-spared bs a h.1)
flash_byte-blank (b ∷ bs) a h (inr k) = rw (flash_byte-blank bs a h.1 k)

insert-Spares :
    (a : ℕ) (b : EraseBlock) (bs : List EraseBlock)
    → Spares a b
    → All (Spares a) bs
    → All (Spares a) (insert b bs)
unfolding insert
insert-Spares a b [] h k = (h, tt)
insert-Spares a b (c ∷ cs) h k = elim (Bool-cases (leb b.target c.target)) [
  | inl le ↦ rw le (h, k)
  | inr gt ↦ rw gt (k.0, insert-Spares a b cs h k.1)
]

pub sort-Spares : (a : ℕ) (bs : List EraseBlock) → All (Spares a) bs → All (Spares a) (sort bs)
unfolding sort
sort-Spares a [] h = tt
sort-Spares a (b ∷ bs) h = insert-Spares a b (sort bs) h.0 (sort-Spares a bs h.1)

insert-Blanks :
    (a : ℕ) (b : EraseBlock) (bs : List EraseBlock) → Blanks a (b ∷ bs) → Blanks a (insert b bs)
unfolding insert
insert-Blanks a b [] h = h
insert-Blanks a b (c ∷ cs) h = elim (Bool-cases (leb b.target c.target)) [
  | inl le ↦ rw le h
  | inr gt ↦ rw gt (elim h [
    | inl here ↦ inr (insert-Blanks a b cs (inl here))
    | inr (inl c_blanks) ↦ inl c_blanks
    | inr (inr later) ↦ inr (insert-Blanks a b cs (inr later))
  ])
]

pub sort-Blanks : (a : ℕ) (bs : List EraseBlock) → Blanks a bs → Blanks a (sort bs)
unfolding sort
sort-Blanks a [] h = h
sort-Blanks a (b ∷ bs) (inl h) = insert-Blanks a b (sort bs) (inl h)
sort-Blanks a (b ∷ bs) (inr h) = insert-Blanks a b (sort bs) (inr (sort-Blanks a bs h))

pub append-Blanks : (a : ℕ) (bs cs : List EraseBlock) → Blanks a cs → Blanks a (bs ++ cs)
append-Blanks a [] cs h = h
append-Blanks a (b ∷ bs) cs h = inr (append-Blanks a bs cs h)

refuse_overlap_cons :
    (address : ℕ) (b : EraseBlock) (bs : List EraseBlock)
    → refuse_overlap address (b ∷ bs) ≡ ok tt
    → (touches address b ≡ false) × (refuse_overlap address bs ≡ ok tt)
unfolding refuse_overlap
refuse_overlap_cons address b bs h = ground arith

gives_untouched :
    (address a : ℕ) (b : EraseBlock)
    → touches address b ≡ false
    → address ≤ a
    → a < address + sector_size
    → gives b a ≡ none
unfolding gives touches
gives_untouched address a b h low high = ground arith

gives_metadata : (a : ℕ) (b : EraseBlock) → is_main b ≡ false → gives b a ≡ none
unfolding gives
gives_metadata a b h = rw h

-- No block of the image reaches into the sector.
pub refuse_overlap-Spares :
    (bs : List EraseBlock) (address a : ℕ)
    → refuse_overlap address (main_blocks bs) ≡ ok tt
    → address ≤ a
    → a < address + sector_size
    → All (Spares a) bs
unfolding main_blocks
refuse_overlap-Spares [] address a h low high = tt
refuse_overlap-Spares (b ∷ bs) address a h low high = elim (Bool-cases (is_main b)) [
  | inl m ↦
      let (t, rest) = refuse_overlap_cons address b (main_blocks bs) (rw m at h) in
      (
        inl (gives_untouched address a b t low high),
        refuse_overlap-Spares bs address a rest low high,
      )
  | inr m ↦ (inl (gives_metadata a b m), refuse_overlap-Spares bs address a (rw m at h) low high)
]

abbrev blank_page : ℕ → ℕ → ℕ → ℕ → EraseBlock
blank_page size page flags family = record {
  flags = flags;
  target = page;
  payload = replicate size 0xff;
  family = family;
}

gives-blank_page :
    (size page flags family a : ℕ)
    → gives (blank_page size page flags family) a
      ≡ (if flags % 2 == 0 && (leb page a && ltb a (page + size)) then some 0xff else none)
unfolding gives is_main
gives-blank_page size page flags family a = ground (
  arith,
  length-replicate {0} {A = ℕ} size 0xff,
  get_or-replicate_in {0} {A = ℕ} size (a - page) 0xff 0,
)

blank_page-Spares : (size page flags family a : ℕ) → Spares a (blank_page size page flags family)
blank_page-Spares size page flags family a =
    rw (gives-blank_page size page flags family a) (ground arith)

pub erased_pages-Spares :
    (n page flags family a : ℕ) → All (Spares a) (erased_pages n page flags family)
unfolding erased_pages
erased_pages-Spares zero page flags family a = tt
erased_pages-Spares (suc n) page flags family a = (
  blank_page-Spares page_size page flags family a,
  erased_pages-Spares n (page + page_size) flags family a,
)

pub erased_pages-Blanks :
    (n page flags family a : ℕ)
    → flags % 2 ≡ 0
    → page ≤ a
    → a < page + n * page_size
    → Blanks a (erased_pages n page flags family)
unfolding erased_pages
erased_pages-Blanks zero page flags family a even low high = absurd (omega arith)
erased_pages-Blanks (suc n) page flags family a even low high = elim (dec_lt a (page + page_size)) [
  | yes here ↦ inl (gives-blank_page page_size page flags family a ∙ ground arith)
  | no later ↦
      inr (erased_pages-Blanks n (page + page_size) flags family a even (omega arith) (omega arith))
]

pub is_main-even : (b : EraseBlock) → is_main b ≡ true → b.flags % 2 ≡ 0
unfolding is_main
is_main-even b h = ground arith
