-- ===== src/Uf2/Extraction.antt =====
-- What `extract_image` reconstructs, against the blocks of the container.
use mathlib.Core.Option
use mcu_updater.Base.{
  ℕ, zero, suc, ◌+◌, ◌-◌, ◌<◌, ◌≤◌, ◌≡◌, ◌≢◌, refl, sym, ap, ◌∙◌, false, not, Option, none, some,
  List, [], ◌∷◌, length, get_or, ◌==◌, if◌then◌else◌, arith, inl, inr, Bool-cases, Option-cases,
}
use mcu_updater.Base.Bytes.{Bytes}
use mcu_updater.Base.Result.{ok, err, >>=-eq-ok}
use mcu_updater.Uf2.Container.{uncovered, Block, is_main, blocks}
use mcu_updater.Uf2.Image.{
  Canvas, blank, place_bytes, place_blocks, first_gap, read_canvas, extract_image,
}
use mcu_updater.Uf2.Canvas.{
  view, HasSize, blank-HasSize, view-blank, supplied, or_else, place_bytes-HasSize,
  view-place_bytes,
}

-- The byte that one block supplies for an address: a metadata block supplies none.
unfoldable pub block_byte : Bytes → Block → ℕ → Option ℕ
block_byte uf2 b a = if is_main b then supplied uf2 b 0 b.payload_size a else none

-- The byte that a container puts at an address: that of the last block that supplies one.
unfoldable pub byte_at : Bytes → List Block → ℕ → Option ℕ
byte_at uf2 [] a = none
byte_at uf2 (b ∷ bs) a = or_else (byte_at uf2 bs a) (block_byte uf2 b a)

or_else_assoc : (p q r : Option ℕ) → or_else p (or_else q r) ≡ or_else (or_else p q) r
or_else_assoc p q r = ground arith

or_else-none : (p : Option ℕ) → or_else p none ≡ p
or_else-none none = refl
or_else-none (some v) = refl

module _ (uf2 : Bytes) (start size : ℕ) where
  abbrev placed : Block → Canvas → Canvas
  placed b c = if not (is_main b) then c else place_bytes uf2 b start size b.payload_size 0 c

  placed-HasSize : (b : Block) (c : Canvas) → HasSize size c → HasSize size (placed b c)
  placed-HasSize b c h = elim (Bool-cases (is_main b)) [
    | inl m ↦ rw m (place_bytes-HasSize uf2 b start size b.payload_size 0 c h)
    | inr m ↦ rw m h
  ]

  view-placed :
      (b : Block) (i : ℕ) (c : Canvas)
      → HasSize size c
      → i < size
      → view (placed b c) i ≡ or_else (block_byte uf2 b (start + i)) (view c i)
  unfolding block_byte
  view-placed b i c h lt = elim (Bool-cases (is_main b)) [
    | inl m ↦ rw m (view-place_bytes uf2 b start size b.payload_size 0 i c h lt)
    | inr m ↦ rw m
  ]

  place_blocks-HasSize :
      (bs : List Block) (c : Canvas)
      → HasSize size c
      → HasSize size (place_blocks uf2 bs start size c)
  unfolding place_blocks
  place_blocks-HasSize [] c h = h
  place_blocks-HasSize (b ∷ bs) c h = place_blocks-HasSize bs (placed b c) (placed-HasSize b c h)

  view-place_blocks :
      (bs : List Block) (i : ℕ) (c : Canvas)
      → HasSize size c
      → i < size
      → view (place_blocks uf2 bs start size c) i ≡ or_else (byte_at uf2 bs (start + i)) (view c i)
  unfolding place_blocks byte_at
  view-place_blocks [] i c h lt = refl
  view-place_blocks (b ∷ bs) i c h lt =
      view-place_blocks bs i (placed b c) (placed-HasSize b c h) lt
      ∙ rw (view-placed b i c h lt)
          (or_else_assoc (byte_at uf2 bs (start + i)) (block_byte uf2 b (start + i)) (view c i))

  abbrev filled : List Block → Canvas
  filled bs = place_blocks uf2 bs start size (blank size)

  view-filled :
      (bs : List Block) (i : ℕ) → i < size → view (filled bs) i ≡ byte_at uf2 bs (start + i)
  view-filled bs i lt =
      view-place_blocks bs i (blank size) (blank-HasSize size) lt
      ∙ rw (view-blank size i) (or_else-none (byte_at uf2 bs (start + i)))

map-suc-some :
    (o : Option ℕ) (g : ℕ) → Option.map suc o ≡ some g → (k : ℕ) × (o ≡ some k) × (g ≡ suc k)
map-suc-some none g h = cc
map-suc-some (some k) g h = (k, refl, cc)

-- `first_gap` finds the first slot that is not covered.
first_gap-some :
    (cs : Bytes) (g : ℕ)
    → first_gap cs ≡ some g
    → (g < length cs) × (get_or cs g 0 ≡ 0) × ((i : ℕ) → i < g → get_or cs i 0 ≢ 0)
unfolding first_gap
first_gap-some [] g h = cc
first_gap-some (zero ∷ cs) zero h = (omega arith, refl, λ i lt. absurd (omega arith))
first_gap-some (zero ∷ cs) (suc g) h = absurd (ground arith)
first_gap-some (suc c ∷ cs) zero h =
    absurd (let m = map-suc-some (first_gap cs) 0 h in ground arith)
first_gap-some (suc c ∷ cs) (suc g) h =
    let m = map-suc-some (first_gap cs) (suc g) h in
    let e : first_gap cs ≡ some g = ground arith in
    let r = first_gap-some cs g e in
    (omega arith, r.1, elim [ zero ↦ λ lt z. omega arith | suc i ↦ λ lt. r.2 i (omega arith) ])

first_gap-none : (cs : Bytes) (i : ℕ) → first_gap cs ≡ none → i < length cs → get_or cs i 0 ≢ 0
unfolding first_gap
first_gap-none [] i h lt = absurd (omega arith)
first_gap-none (zero ∷ cs) i h lt = cc
first_gap-none (suc c ∷ cs) zero h lt = λ z. omega arith
first_gap-none (suc c ∷ cs) (suc i) h lt = first_gap-none cs i (ground arith) (omega arith)

view_covered :
    (c : Canvas) (i : ℕ) → get_or c.covered i 0 ≢ 0 → view c i ≡ some (get_or c.image i 0)
view_covered c i h = ground (arith, h)

view_gap : (c : Canvas) (i : ℕ) → get_or c.covered i 0 ≡ 0 → view c i ≡ none
view_gap c i h = ground arith

read_canvas_ok :
    (start : ℕ) (c : Canvas) (img : Bytes)
    → read_canvas start c ≡ ok img
    → (first_gap c.covered ≡ none) × (c.image ≡ img)
read_canvas_ok start c img h = ground arith

read_canvas_gap :
    (start a : ℕ) (c : Canvas)
    → read_canvas start c ≡ err (uncovered a)
    → (g : ℕ) × (first_gap c.covered ≡ some g) × (a ≡ start + g)
read_canvas_gap start a c h = elim (Option-cases (first_gap c.covered)) [
  | inl full ↦ absurd (ground arith)
  | inr (g, e) ↦ (g, e, ground arith)
]

module _ (uf2 : Bytes) (start size : ℕ) (bs : List Block) (read : blocks uf2 ≡ ok bs) where
  extract_image_lem :
      0 < size → extract_image uf2 start size ≡ read_canvas start (filled uf2 start size bs)
  unfolding extract_image
  extract_image_lem pos = let nonzero : (size == 0) ≡ false = ground arith in rw (read, nonzero)

  filled-size : HasSize size (filled uf2 start size bs)
  filled-size = place_blocks-HasSize uf2 start size bs (blank size) (blank-HasSize size)

  -- An extracted image has the length that was asked for, and each of its bytes is the one that the
  -- last block covering its address carries for it.
  pub extract_image-byte_at :
      (img : Bytes)
      → extract_image uf2 start size ≡ ok img
      → (length img ≡ size)
        × ((i : ℕ) → i < size → byte_at uf2 bs (start + i) ≡ some (get_or img i 0))
  unfolding extract_image
  extract_image-byte_at img h =
      let pos : 0 < size = ground arith in
      let c = filled uf2 start size bs in
      let (full, e) = read_canvas_ok start c img (sym (extract_image_lem pos) ∙ h) in
      (
        ap length (sym e) ∙ filled-size.image,
        λ i lt.
            sym (view-filled uf2 start size bs i lt)
            ∙ view_covered c i (first_gap-none c.covered i full (rw filled-size.covered lt))
            ∙ ap (λ (b : Bytes). some (get_or b i 0)) e,
      )

  -- A range of positive length is extracted whenever some block supplies each of its addresses.
  pub extract_image_total :
      0 < size
      → ((i : ℕ) → i < size → byte_at uf2 bs (start + i) ≢ none)
      → (img : Bytes) × (extract_image uf2 start size ≡ ok img)
  extract_image_total pos all =
      let c = filled uf2 start size bs in
      elim (Option-cases (first_gap c.covered)) [
        | inl full ↦ (c.image, extract_image_lem pos ∙ rw (full, read_canvas))
        | inr (g, e) ↦
            let (lt, z, _) = first_gap-some c.covered g e in
            let small : g < size = rw filled-size.covered at lt in
            absurd (all g small (sym (view-filled uf2 start size bs g small) ∙ view_gap c g z))
      ]

  -- The error for a gap names the first address of the range that no block supplies.
  pub extract_image_gap :
      (a : ℕ)
      → extract_image uf2 start size ≡ err (uncovered a)
      → (start ≤ a)
        × (a < start + size)
        × (byte_at uf2 bs a ≡ none)
        × ((a' : ℕ) → start ≤ a' → a' < a → byte_at uf2 bs a' ≢ none)
  unfolding extract_image
  extract_image_gap a h =
      let pos : 0 < size = ground arith in
      let c = filled uf2 start size bs in
      let (g, e, at) = read_canvas_gap start a c (sym (extract_image_lem pos) ∙ h) in
      let (lt, z, before) = first_gap-some c.covered g e in
      let small : g < size = rw filled-size.covered at lt in
      (
        omega arith,
        omega arith,
        rw at (sym (view-filled uf2 start size bs g small) ∙ view_gap c g z),
        λ a' low high none_there.
            let j = a' - start in
            let here : start + j ≡ a' = omega arith in
            cc (
              view-filled uf2 start size bs j (omega arith),
              view_covered c j (before j (omega arith)),
              ap (byte_at uf2 bs) here,
              none_there,
            ),
      )

-- What a container covers, it covers in part.
pub extract_image_shorter :
    (uf2 : Bytes) (start size n : ℕ) (img : Bytes)
    → extract_image uf2 start size ≡ ok img
    → 0 < n
    → n ≤ size
    → (part : Bytes) × (extract_image uf2 start n ≡ ok part)
unfolding extract_image
extract_image_shorter uf2 start size n img h pos le =
    let nonzero : (size == 0) ≡ false = ground arith in
    let (bs, read, _) =
      >>=-eq-ok (blocks uf2) (λ bs. read_canvas start (filled uf2 start size bs))
        (rw nonzero at h) in
    let (_, bytes) = extract_image-byte_at uf2 start size bs read img h in
    extract_image_total uf2 start n bs read pos
      (λ i lt none_there. cc (bytes i (omega arith), none_there))
