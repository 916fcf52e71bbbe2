-- ===== src/Uf2/Extent.antt =====
-- `image_extent` is the smallest range that holds every byte the container places.
use native.Mathlib.Decide.{dec_le}
use mathlib.Core.Path.{subst}
use mcu_updater.Base.{
  ℕ, ◌+◌, ◌-◌, ◌<◌, ◌≤◌, ◌≡◌, ◌≢◌, refl, sym, Bool, true, false, not, ◌&&◌, none, some, List, [],
  ◌∷◌, All, ◌==◌, if◌then◌else◌, min, max, arith, ◌⊎◌, inl, inr, Bool-cases, Option,
}
use mcu_updater.Base.Bytes.{Bytes}
use mcu_updater.Base.Result.{ok}
use mcu_updater.Uf2.Container.{Block, is_main, blocks}
use mcu_updater.Uf2.Image.{spans, lowest, highest, span_extent, image_extent}
use mcu_updater.Uf2.Canvas.{or_else}
use mcu_updater.Uf2.Extraction.{block_byte, byte_at}

-- Every span lies in the range.
abbrev Within : ℕ → ℕ → List (ℕ × ℕ) → Type 0
Within lo hi = All (λ s. (lo ≤ s.0) × (s.1 ≤ hi))

lowest-le : (m : ℕ) (ss : List (ℕ × ℕ)) → (lowest m ss ≤ m) × All (λ s. lowest m ss ≤ s.0) ss
unfolding lowest
lowest-le m [] = (omega arith, tt)
lowest-le m (s ∷ ss) = let (a, b) = lowest-le (min m s.0) ss in (omega arith, (omega arith, b))

le-highest : (m : ℕ) (ss : List (ℕ × ℕ)) → (m ≤ highest m ss) × All (λ s. s.1 ≤ highest m ss) ss
unfolding highest
le-highest m [] = (omega arith, tt)
le-highest m (s ∷ ss) = let (a, b) = le-highest (max m s.1) ss in (omega arith, (omega arith, b))

-- The address is in one of the spans.
abbrev InSpans : ℕ → List (ℕ × ℕ) → Type 0
InSpans a [] = ⊥
InSpans a (s ∷ ss) = ((s.0 ≤ a) × (a < s.1)) ⊎ InSpans a ss

module _ (a : ℕ) (s : ℕ × ℕ) (rest : List (ℕ × ℕ)) where
  InSpans-keep : (t : Bool) → InSpans a rest → InSpans a (if t then s ∷ rest else rest)
  InSpans-keep true h = inr h
  InSpans-keep false h = h

  InSpans-add : (t : Bool) → t ≡ true → s.0 ≤ a → a < s.1 → InSpans a (if t then s ∷ rest else rest)
  InSpans-add true e low high = inl (low, high)
  InSpans-add false e low high = cc

  InSpans-split :
      (t : Bool)
      → InSpans a (if t then s ∷ rest else rest)
      → ((t ≡ true) × (s.0 ≤ a) × (a < s.1)) ⊎ InSpans a rest
  InSpans-split true (inl h) = inl (refl, h.0, h.1)
  InSpans-split true (inr h) = inr h
  InSpans-split false h = inr h

abbrev counts : Block → Bool
counts b = is_main b && not (b.payload_size == 0)

block_byte_some :
    (uf2 : Bytes) (b : Block) (a : ℕ)
    → block_byte uf2 b a ≢ none
    → (counts b ≡ true) × (b.target ≤ a) × (a < b.target + b.payload_size)
unfolding block_byte
block_byte_some uf2 b a h = ground (arith, h)

block_byte_covers :
    (uf2 : Bytes) (b : Block) (a : ℕ)
    → counts b ≡ true
    → b.target ≤ a
    → a < b.target + b.payload_size
    → block_byte uf2 b a ≢ none
unfolding block_byte
block_byte_covers uf2 b a m low high = ground arith

or_else_ne_none : (p q : Option ℕ) → or_else p q ≢ none → (p ≢ none) ⊎ (q ≢ none)
or_else_ne_none none q h = inr h
or_else_ne_none (some v) q h = inl h

or_else_left : (p q : Option ℕ) → p ≢ none → or_else p q ≢ none
or_else_left none q h = absurd (h refl)
or_else_left (some v) q h = h

or_else_right : (p q : Option ℕ) → q ≢ none → or_else p q ≢ none
or_else_right none q h = h
or_else_right (some v) q h = λ e. cc

byte_at-InSpans :
    (uf2 : Bytes) (bs : List Block) (a : ℕ) → byte_at uf2 bs a ≢ none → InSpans a (spans bs)
unfolding byte_at spans
byte_at-InSpans uf2 [] a h = h refl
byte_at-InSpans uf2 (b ∷ bs) a h =
    let s : ℕ × ℕ = (b.target, b.target + b.payload_size) in
    elim (or_else_ne_none (byte_at uf2 bs a) (block_byte uf2 b a) h) [
      | inl later ↦ InSpans-keep a s (spans bs) (counts b) (byte_at-InSpans uf2 bs a later)
      | inr mine ↦
          let f = block_byte_some uf2 b a mine in InSpans-add a s (spans bs) (counts b) f.0 f.1 f.2
    ]

InSpans-byte_at :
    (uf2 : Bytes) (bs : List Block) (a : ℕ) → InSpans a (spans bs) → byte_at uf2 bs a ≢ none
unfolding byte_at spans
InSpans-byte_at uf2 [] a h = absurd h
InSpans-byte_at uf2 (b ∷ bs) a h =
    let s : ℕ × ℕ = (b.target, b.target + b.payload_size) in
    elim (InSpans-split a s (spans bs) (counts b) h) [
      | inl (m, low, high) ↦
          or_else_right (byte_at uf2 bs a) _ (block_byte_covers uf2 b a m low high)
      | inr later ↦ or_else_left _ (block_byte uf2 b a) (InSpans-byte_at uf2 bs a later)
    ]

spans_nonempty : (bs : List Block) → All (λ s. s.0 < s.1) (spans bs)
unfolding spans
spans_nonempty [] = tt
spans_nonempty (b ∷ bs) = elim (Bool-cases (counts b)) [
  | inl m ↦ rw m (ground arith, spans_nonempty bs)
  | inr m ↦ rw m (spans_nonempty bs)
]

InSpans-Within :
    (a lo hi : ℕ) (ss : List (ℕ × ℕ))
    → All (λ s. lo ≤ s.0) ss
    → All (λ s. s.1 ≤ hi) ss
    → InSpans a ss
    → (lo ≤ a) × (a < hi)
InSpans-Within a lo hi [] l h i = absurd i
InSpans-Within a lo hi (s ∷ ss) l h (inl i) = (omega arith, omega arith)
InSpans-Within a lo hi (s ∷ ss) l h (inr i) = InSpans-Within a lo hi ss l.1 h.1 i

lowest-InSpans :
    (m : ℕ) (ss : List (ℕ × ℕ))
    → All (λ s. s.0 < s.1) ss
    → (lowest m ss ≡ m) ⊎ InSpans (lowest m ss) ss
unfolding lowest
lowest-InSpans m [] h = inl refl
lowest-InSpans m (s ∷ ss) h = elim (lowest-InSpans (min m s.0) ss h.1) [
  | inl e ↦ elim (dec_le m s.0) [ yes l ↦ inl (omega arith) | no l ↦ inr (inl (omega arith)) ]
  | inr i ↦ inr (inr i)
]

highest-InSpans :
    (m : ℕ) (ss : List (ℕ × ℕ))
    → All (λ s. s.0 < s.1) ss
    → (highest m ss ≡ m) ⊎ InSpans (highest m ss - 1) ss
unfolding highest
highest-InSpans m [] h = inl refl
highest-InSpans m (s ∷ ss) h = elim (highest-InSpans (max m s.1) ss h.1) [
  | inl e ↦ elim (dec_le s.1 m) [ yes l ↦ inl (omega arith) | no l ↦ inr (inl (omega arith)) ]
  | inr i ↦ inr (inr i)
]

-- What the extent of a list of spans gives.
record IsExtent (ss : List (ℕ × ℕ)) (start size : ℕ) : Type 0 where
  holds : (a : ℕ) → InSpans a ss → (start ≤ a) × (a < start + size)
  first : InSpans start ss
  last : InSpans (start + size - 1) ss

end_of : {l h a b : ℕ} → l ≤ a → b ≤ h → a < b → l + (h - l) - 1 ≡ h - 1
end_of p q r = omega arith

lowest-highest-IsExtent :
    (s : ℕ × ℕ) (ss : List (ℕ × ℕ))
    → All (λ t. t.0 < t.1) (s ∷ ss)
    → IsExtent (s ∷ ss) (lowest s.0 ss) (highest s.1 ss - lowest s.0 ss)
lowest-highest-IsExtent s ss h =
    let (l, ls) = lowest-le s.0 ss in
    let (g, gs) = le-highest s.1 ss in
    record {
      holds = λ a i.
          let w = InSpans-Within a (lowest s.0 ss) (highest s.1 ss) (s ∷ ss) (l, ls) (g, gs) i in
          (w.0, omega arith);
      first = elim (lowest-InSpans s.0 ss h.1) [ inl e ↦ inl (omega arith) | inr i ↦ inr i ];
      last =
          subst (λ a. InSpans a (s ∷ ss)) (sym (end_of l g h.0))
            (elim (highest-InSpans s.1 ss h.1) [ inl e ↦ inl (omega arith) | inr i ↦ inr i ]);
    }

span_extent-IsExtent :
    (ss : List (ℕ × ℕ)) (start size : ℕ)
    → All (λ t. t.0 < t.1) ss
    → span_extent ss ≡ ok (start, size)
    → IsExtent ss start size
unfolding span_extent
span_extent-IsExtent [] start size a h = cc
span_extent-IsExtent (s ∷ ss) start size a h =
    let p : lowest s.0 ss ≡ start = cc h in
    let q : highest s.1 ss - lowest s.0 ss ≡ size = cc h in
    rw (← p, ← q) (lowest-highest-IsExtent s ss a)

-- The extent holds every address that the container supplies, and its first and last address are
-- supplied: no smaller range would do.
pub image_extent-IsTight :
    (uf2 : Bytes) (bs : List Block) (start size : ℕ)
    → blocks uf2 ≡ ok bs
    → image_extent uf2 ≡ ok (start, size)
    → ((a : ℕ) → byte_at uf2 bs a ≢ none → (start ≤ a) × (a < start + size))
      × (0 < size)
      × (byte_at uf2 bs start ≢ none)
      × (byte_at uf2 bs (start + size - 1) ≢ none)
unfolding image_extent
image_extent-IsTight uf2 bs start size r h =
    let x = span_extent-IsExtent (spans bs) start size (spans_nonempty bs) (rw r at h) in
    (
      λ a supplied. x.holds a (byte_at-InSpans uf2 bs a supplied),
      omega (arith, x.holds start x.first),
      InSpans-byte_at uf2 bs start x.first,
      InSpans-byte_at uf2 bs (start + size - 1) x.last,
    )
