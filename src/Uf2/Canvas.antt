-- ===== src/Uf2/Canvas.antt =====
-- What a canvas shows at a slot, and how placing bytes changes it.
use mcu_updater.Base.{
  ℕ, zero, suc, ◌+◌, ◌-◌, ◌<◌, ◌≡◌, ◌&&◌, Option, none, some, length, get_or, set, leb, ltb, ◌==◌,
  if◌then◌else◌, arith, inl, inr, ◌∙◌, Bool-cases, length-set, get_or-set_self, get_or-set_ne,
  length-replicate, get_or-replicate,
}
use native.Mathlib.Decide.{ℕ_discrete}
use mcu_updater.Base.Bytes.{Bytes}
use mcu_updater.Uf2.Container.{Block}
use mcu_updater.Uf2.Image.{Canvas, blank, payload_byte, place_byte, place_bytes}

-- The byte at a slot, if it was written.
abbrev pub view : Canvas → ℕ → Option ℕ
view c i = if get_or c.covered i 0 == 0 then none else some (get_or c.image i 0)

pub record HasSize (size : ℕ) (c : Canvas) : Type 0 where
  pub image : length c.image ≡ size
  pub covered : length c.covered ≡ size

pub blank-HasSize : (size : ℕ) → HasSize size (blank size)
blank-HasSize size = record { image = length-replicate size 0; covered = length-replicate size 0 }

pub view-blank : (size i : ℕ) → view (blank size) i ≡ none
view-blank size i = rw (get_or-replicate {A = ℕ} size i 0)

-- The byte that block `b` puts at address `a` in the rounds `index` to `index + n` of its loop.
abbrev pub supplied : Bytes → Block → ℕ → ℕ → ℕ → Option ℕ
supplied uf2 b index n a =
    if leb (b.target + index) a && ltb a (b.target + index + n)
    then some (payload_byte uf2 b (a - b.target))
    else none

abbrev pub or_else : Option ℕ → Option ℕ → Option ℕ
or_else (some v) o = some v
or_else none o = o

view-set :
    (size slot i v : ℕ) (c : Canvas)
    → HasSize size c
    → slot < size
    → i < size
    → view (record { image = set c.image slot v; covered = set c.covered slot 1 }) i
      ≡ (if slot == i then some v else view c i)
view-set size slot i v c h ls li = elim (ℕ_discrete slot i) [
  | yes e ↦
      ground (
        arith,
        e,
        h.image,
        h.covered,
        get_or-set_self c.image i v 0,
        get_or-set_self c.covered i 1 0,
      )
  | no d ↦ ground (arith, d, get_or-set_ne c.image slot i v 0, get_or-set_ne c.covered slot i 1 0)
]

module _ (uf2 : Bytes) (b : Block) (start size : ℕ) where
  pub place_byte-HasSize :
      (index : ℕ) (c : Canvas) → HasSize size c → HasSize size (place_byte uf2 b start size index c)
  unfolding place_byte
  place_byte-HasSize index c h =
      let slot = b.target + index - start in
      ground (
        arith,
        h.image,
        h.covered,
        length-set c.image slot (payload_byte uf2 b index),
        length-set c.covered slot 1,
      )

  view-place_byte :
      (index i : ℕ) (c : Canvas)
      → HasSize size c
      → i < size
      → view (place_byte uf2 b start size index c) i
        ≡ or_else (supplied uf2 b index 1 (start + i)) (view c i)
  unfolding place_byte
  view-place_byte index i c h lt =
      let slot = b.target + index - start in
      let v = payload_byte uf2 b index in
      elim (Bool-cases (leb start (b.target + index) && ltb (b.target + index) (start + size))) [
        | inl inside ↦ rw inside (view-set size slot i v c h (ground arith) lt ∙ ground arith)
        | inr outside ↦ rw outside ground arith
      ]

  supplied_step :
      (n index a : ℕ) (o : Option ℕ)
      → or_else (supplied uf2 b (suc index) n a) (or_else (supplied uf2 b index 1 a) o)
        ≡ or_else (supplied uf2 b index (suc n) a) o
  supplied_step n index a o = ground arith

  supplied-none : (index a : ℕ) → supplied uf2 b index 0 a ≡ none
  supplied-none index a = ground arith

  pub place_bytes-HasSize :
      (n index : ℕ) (c : Canvas)
      → HasSize size c
      → HasSize size (place_bytes uf2 b start size n index c)
  unfolding place_bytes
  place_bytes-HasSize zero index c h = h
  place_bytes-HasSize (suc n) index c h =
      place_bytes-HasSize n (suc index) (place_byte uf2 b start size index c)
        (place_byte-HasSize index c h)

  pub view-place_bytes :
      (n index i : ℕ) (c : Canvas)
      → HasSize size c
      → i < size
      → view (place_bytes uf2 b start size n index c) i
        ≡ or_else (supplied uf2 b index n (start + i)) (view c i)
  unfolding place_bytes
  view-place_bytes zero index i c h lt = rw (supplied-none index (start + i))
  view-place_bytes (suc n) index i c h lt =
      view-place_bytes n (suc index) i (place_byte uf2 b start size index c)
        (place_byte-HasSize index c h) lt
      ∙ (rw (view-place_byte index i c h lt) (supplied_step n index (start + i) (view c i)))
