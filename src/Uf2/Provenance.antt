-- ===== src/Uf2/Provenance.antt =====
-- What a sidecar's digest fields say of the container that they describe.
use mathlib.Core.Path.{subst₂}
use mcu_updater.Base.{
  ℕ, ◌≤◌, ◌≡◌, ◌≢◌, refl, sym, ap, ◌∙◌, not, ◌||◌, Option, none, some, length, ltb, ◌==◌,
  if◌then◌else◌, arith, ◌⊎◌, inl, inr, Bool-cases,
}
use mcu_updater.Base.Text.{text_eq, text_eq_iff}
use mcu_updater.Base.Bytes.{Bytes}
use mcu_updater.Base.Result.{Result, ok, err, >>=-eq-ok, Result-cases}
use mcu_updater.Uf2.Image.{extract_image, image_extent}
use mcu_updater.Uf2.Extraction.{extract_image_shorter}
use mcu_updater.Uf2.Digest.{
  digest_crc32_iso_hdlc, crc32_iso_hdlc, image_digest, linked_length, DigestFields, describe,
  or_nothing, digest_fields,
}

-- The length that is recorded: the extent's, or that of a raw image equal to the container's bytes.
linked_length_cases :
    (uf2 : Bytes) (start size n : ℕ) (bin : Option Bytes)
    → linked_length uf2 start size bin ≡ ok n
    → (n ≡ size)
      ⊎ ((linked : Bytes) × (bin ≡ some linked)
          × (n ≡ length linked)
          × (n ≤ size)
          × (extract_image uf2 start n ≡ ok linked))
unfolding linked_length
linked_length_cases uf2 start size n none h = inl (cc h)
linked_length_cases uf2 start size n (some linked) h =
    elim (Bool-cases (length linked == 0 || ltb size (length linked))) [
      | inl skip ↦ inl (ground arith)
      | inr fits ↦
          let (img, p, q) =
            >>=-eq-ok (extract_image uf2 start (length linked))
              (λ img. ok (if not (text_eq img linked) then size else length linked))
              (rw fits at h) in
          elim (Bool-cases (text_eq img linked)) [
            | inl same ↦
                let e : length linked ≡ n = ground arith in
                inr (
                  linked,
                  refl,
                  sym e,
                  ground arith,
                  rw (← e) (p ∙ ap ok ((text_eq_iff img linked).0 same)),
                )
            | inr other ↦ inl (ground arith)
          ]
    ]

or_nothing-some {ℓ} : {E A : Type ℓ} (r : Result E A) {a : A} → or_nothing r ≡ some a → r ≡ ok a
or_nothing-some (ok b) h = cc
or_nothing-some (err e) h = cc

image_digest_ok :
    (uf2 : Bytes) (start size d : ℕ)
    → image_digest uf2 start size digest_crc32_iso_hdlc ≡ ok d
    → (img : Bytes) × (extract_image uf2 start size ≡ ok img) × (crc32_iso_hdlc img ≡ d)
unfolding image_digest
image_digest_ok uf2 start size d h =
    let (img, p, q) = >>=-eq-ok (extract_image uf2 start size) (λ img. ok (crc32_iso_hdlc img)) h in
    (img, p, cc q)

-- The stages of a description that succeeded.
record Described (uf2 : Bytes) (bin : Option Bytes) (f : DigestFields) : Type 0 where
  size : ℕ
  extent : image_extent uf2 ≡ ok (f.image_start, size)
  believed : linked_length uf2 f.image_start size bin ≡ ok f.image_length
  digested : image_digest uf2 f.image_start f.image_length digest_crc32_iso_hdlc ≡ ok f.digest
  algorithm : f.digest_algorithm ≡ digest_crc32_iso_hdlc

describe-Described :
    (uf2 : Bytes) (bin : Option Bytes) (f : DigestFields)
    → describe uf2 bin ≡ ok f
    → Described uf2 bin f
unfolding describe
describe-Described uf2 bin f h = elim (Result-cases (image_extent uf2)) [
  | inl (e, p) ↦ absurd (ground arith)
  | inr ((start, size), p) ↦ record {
    size = size;
    extent = ground arith;
    believed = ground arith;
    digested = ground arith;
    algorithm = ground arith;
  }
]

-- The fields that are recorded are those of an image that the container holds from the start of its
-- extent: the digest is the CRC of that image, its length is at most the extent's, and it is the whole
-- extent unless the raw image staged beside it is exactly those bytes.
pub digest_fields-image :
    (uf2 : Bytes) (bin : Option Bytes) (f : DigestFields)
    → digest_fields (some uf2) bin ≡ some f
    → (img : Bytes) × (size : ℕ) × (extract_image uf2 f.image_start f.image_length ≡ ok img)
      × (f.digest ≡ crc32_iso_hdlc img)
      × (f.digest_algorithm ≡ digest_crc32_iso_hdlc)
      × (image_extent uf2 ≡ ok (f.image_start, size))
      × (f.image_length ≤ size)
      × ((f.image_length ≡ size) ⊎ (bin ≡ some img))
unfolding digest_fields
digest_fields-image uf2 bin f h =
    let s = describe-Described uf2 bin f (or_nothing-some (describe uf2 bin) h) in
    let (img, p, q) = image_digest_ok uf2 f.image_start f.image_length f.digest s.digested in
    let c = linked_length_cases uf2 f.image_start s.size f.image_length bin s.believed in
    (
      img,
      s.size,
      p,
      sym q,
      s.algorithm,
      s.extent,
      elim c [ inl e ↦ omega arith | inr (_, _, _, le, _) ↦ le ],
      elim c [ inl e ↦ inl e | inr (linked, b, _, _, x) ↦ inr (cc (b, x, p)) ],
    )

linked_length_foreign :
    (uf2 linked img : Bytes) (start size : ℕ)
    → extract_image uf2 start (length linked) ≢ ok linked
    → extract_image uf2 start size ≡ ok img
    → linked_length uf2 start size (some linked) ≡ ok size
unfolding linked_length
linked_length_foreign uf2 linked img start size d x =
    elim (Bool-cases (length linked == 0 || ltb size (length linked))) [
      | inl skip ↦ rw skip
      | inr fits ↦
          let (part, p) =
            extract_image_shorter uf2 start size (length linked) img x (ground arith)
              (ground arith) in
          elim (Bool-cases (text_eq part linked)) [
            | inl same ↦ absurd (d (p ∙ ap ok ((text_eq_iff part linked).0 same)))
            | inr other ↦ rw (fits, p) (rw other)
          ]
    ]

linked_length-none : (uf2 : Bytes) (start size : ℕ) → linked_length uf2 start size none ≡ ok size
unfolding linked_length
linked_length-none uf2 start size = refl

describe_same :
    (uf2 linked img : Bytes) (start size : ℕ)
    → image_extent uf2 ≡ ok (start, size)
    → extract_image uf2 start (length linked) ≢ ok linked
    → extract_image uf2 start size ≡ ok img
    → describe uf2 (some linked) ≡ describe uf2 none
unfolding describe
describe_same uf2 linked img start size e d x = rw e (
    rw (linked_length_foreign uf2 linked img start size d x)
      (rw (linked_length-none uf2 start size)))

-- A raw image that was linked elsewhere, or is longer than the extent, never changes what is recorded.
pub digest_fields_foreign_bin :
    (uf2 linked : Bytes) (start size : ℕ) (f : DigestFields)
    → image_extent uf2 ≡ ok (start, size)
    → extract_image uf2 start (length linked) ≢ ok linked
    → digest_fields (some uf2) none ≡ some f
    → digest_fields (some uf2) (some linked) ≡ some f
unfolding digest_fields
digest_fields_foreign_bin uf2 linked start size f e d h =
    let whole = describe-Described uf2 none f (or_nothing-some (describe uf2 none) h) in
    let (img, p, _) = image_digest_ok uf2 f.image_start f.image_length f.digest whole.digested in
    let same_start : f.image_start ≡ start = ground (arith, whole.extent) in
    let same_size : f.image_length ≡ size =
      ground
        (arith, whole.extent, whole.believed, linked_length-none uf2 f.image_start whole.size) in
    let p' = subst₂ (λ a n. extract_image uf2 a n ≡ ok img) same_start same_size p in
    rw (describe_same uf2 linked img start size e d p') h
