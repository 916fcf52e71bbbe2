-- ===== src/Types/Buildable.antt =====
-- What a configuration that src/mcu_updater/typelist.py loads is good for.
use mathlib.Core.Path.{subst}
use mcu_updater.Base.{
  ◌≡◌, refl, sym, ap, ◌∙◌, true, false, not, Option, none, some, is_some, List, [], ◌∷◌, map,
  length, is_empty, ltb, if◌then◌else◌, All, arith, Bool-cases, inl, inr,
}
use mcu_updater.Base.Text.{Text, codes, text_eq}
use mcu_updater.Base.Result.{ok, err, >>=-eq-ok, ok-injective}
use mcu_updater.Cfg.Parse.{has_text, parse}
use mcu_updater.Cfg.Single.{header_names, IsSingle, parse-IsSingle}
use mcu_updater.Cfg.Doc.{Doc, of_text, section_names}
use mcu_updater.Types.Defs.{
  FirmwareFamily, TypeEntry, Families, family_of, builder_of, builder, first_of, declared_name,
  entry_from, entries_from, read, load_from_doc,
}
use mcu_updater.Types.Validate.{
  duplicate_sections, only, refuse_any, unique, builders_known, bad_builder, bare,
  refuse_family_keys, validate_entries, validate, text, read_doc, load_doc, load,
}
use mcu_updater.Types.Checks.{
  refuse_any-ok, only-empty, family_of-All, unique_one, Passes, validate_entries-ok,
}

-- The family is declared, its builder is one that there is, and something can flash it.
unfoldable pub IsUsable : Families → Text → Text → Type 0
IsUsable fs wanted fw =
    (f : FirmwareFamily) × (family_of fs fw ≡ some f)
    × (f.builder ≡ wanted)
    × (is_empty f.flashers ≡ false)

-- One builder that there is builds every family that the type names, and it names one.
unfoldable pub IsBuildable : Families → TypeEntry → Type 0
IsBuildable fs e =
    (is_empty e.firmwares ≡ false)
    × (has_text (builder e) builders_known ≡ true)
    × All (IsUsable fs (builder e)) e.firmwares

-- The families have passed.
module _ (fs : Families) (known : All (λ nf. bad_builder nf ≡ false) fs)
    (flashed : All (λ nf. bare nf ≡ false) fs) where
  abbrev Sound : Text → Type 0
  Sound fw =
      (f : FirmwareFamily) × (family_of fs fw ≡ some f)
      × (has_text f.builder builders_known ≡ true)
      × (is_empty f.flashers ≡ false)

  declared-Sound : (fw : Text) → is_some (family_of fs fw) ≡ true → Sound fw
  declared-Sound fw h = found (family_of fs fw) refl h
    where
      found : (o : Option FirmwareFamily) → family_of fs fw ≡ o → is_some o ≡ true → Sound fw
      found none e h = cc h
      found (some f) e h =
          let (n, builds) = family_of-All (λ nf. bad_builder nf ≡ false) fs fw f known e in
          let (m, flashes) = family_of-All (λ nf. bare nf ≡ false) fs fw f flashed e in
          (f, e, ground (arith, builds), flashes)

  All-Sound : (fws : List Text) → All (λ fw. is_some (family_of fs fw) ≡ true) fws → All Sound fws
  All-Sound [] h = tt
  All-Sound (fw ∷ fws) (this, others) = (declared-Sound fw this, All-Sound fws others)

  known_full : (b : Text) → has_text b builders_known ≡ true → not (is_empty b) ≡ true
  unfolding has_text text_eq
  known_full [] h = cc h
  known_full (c ∷ b) h = refl

  builder_of-Sound : (fw : Text) (s : Sound fw) → builder_of fs fw ≡ s.0.builder
  unfolding builder_of
  builder_of-Sound fw (f, e, known, flashed) = rw (e, builder_of) refl

  -- No builder is left out.
  only-Sound :
      (fws : List Text)
      → All Sound fws
      → only (λ b. not (is_empty b)) (map (builder_of fs) fws) ≡ map (builder_of fs) fws
  unfolding only
  only-Sound [] h = refl
  only-Sound (fw ∷ fws) (this, others) =
      let full : not (is_empty (builder_of fs fw)) ≡ true =
        rw (builder_of-Sound fw this) (known_full this.0.builder this.2) in
      rw (full, only-Sound fws others) refl

  usable :
      (b : Text) (fws : List Text)
      → All Sound fws
      → All (λ c. c ≡ b) (map (builder_of fs) fws)
      → All (IsUsable fs b) fws
  unfolding IsUsable
  usable b [] s h = tt
  usable b (fw ∷ fws) ((f, e, k, flashes), others) (same, rest) = (
    (f, e, sym (builder_of-Sound fw (f, e, k, flashes)) ∙ same, flashes),
    usable b fws others rest,
  )

  -- The first builder is every family's.
  one_builder :
      (fws : List Text)
      → is_empty fws ≡ false
      → ltb 1 (length (unique (only (λ b. not (is_empty b)) (map (builder_of fs) fws)))) ≡ false
      → All Sound fws
      → (has_text (first_of (map (builder_of fs) fws)) builders_known ≡ true)
        × All (IsUsable fs (first_of (map (builder_of fs) fws))) fws
  one_builder [] full one sound = cc full
  one_builder (fw ∷ fws) full one (this, others) =
      let first = builder_of-Sound fw this in
      let kept = only-Sound (fw ∷ fws) (this, others) in
      let same = unique_one (builder_of fs fw) (map (builder_of fs) fws) (rw (← kept) one) in
      (rw first this.2, usable (builder_of fs fw) (fw ∷ fws) (this, others) (refl, same))

  Passes-IsBuildable :
      (e : TypeEntry)
      → e.builders ≡ map (builder_of fs) e.firmwares
      → Passes fs e
      → IsBuildable fs e
  unfolding Passes IsBuildable builder
  Passes-IsBuildable e built (full, one, declared) =
      let (known, all) =
        one_builder e.firmwares full (rw (← built) one) (All-Sound e.firmwares declared) in
      (
        full,
        subst (λ bs. has_text (first_of bs) builders_known ≡ true) (sym built) known,
        subst (λ bs. All (IsUsable fs (first_of bs)) e.firmwares) (sym built) all,
      )

  All-IsBuildable :
      (es : List TypeEntry)
      → All (λ e. e.builders ≡ map (builder_of fs) e.firmwares) es
      → All (Passes fs) es
      → All (IsBuildable fs) es
  All-IsBuildable [] built passes = tt
  All-IsBuildable (e ∷ es) (this, others) (passes, rest) =
      (Passes-IsBuildable e this passes, All-IsBuildable es others rest)

-- What a section says of its builders.
entries_from-builders :
    (doc : Doc) (fs : Families) (ss : List Text)
    → All (λ e. e.builders ≡ map (builder_of fs) e.firmwares) (entries_from doc fs ss)
unfolding entries_from entry_from
entries_from-builders doc fs [] = tt
entries_from-builders doc fs (s ∷ ss) =
    elim (Bool-cases (is_empty (declared_name (codes "type") s))) [
      | inl h ↦ rw h (entries_from-builders doc fs ss)
      | inr h ↦ rw h (refl, entries_from-builders doc fs ss)
    ]

validate-IsBuildable :
    (es : List TypeEntry) (fs : Families)
    → All (λ e. e.builders ≡ map (builder_of fs) e.firmwares) es
    → validate es fs ≡ ok tt
    → All (IsBuildable fs) es
unfolding validate refuse_family_keys
validate-IsBuildable es fs built h =
    let (_, builders, after_builders) = >>=-eq-ok (refuse_any _ (only bad_builder fs)) _ h in
    let (_, families, after_families) = >>=-eq-ok (refuse_family_keys fs) _ after_builders in
    let (_, flashers, _) = >>=-eq-ok (refuse_any _ (only bare fs)) _ families in
    let (missing, entries, last) = >>=-eq-ok (validate_entries fs es []) _ after_families in
    let known = only-empty bad_builder fs (refuse_any-ok _ (only bad_builder fs) builders) in
    let flashed = only-empty bare fs (refuse_any-ok _ (only bare fs) flashers) in
    let complete = refuse_any-ok _ missing last in
    let (_, passes) = validate_entries-ok fs es [] (entries ∙ ap ok complete) in
    All-IsBuildable fs known flashed es built passes

read_doc-text :
    (t : Text) (o : Option Doc)
    → read_doc (text t) ≡ ok o
    → (o ≡ some (of_text t)) × ((parse (of_text t).lines).duplicates ≡ [])
unfolding read_doc
read_doc-text t o h = found (parse (of_text t).lines).duplicates h
  where
    found :
        (ds : List Text)
        → (if is_empty ds then ok (some (of_text t)) else err (duplicate_sections ds)) ≡ ok o
        → (o ≡ some (of_text t)) × (ds ≡ [])
    found [] h = (sym (ok-injective h), refl)
    found (d ∷ ds) h = cc h

-- When a configuration is loaded without an error, no two of its section headers have one name, and each
-- type it declares names at least one firmware family, all the families that it names are declared, have a flasher
-- and have the type's builder for their own, and that builder is one that a provider implements.
pub load-IsBuildable :
    (t : Text) (es : List TypeEntry)
    → load (text t) ≡ ok es
    → IsSingle (header_names (of_text t).lines) × All (IsBuildable (load_from_doc (of_text t))) es
unfolding load load_doc read
load-IsBuildable t es h =
    let (found, opened, loaded) = >>=-eq-ok (read_doc (text t)) load_doc h in
    let (whole, single) = read_doc-text t found opened in
    let doc = of_text t in
    let listed : load_doc (some doc) ≡ ok es = subst (λ o. load_doc o ≡ ok es) whole loaded in
    let fs = load_from_doc doc in
    let (_, valid, answer) = >>=-eq-ok (validate (read doc fs) fs) (λ _. ok (read doc fs)) listed in
    let built = entries_from-builders doc fs (section_names doc (some (codes "type"))) in
    let all = validate-IsBuildable (read doc fs) fs built valid in
    (
      parse-IsSingle doc.lines single,
      subst (λ ls. All (IsBuildable fs) ls) (ok-injective answer) all,
    )
