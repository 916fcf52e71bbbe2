-- ===== src/Types/Checks.antt =====
-- What each check of `validate` (src/mcu_updater/typelist.py) lets through.
use mcu_updater.Base.{
  ◌≡◌, refl, sym, ap, ◌∙◌, Bool, true, false, some, is_some, List, [], ◌∷◌, length, is_empty, ltb,
  All, arith, Bool-cases, inl, inr,
}
use mcu_updater.Base.Text.{Text, text_eq, text_eq_iff}
use mcu_updater.Base.Result.{ok, err, ◌>>=◌, >>=-eq-ok, ok-injective}
use mcu_updater.Cfg.Parse.{has_text}
use mcu_updater.Types.Defs.{FirmwareFamily, TypeEntry, Families, family_of}
use mcu_updater.Types.Validate.{
  ConfigCorruptError, no_firmware, mixed_builders, only, refuse_any, note_missing, note_undeclared,
  unique_from, unique, named_builders, refuse_keys, renamed_key, removed_key, renamed_keys,
  removed_keys, validate_firmwares, validate_entry, validate_entries,
}

pub refuse_any-ok {ℓ} :
    {A : Type ℓ} (error : List A → ConfigCorruptError) (xs : List A)
    → refuse_any error xs ≡ ok tt
    → xs ≡ []
unfolding refuse_any
refuse_any-ok error [] h = refl
refuse_any-ok error (x ∷ xs) h = cc h

pub only-empty {ℓ} :
    {A : Type ℓ} (p : A → Bool) (xs : List A) → only p xs ≡ [] → All (λ x. p x ≡ false) xs
unfolding only
only-empty p [] h = tt
only-empty p (x ∷ xs) h = elim (Bool-cases (p x)) [
  | inl k ↦ let found : x ∷ only p xs ≡ [] = rw (← h, k) refl in cc found
  | inr k ↦ let rest : only p xs ≡ [] = rw (← h, k) refl in (k, only-empty p xs rest)
]

pub family_of-All {ℓ} :
    (P : Text × FirmwareFamily → Type ℓ) (fs : Families) (fw : Text) (f : FirmwareFamily)
    → All P fs
    → family_of fs fw ≡ some f
    → (n : Text) × P (n, f)
unfolding family_of
family_of-All P [] fw f h e = cc e
family_of-All P ((n, g) ∷ fs) fw f (this, others) e = elim (Bool-cases (text_eq n fw)) [
  | inl k ↦ let same : g ≡ f = cc (e, k) in (n, rw (← same) this)
  | inr k ↦ family_of-All P fs fw f others (rw (← e, k) refl)
]

note_missing-cons :
    (name fw : Text) (missing : List (Text × List Text))
    → is_empty (note_missing name fw missing) ≡ false
unfolding note_missing
note_missing-cons name fw [] = refl
note_missing-cons name fw ((n, fws) ∷ missing) = ground arith

note_undeclared-empty :
    (fs : Families) (name : Text) (fws : List Text) (missing : List (Text × List Text))
    → note_undeclared fs name fws missing ≡ []
    → (missing ≡ []) × All (λ fw. is_some (family_of fs fw) ≡ true) fws
unfolding note_undeclared
note_undeclared-empty fs name [] missing h = (h, tt)
note_undeclared-empty fs name (fw ∷ fws) missing h = elim (Bool-cases (is_some (family_of fs fw))) [
  | inl k ↦
      let same : note_undeclared fs name fws missing ≡ [] = rw (← h, k) refl in
      let (nothing, declared) = note_undeclared-empty fs name fws missing same in
      (nothing, (k, declared))
  | inr k ↦
      let noted : note_undeclared fs name fws (note_missing name fw missing) ≡ [] =
        rw (← h, k) refl in
      let (nothing, declared) =
        note_undeclared-empty fs name fws (note_missing name fw missing) noted in
      cc (ap {A = List (Text × List Text)} is_empty nothing, note_missing-cons name fw missing)
]

-- Not more than one text among them.
unique_from-seen : (b : Text) (bs : List Text) → unique_from (b ∷ []) bs ≡ [] → All (λ c. c ≡ b) bs
unfolding unique_from has_text
unique_from-seen b [] h = tt
unique_from-seen b (c ∷ cs) h = elim (Bool-cases (text_eq b c)) [
  | inl k ↦
      let later : unique_from (b ∷ []) cs ≡ unique_from (b ∷ []) (c ∷ cs) = rw k refl in
      let rest : unique_from (b ∷ []) cs ≡ [] = later ∙ h in
      (sym ((text_eq_iff b c).0 k), unique_from-seen b cs rest)
  | inr k ↦
      let later : c ∷ unique_from (c ∷ b ∷ []) cs ≡ unique_from (b ∷ []) (c ∷ cs) = rw k refl in
      cc (later, h)
]

short_list : (ts : List Text) (b : Text) → ltb 1 (length (b ∷ ts)) ≡ false → ts ≡ []
short_list [] b h = refl
short_list (t ∷ ts) b h = ground (arith, h)

pub unique_one :
    (b : Text) (bs : List Text) → ltb 1 (length (unique (b ∷ bs))) ≡ false → All (λ c. c ≡ b) bs
unfolding unique_from has_text
unique_one b bs h = unique_from-seen b bs (short_list (unique_from (b ∷ []) bs) b h)

-- What an entry that passes has.
unfoldable pub Passes : Families → TypeEntry → Type 0
Passes fs e =
    (is_empty e.firmwares ≡ false)
    × (ltb 1 (length (named_builders e)) ≡ false)
    × All (λ fw. is_some (family_of fs fw) ≡ true) e.firmwares

validate_firmwares-ok :
    (fs : Families) (e : TypeEntry) (missing : List (Text × List Text))
    → validate_firmwares fs e missing ≡ ok []
    → (missing ≡ []) × Passes fs e
unfolding validate_firmwares Passes
validate_firmwares-ok fs e missing h = elim (Bool-cases (is_empty e.firmwares)) [
  | inl k ↦
      let raised : validate_firmwares fs e missing ≡ err (no_firmware e.name) = rw k refl in
      cc (raised, h)
  | inr k ↦ elim (Bool-cases (ltb 1 (length (named_builders e)))) [
    | inl m ↦
        let raised : validate_firmwares fs e missing ≡ err (mixed_builders e.name e.firmwares) =
          rw k (rw m refl) in
        cc (raised, h)
    | inr m ↦
        let noted : validate_firmwares fs e missing
            ≡ ok (note_undeclared fs e.name e.firmwares missing) =
          rw k (rw m refl) in
        let (nothing, declared) =
          note_undeclared-empty fs e.name e.firmwares missing (ok-injective (sym noted ∙ h)) in
        (nothing, (k, m, declared))
  ]
]

validate_entry-ok :
    (fs : Families) (e : TypeEntry) (missing : List (Text × List Text))
    → validate_entry fs e missing ≡ ok []
    → (missing ≡ []) × Passes fs e
unfolding validate_entry
validate_entry-ok fs e missing h =
    let (_, _, later) =
      >>=-eq-ok (refuse_keys (renamed_key e.name) e.block renamed_keys)
        (λ _. refuse_keys (removed_key e.name) e.block removed_keys >>= λ _.
          validate_firmwares fs e missing)
        h in
    let (_, _, last) =
      >>=-eq-ok (refuse_keys (removed_key e.name) e.block removed_keys)
        (λ _. validate_firmwares fs e missing) later in
    validate_firmwares-ok fs e missing last

pub validate_entries-ok :
    (fs : Families) (es : List TypeEntry) (missing : List (Text × List Text))
    → validate_entries fs es missing ≡ ok []
    → (missing ≡ []) × All (Passes fs) es
unfolding validate_entries
validate_entries-ok fs [] missing h = (ok-injective h, tt)
validate_entries-ok fs (e ∷ es) missing h =
    let (next, first, later) = >>=-eq-ok (validate_entry fs e missing) (validate_entries fs es) h in
    let (nothing, others) = validate_entries-ok fs es next later in
    let (before, this) = validate_entry-ok fs e missing (first ∙ ap ok nothing) in
    (before, (this, others))
