-- ===== src/Types/Validate.antt =====
-- `validate` and `load` of src/mcu_updater/typelist.py.
use mcu_updater.Base.{
  Bool, not, ◌&&◌, Option, none, some, is_some, List, [], ◌∷◌, ◌++◌, map, length, is_empty, ltb,
  if◌then◌else◌,
}
use mcu_updater.Base.Text.{Text, codes, text_eq}
use mcu_updater.Base.Result.{Result, ok, err, ◌>>=◌}
use mcu_updater.Cfg.Parse.{has_text, parse}
use mcu_updater.Cfg.Doc.{Doc, of_text}
use mcu_updater.Types.Defs.{
  Block, has_key, FirmwareFamily, TypeEntry, Families, family_of, load_from_doc, read,
}

-- ConfigCorruptError, with its data
pub data ConfigCorruptError : Type 0 where
  unreadable : ConfigCorruptError
  duplicate_sections : List Text → ConfigCorruptError
  unknown_builders : List (Text × Text) → ConfigCorruptError
  no_flashers : List Text → ConfigCorruptError
  unknown_flashers : List (Text × List Text) → ConfigCorruptError
  cannot_provision : List Text → ConfigCorruptError
  renamed_key : Text → Text → ConfigCorruptError
  removed_key : Text → Text → ConfigCorruptError
  no_firmware : Text → ConfigCorruptError
  mixed_builders : Text → List Text → ConfigCorruptError
  missing_families : List (Text × List Text) → ConfigCorruptError

abbrev pub builders_known : List Text
builders_known = codes "cmake" ∷ codes "kconfig_make" ∷ codes "platformio" ∷ []

abbrev pub flashers_known : List Text
flashers_known = codes "bootsel" ∷ codes "dfu_util" ∷ codes "flashtool" ∷ codes "platformio" ∷ []

abbrev pub provisioning_helpers : List Text
provisioning_helpers = codes "roadrunner" ∷ []

abbrev pub renamed_keys : List Text
renamed_keys = codes "env" ∷ codes "profile" ∷ codes "device_map" ∷ []

abbrev pub removed_keys : List Text
removed_keys = codes "klipper_section" ∷ []

-- [x for x in xs if p(x)]
unfoldable pub only {ℓ} : {A : Type ℓ} → (A → Bool) → List A → List A
only p [] = []
only p (x ∷ xs) = let rest = only p xs in if p x then x ∷ rest else rest

-- raise where something was found
unfoldable pub refuse_any {ℓ} :
    {A : Type ℓ} → (List A → ConfigCorruptError) → List A → Result ConfigCorruptError (Unit {0})
refuse_any error [] = ok tt
refuse_any error (x ∷ xs) = err (error (x ∷ xs))

abbrev pub bad_builder : Text × FirmwareFamily → Bool
bad_builder (n, f) = not (has_text f.builder builders_known)

abbrev pub bare : Text × FirmwareFamily → Bool
bare (n, f) = is_empty f.flashers

abbrev pub unknown_of : FirmwareFamily → List Text
unknown_of f = only (λ t. not (has_text t flashers_known)) f.flashers

abbrev pub bad_flasher : Text × FirmwareFamily → Bool
bad_flasher (n, f) = not (is_empty (unknown_of f))

abbrev pub bad_provision : Text × FirmwareFamily → Bool
bad_provision (n, f) = f.auto_provision && not (has_text f.helper provisioning_helpers)

-- _refuse_family_keys
unfoldable pub refuse_family_keys : Families → Result ConfigCorruptError (Unit {0})
refuse_family_keys families = do
  _ ← refuse_any (λ fs. no_flashers (map (λ nf. nf.1.name) fs)) (only bare families)
  _ ←
      refuse_any (λ fs. unknown_flashers (map (λ nf. (nf.1.name, unknown_of nf.1)) fs))
        (only bad_flasher families)
  refuse_any (λ fs. cannot_provision (map (λ nf. nf.1.name) fs)) (only bad_provision families)

-- refuse_renamed_keys: the first of each that the block has
unfoldable pub refuse_keys :
    (Text → ConfigCorruptError) → Block → List Text → Result ConfigCorruptError (Unit {0})
refuse_keys error b [] = ok tt
refuse_keys error b (key ∷ keys) =
    let rest = refuse_keys error b keys in if has_key b key then err (error key) else rest

-- missing.setdefault(name, []).append(fw)
unfoldable pub note_missing : Text → Text → List (Text × List Text) → List (Text × List Text)
note_missing name fw [] = (name, fw ∷ []) ∷ []
note_missing name fw ((n, fws) ∷ missing) =
    let rest = note_missing name fw missing in
    if text_eq n name then (n, fws ++ (fw ∷ [])) ∷ missing else (n, fws) ∷ rest

unfoldable pub note_undeclared :
    Families → Text → List Text → List (Text × List Text) → List (Text × List Text)
note_undeclared families name [] missing = missing
note_undeclared families name (fw ∷ fws) missing =
    note_undeclared families name fws
      (if is_some (family_of families fw) then missing else note_missing name fw missing)

-- list(dict.fromkeys(ts)); a set, where only its size is asked
unfoldable pub unique_from : List Text → List Text → List Text
unique_from seen [] = []
unique_from seen (t ∷ ts) =
    let rest = unique_from (t ∷ seen) ts in
    let others = unique_from seen ts in if has_text t seen then others else t ∷ rest

abbrev pub unique : List Text → List Text
unique = unique_from []

abbrev pub named_builders : TypeEntry → List Text
named_builders e = unique (only (λ b. not (is_empty b)) e.builders)

unfoldable pub validate_firmwares :
    Families
    → TypeEntry
    → List (Text × List Text)
    → Result ConfigCorruptError (List (Text × List Text))
validate_firmwares families e missing =
    if is_empty e.firmwares
    then err (no_firmware e.name)
    else if ltb 1 (length (named_builders e))
    then err (mixed_builders e.name e.firmwares)
    else ok (note_undeclared families e.name e.firmwares missing)

-- one round of the loop over the entries
unfoldable pub validate_entry :
    Families
    → TypeEntry
    → List (Text × List Text)
    → Result ConfigCorruptError (List (Text × List Text))
validate_entry families e missing = do
  _ ← refuse_keys (renamed_key e.name) e.block renamed_keys
  _ ← refuse_keys (removed_key e.name) e.block removed_keys
  validate_firmwares families e missing

unfoldable pub validate_entries :
    Families
    → List TypeEntry
    → List (Text × List Text)
    → Result ConfigCorruptError (List (Text × List Text))
validate_entries families [] missing = ok missing
validate_entries families (e ∷ es) missing =
    validate_entry families e missing >>= validate_entries families es

unfoldable pub validate : List TypeEntry → Families → Result ConfigCorruptError (Unit {0})
validate entries families = do
  _ ←
      refuse_any (λ fs. unknown_builders (map (λ nf. (nf.0, nf.1.builder)) fs))
        (only bad_builder families)
  _ ← refuse_family_keys families
  missing ← validate_entries families entries []
  refuse_any (λ ms. missing_families (map (λ m. (m.0, unique m.1)) ms)) missing

-- The registry file as it is found.
pub data ConfigFile : Type 0 where
  os_error absent : ConfigFile
  text : Text → ConfigFile

-- read_doc
unfoldable pub read_doc : ConfigFile → Result ConfigCorruptError (Option Doc)
read_doc os_error = err unreadable
read_doc absent = ok none
read_doc (text t) =
    let doc = of_text t in
    let dupes = (parse doc.lines).duplicates in
    if is_empty dupes then ok (some doc) else err (duplicate_sections dupes)

unfoldable pub load_doc : Option Doc → Result ConfigCorruptError (List TypeEntry)
load_doc none = ok []
load_doc (some doc) =
    let families = load_from_doc doc in
    let entries = read doc families in do _ ← validate entries families; ok entries

unfoldable pub load : ConfigFile → Result ConfigCorruptError (List TypeEntry)
load f = read_doc f >>= load_doc
