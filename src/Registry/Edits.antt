-- ===== src/Registry/Edits.antt =====
-- The edits of `Registry` (src/mcu_updater/config.py) that reach the document.
use mcu_updater.Base.{
  Bool, true, false, not, ◌&&◌, none, some, is_some, List, [], ◌∷◌, ◌++◌, if◌then◌else◌,
}
use mcu_updater.Base.Text.{Text, codes, strip, text_eq}
use mcu_updater.Base.Result.{Result, ok, err, ◌>>=◌}
use mcu_updater.Cfg.Parse.{has_text}
use mcu_updater.Cfg.Render.{listed, lookup}
use mcu_updater.Cfg.Doc.{Doc, CfgError, get_list, set, remove_option, remove_section}
use mcu_updater.Types.Defs.{Families, family_of, load_from_doc}
use mcu_updater.Registry.Names.{InvalidTypeNameError, validate_type_name}
use mcu_updater.Registry.Defs.{
  FwConfig, McuType, Registry, Identity, serial, uuid, key_of, RegistryError, duplicate_type,
  invalid_name, undeclared_firmware, in_document, declared, declared_section, get_type,
  add_identity, remove_identity,
}

-- An edit of the document, its error passed on.
unfoldable pub edited : Registry → Result CfgError Doc → Result RegistryError Registry
edited reg (err e) = err (in_document e)
edited reg (ok doc) = ok (record reg { doc = doc })

-- [item for item in items if item != x]
unfoldable pub without : Text → List Text → List Text
without x [] = []
without x (y ∷ ys) = let rest = without x ys in if text_eq y x then rest else y ∷ rest

-- add_declared_serial and add_declared_canbus_uuid
unfoldable pub add_declared :
    Identity → Text → Text → Registry → Result RegistryError (Bool × Registry)
add_declared i name x reg = elim (lookup reg.types name) [
  | some m ↦ add_identity i name x reg
  | none ↦ do
    section ← declared_section reg name
    (if has_text x (get_list reg.doc section (key_of i)) then ok (false, reg) else do
      after ← edited reg (
          set section (key_of i) (listed (get_list reg.doc section (key_of i) ++ (x ∷ []))) reg.doc)
      ok (true, after))
]

-- What is left is written; an empty list of uuids is not.
unfoldable pub write_left : Identity → Text → List Text → Registry → Result RegistryError Registry
write_left uuid section [] reg = elim (remove_option section (key_of uuid) reg.doc) [
  | err e ↦ err (in_document e)
  | ok (found, doc) ↦ ok (record reg { doc = doc })
]
write_left i section xs reg = edited reg (set section (key_of i) (listed xs) reg.doc)

-- remove_declared_serial and remove_declared_canbus_uuid
unfoldable pub remove_declared :
    Identity → Text → Text → Registry → Result RegistryError (Bool × Registry)
remove_declared i name x reg = elim (lookup reg.types name) [
  | some m ↦ remove_identity i name x reg
  | none ↦ do
    section ← declared_section reg name
    (if not (has_text x (get_list reg.doc section (key_of i))) then ok (false, reg) else do
      after ← write_left i section (without x (get_list reg.doc section (key_of i))) reg
      ok (true, after))
]

unfoldable pub declared_serials : Registry → Text → Result RegistryError (List Text)
declared_serials reg name = elim (lookup reg.types name) [
  | some m ↦ ok m.serials
  | none ↦ do section ← declared_section reg name; ok (get_list reg.doc section (key_of serial))
]

-- del self.types[name], and pop
unfoldable pub drop_type : Text → List (Text × McuType) → List (Text × McuType)
drop_type name [] = []
drop_type name ((n, m) ∷ ts) =
    let rest = drop_type name ts in if text_eq n name then ts else (n, m) ∷ rest

-- _drop_section
unfoldable pub drop_section : Text → Registry → Result RegistryError Registry
drop_section name reg = elim (lookup (declared reg.doc) name) [
  | none ↦ ok reg
  | some section ↦ elim (remove_section section reg.doc) [
    | err e ↦ err (in_document e)
    | ok (found, doc) ↦ ok (record reg { doc = doc })
  ]
]

unfoldable pub remove_type : Text → Registry → Result RegistryError (McuType × Registry)
remove_type name reg = do
  m ← get_type reg name
  after ← drop_section name (record reg { types = drop_type name reg.types })
  ok (m, after)

unfoldable pub remove_declared_type : Text → Registry → Result RegistryError (List Text × Registry)
remove_declared_type name reg = do
  serials ← declared_serials reg name
  after ← drop_section name (record reg { types = drop_type name reg.types })
  ok (serials, after)

-- The arguments of add_type, beside the name
pub record NewType : Type 0 where
  pub chipset : Text
  pub klipper_args : Text
  pub katapult_args : Text
  pub katapult_installed : Bool
  pub application : Text
  pub profile : Text
  pub overwrite : Bool

abbrev pub firmwares_of : NewType → List Text
firmwares_of a =
    if a.katapult_installed && not (text_eq a.application (codes "katapult"))
    then a.application ∷ codes "katapult" ∷ []
    else a.application ∷ []

-- The first family that no section declares is refused.
unfoldable pub refuse_undeclared : Text → Families → List Text → Result RegistryError (Unit {0})
refuse_undeclared name families [] = ok tt
refuse_undeclared name families (fw ∷ fws) =
    let rest = refuse_undeclared name families fws in
    if is_some (family_of families fw) then rest else err (undeclared_firmware name fw)

-- self.types[name] = mcu
unfoldable pub put_type : Text → McuType → List (Text × McuType) → List (Text × McuType)
put_type name m [] = (name, m) ∷ []
put_type name m ((n, k) ∷ ts) =
    let rest = put_type name m ts in if text_eq n name then (n, m) ∷ ts else (n, k) ∷ rest

abbrev pub extra : Text → FwConfig
extra args = record { extra_args = args; makefile_patches = []; extra_repos = [] }

abbrev pub new_type : Text → NewType → McuType
new_type name a = record {
  name = name;
  chipset = a.chipset;
  serials = [];
  canbus_uuids = [];
  fws = (codes "katapult", extra a.katapult_args) ∷ (codes "klipper", extra a.klipper_args) ∷ [];
  firmwares = firmwares_of a;
  profile = strip a.profile;
  stop_services = none;
}

abbrev pub checked_name : Result InvalidTypeNameError Text → Result RegistryError Text
checked_name (err e) = err (invalid_name e)
checked_name (ok t) = ok t

unfoldable pub add_type : Text → NewType → Registry → Result RegistryError (McuType × Registry)
add_type name a reg = do
  _ ← checked_name (validate_type_name name)
  (let held = is_some (lookup reg.types name) in
      if not held && is_some (lookup (declared reg.doc) name)
      then err (duplicate_type name)
      else if held && not a.overwrite
      then err (duplicate_type name)
      else do
        _ ← refuse_undeclared name (load_from_doc reg.doc) (firmwares_of a)
        ok (new_type name a, record reg { types = put_type name (new_type name a) reg.types }))
