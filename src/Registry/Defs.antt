-- ===== src/Registry/Defs.antt =====
-- `Registry` of src/mcu_updater/config.py: the types it holds, the document behind it, and who tracks what.
use mcu_updater.Base.{
  Bool, true, false, ◌&&◌, ◌||◌, Option, none, some, List, [], ◌∷◌, ◌++◌, is_empty, ltb, ◌==◌,
  if◌then◌else◌,
}
use mcu_updater.Base.Text.{Text, codes, text_eq}
use mcu_updater.Base.Result.{Result, ok, err, ◌>>=◌}
use mcu_updater.Cfg.Parse.{has_text}
use mcu_updater.Cfg.Render.{lookup}
use mcu_updater.Cfg.Doc.{Doc, CfgError, get_list, section_names}
use mcu_updater.Types.Defs.{declared_name, text_of}
use mcu_updater.Registry.Names.{InvalidTypeNameError}

pub record FwConfig : Type 0 where
  pub extra_args : Text
  pub makefile_patches : List (Text × Text)
  pub extra_repos : List Text

pub record McuType : Type 0 where
  pub name : Text
  pub chipset : Text
  pub serials : List Text
  pub canbus_uuids : List Text
  pub fws : List (Text × FwConfig)
  pub firmwares : List Text
  pub profile : Text
  pub stop_services : Option (List Text)

pub record Registry : Type 0 where
  pub types : List (Text × McuType)
  pub doc : Doc

-- A board is known by the serial of its port or by its uuid on a CAN bus.
pub data Identity : Type 0 where
  serial uuid : Identity

unfoldable pub tracked : Identity → McuType → List Text
tracked serial m = m.serials
tracked uuid m = m.canbus_uuids

unfoldable pub retrack : Identity → List Text → McuType → McuType
retrack serial xs m = record m { serials = xs }
retrack uuid xs m = record m { canbus_uuids = xs }

unfoldable pub key_of : Identity → Text
key_of serial = codes "serials"
key_of uuid = codes "canbus_uuids"

-- The errors, with their data
pub data RegistryError : Type 0 where
  unknown_type : Text → RegistryError
  tracked_elsewhere : Identity → Text → Text → List Text → RegistryError
  unknown_identity : Identity → Text → Option Text → RegistryError
  ambiguous : Identity → Text → List Text → RegistryError
  duplicate_type : Text → RegistryError
  invalid_name : InvalidTypeNameError → RegistryError
  undeclared_firmware : Text → Text → RegistryError
  in_document : CfgError → RegistryError

unfoldable pub text_le : Text → Text → Bool
text_le [] t = true
text_le (c ∷ s) [] = false
text_le (c ∷ s) (d ∷ t) = ltb c d || c == d && text_le s t

abbrev pub insert_text : Text → List Text → List Text
insert_text t [] = t ∷ []
insert_text t (u ∷ us) = let rest = insert_text t us in if text_le t u then t ∷ u ∷ us else u ∷ rest

-- sorted
unfoldable pub sorted : List Text → List Text
sorted [] = []
sorted (t ∷ ts) = insert_text t (sorted ts)

-- sections.read: the names and the sections of the declared types
unfoldable pub declared_from : List Text → List (Text × Text)
declared_from [] = []
declared_from (s ∷ ss) =
    let rest = declared_from ss in
    let name = declared_name (codes "type") s in if is_empty name then rest else (name, s) ∷ rest

unfoldable pub declared : Doc → List (Text × Text)
declared doc = declared_from (section_names doc (some (codes "type")))

-- _declared_section
unfoldable pub declared_section : Registry → Text → Result RegistryError Text
declared_section reg name = elim (lookup (declared reg.doc) name) [
  | none ↦ err (unknown_type name)
  | some section ↦ ok section
]

unfoldable pub get_type : Registry → Text → Result RegistryError McuType
get_type reg name = elim (lookup reg.types name) [ none ↦ err (unknown_type name) | some m ↦ ok m ]

unfoldable pub get_declared_chipset : Registry → Text → Result RegistryError Text
get_declared_chipset reg name = elim (lookup reg.types name) [
  | some m ↦ ok m.chipset
  | none ↦ do section ← declared_section reg name; ok (text_of reg.doc section (codes "chipset"))
]

-- find_types_for_serial and find_types_for_uuid
unfoldable pub find_types : Identity → List (Text × McuType) → Text → List Text
find_types i [] x = []
find_types i ((n, m) ∷ ts) x =
    let rest = find_types i ts x in if has_text x (tracked i m) then n ∷ rest else rest

-- find_declared_types_for_serial and find_declared_types_for_uuid
unfoldable pub find_declared : Identity → Doc → List (Text × Text) → Text → List Text
find_declared i doc [] x = []
find_declared i doc ((n, s) ∷ ds) x =
    let rest = find_declared i doc ds x in
    if has_text x (get_list doc s (key_of i)) then n ∷ rest else rest

-- The type that was asked for does not track it.
unfoldable pub not_here : Identity → Text → Text → List Text → Result RegistryError Text
not_here i x name [] = err (unknown_identity i x (some name))
not_here i x name (t ∷ ts) = err (tracked_elsewhere i x name (t ∷ ts))

-- No type was asked for: there must be one.
unfoldable pub only_match : Identity → Text → List Text → Result RegistryError Text
only_match i x [] = err (unknown_identity i x none)
only_match i x (t ∷ []) = ok t
only_match i x (t ∷ u ∷ ts) = err (ambiguous i x (sorted (t ∷ u ∷ ts)))

-- resolve_serial and resolve_uuid
unfoldable pub resolve : Identity → Registry → Text → Option Text → Result RegistryError Text
resolve i reg x (some name) = do
  m ← get_type reg name
  (if has_text x (tracked i m) then ok name else not_here i x name (find_types i reg.types x))
resolve i reg x none = only_match i x (find_types i reg.types x)

-- resolve_declared_serial
unfoldable pub resolve_declared : Registry → Text → Option Text → Result RegistryError Text
resolve_declared reg x (some name) = do
  section ← declared_section reg name
  (if has_text x (get_list reg.doc section (key_of serial))
      then ok name
      else not_here serial x name (find_declared serial reg.doc (declared reg.doc) x))
resolve_declared reg x none =
    only_match serial x (find_declared serial reg.doc (declared reg.doc) x)

-- The type changed in place.
unfoldable pub replace : Text → McuType → List (Text × McuType) → List (Text × McuType)
replace name m [] = []
replace name m ((n, k) ∷ ts) =
    let rest = replace name m ts in if text_eq n name then (n, m) ∷ ts else (n, k) ∷ rest

abbrev pub with_type : Text → McuType → Registry → Registry
with_type name m reg = record reg { types = replace name m reg.types }

-- add_serial and add_canbus_uuid
unfoldable pub add_identity :
    Identity → Text → Text → Registry → Result RegistryError (Bool × Registry)
add_identity i name x reg = do
  m ← get_type reg name
  (if has_text x (tracked i m)
      then ok (false, reg)
      else ok (true, with_type name (retrack i (tracked i m ++ (x ∷ [])) m) reg))

-- list.remove
unfoldable pub remove_first : Text → List Text → List Text
remove_first x [] = []
remove_first x (y ∷ ys) = let rest = remove_first x ys in if text_eq y x then ys else y ∷ rest

-- remove_serial and remove_canbus_uuid
unfoldable pub remove_identity :
    Identity → Text → Text → Registry → Result RegistryError (Bool × Registry)
remove_identity i name x reg = do
  m ← get_type reg name
  (if has_text x (tracked i m)
      then ok (true, with_type name (retrack i (remove_first x (tracked i m)) m) reg)
      else ok (false, reg))
