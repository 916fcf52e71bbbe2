-- ===== src/Types/Defs.antt =====
-- What a configuration declares: `load_from_doc` of src/mcu_updater/firmware.py, `read` of sections.py and
-- `read` of typelist.py.
use mcu_updater.Base.{
  Bool, false, Option, none, some, List, [], ◌∷◌, map, length, drop, is_empty, if◌then◌else◌,
}
use mcu_updater.Base.Text.{Text, codes, strip, text_eq}
use mcu_updater.Cfg.Parse.{has_text}
use mcu_updater.Cfg.Render.{or_empty, or_nothing}
use mcu_updater.Cfg.Doc.{Doc, get, get_list, get_csv, section_names, option_names, parse_bool}

-- Block
pub record Block : Type 0 where
  pub doc : Doc
  pub section : Text

-- Block.has
unfoldable pub has_key : Block → Text → Bool
has_key b key = has_text key (option_names b.doc b.section)

-- FirmwareFamily
pub record FirmwareFamily : Type 0 where
  pub name : Text
  pub source : Text
  pub artifact : Text
  pub builder : Text
  pub cmake_args : Text
  pub helper : Text
  pub flashers : List Text
  pub submodules : Bool
  pub bootloader : Bool
  pub auto_provision : Bool
  pub stop_services : Option (List Text)

-- TypeEntry
pub record TypeEntry : Type 0 where
  pub name : Text
  pub section : Text
  pub firmwares : List Text
  pub chipset : Text
  pub serials : List Text
  pub canbus_uuids : List Text
  pub stop_services : Option (List Text)
  pub block : Block
  pub builders : List Text

abbrev pub Families : Type 0
Families = List (Text × FirmwareFamily)

-- families.get(name)
unfoldable pub family_of : Families → Text → Option FirmwareFamily
family_of [] name = none
family_of ((n, f) ∷ fs) name =
    let rest = family_of fs name in if text_eq n name then some f else rest

-- out[name] = family
unfoldable pub put_family : Text → FirmwareFamily → Families → Families
put_family name f [] = (name, f) ∷ []
put_family name f ((n, g) ∷ fs) =
    let rest = put_family name f fs in if text_eq n name then (n, f) ∷ fs else (n, g) ∷ rest

abbrev pub default_builder : Text
default_builder = codes "kconfig_make"

-- (doc.get(section, key) or "").strip()
unfoldable pub text_of : Doc → Text → Text → Text
text_of doc section key = strip (or_empty (get doc section key))

-- bool(parse_bool(doc.get(section, key), default))
unfoldable pub flag_of : Doc → Text → Text → Bool → Bool
flag_of doc section key default = elim (parse_bool (get doc section key) (some default)) [
  | none ↦ false
  | some b ↦ b
]

abbrev pub or_default : Text → Text
or_default builder = if is_empty builder then default_builder else builder

unfoldable pub family_from : Doc → Text → Text → FirmwareFamily
family_from doc section name = record {
  name = name;
  source = text_of doc section (codes "source");
  artifact = text_of doc section (codes "artifact");
  builder = or_default (text_of doc section (codes "builder"));
  cmake_args = text_of doc section (codes "cmake_args");
  helper = text_of doc section (codes "helper");
  flashers = or_nothing (get_csv doc section (codes "flashers"));
  submodules = flag_of doc section (codes "submodules") false;
  bootloader = flag_of doc section (codes "bootloader") (text_eq name (codes "katapult"));
  auto_provision = flag_of doc section (codes "auto_provision") false;
  stop_services = get_csv doc section (codes "stop_services");
}

-- section[len(PREFIX):].strip()
abbrev pub declared_name : Text → Text → Text
declared_name prefix section = strip (drop (length prefix) section)

unfoldable pub families_from : Doc → List Text → Families → Families
families_from doc [] out = out
families_from doc (section ∷ sections) out =
    let name = declared_name (codes "firmware") section in
    if is_empty name
    then families_from doc sections out
    else families_from doc sections (put_family name (family_from doc section name) out)

unfoldable pub load_from_doc : Doc → Families
load_from_doc doc = families_from doc (section_names doc (some (codes "firmware"))) []

-- _builder_of
unfoldable pub builder_of : Families → Text → Text
builder_of families fw = elim (family_of families fw) [ none ↦ [] | some f ↦ f.builder ]

unfoldable pub entry_from : Doc → Families → Text → Text → TypeEntry
entry_from doc families section name =
    let fws = or_nothing (get_csv doc section (codes "firmware")) in
    record {
      name = name;
      section = section;
      firmwares = fws;
      chipset = text_of doc section (codes "chipset");
      serials = get_list doc section (codes "serials");
      canbus_uuids = get_list doc section (codes "canbus_uuids");
      stop_services = get_csv doc section (codes "stop_services");
      block = record { doc = doc; section = section };
      builders = map (builder_of families) fws;
    }

-- sections.read and typelist.read, in one walk
unfoldable pub entries_from : Doc → Families → List Text → List TypeEntry
entries_from doc families [] = []
entries_from doc families (section ∷ sections) =
    let name = declared_name (codes "type") section in
    let rest = entries_from doc families sections in
    if is_empty name then rest else entry_from doc families section name ∷ rest

unfoldable pub read : Doc → Families → List TypeEntry
read doc families = entries_from doc families (section_names doc (some (codes "type")))

-- TypeEntry.builder
abbrev pub first_of : List Text → Text
first_of [] = []
first_of (b ∷ bs) = b

unfoldable pub builder : TypeEntry → Text
builder e = first_of e.builders
