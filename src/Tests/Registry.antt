-- ===== src/Tests/Registry.antt =====
-- A registry with one type.
use mcu_updater.Base.{◌≡◌, refl, true, false, none, some, [], ◌∷◌}
use mcu_updater.Base.Text.{Text, codes, is_space, lstrip, rstrip, strip, text_eq}
use mcu_updater.Base.Result.{ok, err}
use mcu_updater.Cfg.Line.{section_match}
use mcu_updater.Cfg.Parse.{has_text}
use mcu_updater.Cfg.Render.{lookup}
use mcu_updater.Cfg.Doc.{header_line}
use mcu_updater.Types.Defs.{declared_name, family_of}
use mcu_updater.Registry.Uses.{
  application, bootloader_of, first_where, is_bootloader, for_mcu, resolve_family,
  undeclared_family,
}
use mcu_updater.Registry.Names.{
  IsName, is_name, is_name_char, validate_type_name, section_name, validate_type_name-section,
}
use mcu_updater.Registry.Defs.{
  McuType, Registry, serial, tracked, retrack, get_type, resolve, replace, with_type, add_identity,
  remove_identity,
}
use mcu_updater.Registry.Tracking.{resolve-add_identity}

abbrev ebb : Text
ebb = codes "ebb42"

abbrev board : McuType
board = record {
  name = ebb;
  chipset = codes "stm32g0";
  serials = codes "abc" ∷ [];
  canbus_uuids = [];
  fws = [];
  firmwares = codes "klipper" ∷ [];
  profile = [];
  stop_services = none;
}

abbrev before : Registry
before = record { types = (ebb, board) ∷ []; doc = record { lines = []; frozen = false } }

abbrev after : Registry
after = with_type ebb (record board { serials = codes "abc" ∷ codes "def" ∷ [] }) before

adds : add_identity serial ebb (codes "def") before ≡ ok (true, after)
unfolding add_identity get_type lookup text_eq has_text tracked retrack replace
adds = refl

resolve-add_identity_example :
    (resolve serial after (codes "def") (some ebb) ≡ ok ebb)
    × (remove_identity serial ebb (codes "def") after ≡ ok (true, before))
resolve-add_identity_example = resolve-add_identity serial ebb (codes "def") before after adds

accepts : validate_type_name ebb ≡ ok ebb
unfolding validate_type_name is_name is_name_char is_space lstrip rstrip strip text_eq
accepts = refl

validate_type_name-section_example :
    IsName ebb ebb
    × (section_match (header_line (section_name ebb)) ≡ some (section_name ebb))
    × (declared_name (codes "type") (section_name ebb) ≡ ebb)
validate_type_name-section_example = validate_type_name-section ebb ebb accepts

abbrev katapult : McuType
katapult = record board { firmwares = codes "katapult" ∷ codes "klipper" ∷ [] }

-- The application is the first family that is no bootloader, and the type's own list of units wins.
runs :
    (application [] katapult ≡ codes "klipper")
    × (bootloader_of [] katapult ≡ some (codes "katapult"))
    × (for_mcu [] none katapult ≡ err (undeclared_family (codes "klipper")))
unfolding application bootloader_of first_where is_bootloader family_of text_eq for_mcu
    resolve_family
runs = (refl, refl, refl)
