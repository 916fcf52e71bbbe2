-- ===== src/Registry/Uses.antt =====
-- What a type runs and which units a write of it stops: `McuType` of src/mcu_updater/config.py and
-- `for_mcu` of stop_services.py.
use mcu_updater.Base.{Bool, not, Option, none, some, is_some, List, [], ◌∷◌, ◌++◌, if◌then◌else◌}
use mcu_updater.Base.Text.{Text, codes, text_eq}
use mcu_updater.Base.Result.{Result, ok, err, ◌>>=◌}
use mcu_updater.Cfg.Parse.{has_text}
use mcu_updater.Cfg.Render.{lookup}
use mcu_updater.Select.Defs.{resolve_stop_services}
use mcu_updater.Types.Defs.{FirmwareFamily, Families, family_of}
use mcu_updater.Registry.Defs.{FwConfig, McuType}

-- _is_bootloader; no families are an empty list
unfoldable pub is_bootloader : Families → Text → Bool
is_bootloader families fw = elim (family_of families fw) [
  | none ↦ text_eq fw (codes "katapult")
  | some f ↦ f.bootloader
]

unfoldable pub first_where : (Text → Bool) → List Text → Option Text
first_where p [] = none
first_where p (t ∷ ts) = let rest = first_where p ts in if p t then some t else rest

abbrev first_or_klipper : List Text → Text
first_or_klipper [] = codes "klipper"
first_or_klipper (fw ∷ fws) = fw

unfoldable pub application : Families → McuType → Text
application families m = elim (first_where (λ fw. not (is_bootloader families fw)) m.firmwares) [
  | some fw ↦ fw
  | none ↦ first_or_klipper m.firmwares
]

unfoldable pub bootloader_of : Families → McuType → Option Text
bootloader_of families m = first_where (is_bootloader families) m.firmwares

unfoldable pub keep_if : (Text → Bool) → List Text → List Text
keep_if p [] = []
keep_if p (t ∷ ts) = let rest = keep_if p ts in if p t then t ∷ rest else rest

unfoldable pub keys_of : List (Text × FwConfig) → List Text
keys_of [] = []
keys_of ((fw, c) ∷ fws) = fw ∷ keys_of fws

unfoldable pub fw_order : McuType → List Text
fw_order m =
    keep_if (λ fw. is_some (lookup m.fws fw)) m.firmwares
    ++ keep_if (λ fw. not (has_text fw m.firmwares)) (keys_of m.fws)

-- ConfigCorruptError of a family that no section declares
pub data UndeclaredFamily : Type 0 where
  undeclared_family : Text → UndeclaredFamily

-- firmware.resolve
unfoldable pub resolve_family : Families → Text → Result UndeclaredFamily FirmwareFamily
resolve_family families fw = elim (family_of families fw) [
  | none ↦ err (undeclared_family fw)
  | some f ↦ ok f
]

abbrev pub default_mcu : List Text
default_mcu = codes "klipper" ∷ []

-- for_mcu, with the level of `[updater]`
unfoldable pub for_mcu :
    Families → Option (List Text) → McuType → Result UndeclaredFamily (List Text)
for_mcu families updater m = do
  family ← resolve_family families (application families m)
  ok (resolve_stop_services (m.stop_services ∷ family.stop_services ∷ updater ∷ []) default_mcu)
