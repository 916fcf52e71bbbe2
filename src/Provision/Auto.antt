-- ===== src/Provision/Auto.antt =====
-- `auto_provision` of src/mcu_updater/provisioning.py: one sweep over the families and the serials on the
-- bus.
use mcu_updater.Base.{
  Bool, true, false, not, ◌||◌, Option, none, some, List, [], ◌∷◌, if◌then◌else◌,
}
use mcu_updater.Base.Text.{Text}
use mcu_updater.Cfg.Parse.{has_text}
use mcu_updater.Types.Defs.{FirmwareFamily, Families}
use mcu_updater.Registry.Defs.{sorted}

-- What is_trackable answers: an exception, or the verdict with whether its remedy is to provision.
pub data Judgement : Type 0 where
  raised : Judgement
  judged : Bool → Bool → Judgement

-- How an attempt ends: BusyError, another UpdaterError, or the new serial.
pub data Outcome : Type 0 where
  busy failed : Outcome
  provisioned : Text → Outcome

-- retry, attempted_serials, and the serials of the boards that `provision` was called for, the latest first
pub record Sweep : Type 0 where
  pub retry : Bool
  pub attempted : List Text
  pub writes : List Text

-- A helper's capabilities, which may be missing. What happens to an attempt depends on those before it:
-- whether the operation lock is free, and what `provision` answers.
pub record Helper : Type 0 where
  pub judge : Option (Text → Judgement)
  pub lock_free : List Text → Bool
  pub provision : Option (List Text → Text → Outcome)

-- helpers.for_name: `none` where it raises
pub data Found : Type 0 where
  unknown nothing : Found
  found : Helper → Found

abbrev is_busy : Outcome → Bool
is_busy busy = true
is_busy failed = false
is_busy (provisioned s) = false

-- `with exclusive(...): prov.provision(...)`
unfoldable pub write_one : Helper → (List Text → Text → Outcome) → Text → Sweep → Sweep
write_one h provision s w =
    let tried = s ∷ w.attempted in
    if h.lock_free w.attempted
    then record {
      retry = w.retry || is_busy (provision w.attempted s);
      attempted = tried;
      writes = s ∷ w.writes;
    }
    else record { retry = true; attempted = tried; writes = w.writes }

-- the loop over the serials; an exception of the judge ends it
unfoldable pub sweep_serials :
    Bool → Helper → (Text → Judgement) → (List Text → Text → Outcome) → List Text → Sweep → Sweep
sweep_serials may h judge provision [] w = w
sweep_serials may h judge provision (s ∷ ss) w =
    let skipped = sweep_serials may h judge provision ss w in
    let written = sweep_serials may h judge provision ss (write_one h provision s w) in
    elim (judge s) [
      | raised ↦ w
      | judged fine remedy ↦
          if fine || not remedy || not may || has_text s w.attempted then skipped else written
    ]

unfoldable pub sweep_helper : Bool → Helper → List Text → Sweep → Sweep
sweep_helper may h ss w = elim h.judge [
  | none ↦ w
  | some judge ↦ elim h.provision [
    | none ↦ w
    | some provision ↦ sweep_serials may h judge provision ss w
  ]
]

unfoldable pub sweep_found : Bool → Found → List Text → Sweep → Sweep
sweep_found may unknown ss w = w
sweep_found may nothing ss w = w
sweep_found may (found h) ss w = sweep_helper may h ss w

unfoldable pub sweep_families :
    Bool → (FirmwareFamily → Found) → List Text → Families → Sweep → Sweep
sweep_families may for_name ss [] w = w
sweep_families may for_name ss ((n, f) ∷ fs) w =
    sweep_families may for_name ss fs
      (if f.auto_provision then sweep_found may (for_name f) ss w else w)

abbrev pub no_sweep : Sweep
no_sweep = record { retry = false; attempted = []; writes = [] }

-- The families are `none` where the configuration cannot be read.
unfoldable pub auto_provision :
    Bool → (FirmwareFamily → Found) → Option Families → List Text → Sweep
auto_provision may for_name none devices = no_sweep
auto_provision may for_name (some families) devices =
    sweep_families may for_name (sorted devices) families no_sweep
