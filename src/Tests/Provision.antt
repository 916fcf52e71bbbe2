-- ===== src/Tests/Provision.antt =====
-- A sweep in which one board is to be provisioned.
use mcu_updater.Base.{◌≡◌, refl, true, false, not, none, some, List, [], ◌∷◌}
use mcu_updater.Base.Text.{Text, codes, text_eq, starts_with}
use mcu_updater.Cfg.Parse.{has_text}
use mcu_updater.Types.Defs.{FirmwareFamily, Families}
use mcu_updater.Registry.Defs.{sorted, text_le}
use mcu_updater.Provision.Auto.{
  judged, provisioned, Helper, found, write_one, sweep_serials, sweep_helper, sweep_found,
  sweep_families, auto_provision,
}
use mcu_updater.Provision.Asked.{is_distinct, all_pass}
use mcu_updater.Provision.Safe.{is_allowed, auto_provision-writes}

abbrev roadrunner : FirmwareFamily
roadrunner = record {
  name = codes "roadrunner";
  source = [];
  artifact = [];
  builder = codes "cmake";
  cmake_args = [];
  helper = codes "roadrunner";
  flashers = codes "bootsel" ∷ [];
  submodules = false;
  bootloader = false;
  auto_provision = true;
  stop_services = none;
}

abbrev families : Families
families = (codes "roadrunner", roadrunner) ∷ (codes "fork", roadrunner) ∷ []

abbrev helper : Helper
helper = record {
  judge = some (λ s. judged (not (starts_with s (codes "new"))) true);
  lock_free = λ _. true;
  provision = some (λ _ s. provisioned (codes "rr-1"));
}

abbrev devices : List Text
devices = codes "new-2" ∷ codes "abc" ∷ codes "new-1" ∷ []

writes :
    (auto_provision true (λ _. found helper) (some families) devices).writes
    ≡ codes "new-2" ∷ codes "new-1" ∷ []
unfolding starts_with text_eq has_text sorted text_le write_one sweep_serials sweep_helper
    sweep_found sweep_families auto_provision
writes = refl

auto_provision-writes_example :
    let w = auto_provision true (λ _. found helper) (some families) devices in
    (is_distinct w.writes ≡ true)
    × (all_pass (is_allowed true (λ _. found helper) devices families) w.writes ≡ true)
auto_provision-writes_example = auto_provision-writes true (λ _. found helper) families devices
