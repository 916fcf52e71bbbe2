-- ===== src/Tests/Batch.antt =====
-- A batch of three boards: one that cannot be written, one that needs no stop.
use mcu_updater.Base.{
  ◌≡◌, refl, Bool, true, false, Option, none, some, List, [], ◌∷◌, ◌++◌, map, if◌then◌else◌, String,
  str_eq, drop,
}
use mathlib.Core.List.{Perm}
use mcu_updater.Base.Dict.{contains, get, remove}
use mcu_updater.Base.Result.{ok, err}
use mcu_updater.Service.Defs.{
  stopped, started, Exc, updater, active_units, start_reversed, restart_all, confirm, stop_unit,
  stop_each, around, services_stopped, reconcile,
}
use mcu_updater.Service.Orders.{orders, down}
use mcu_updater.Service.Crash.{Recoverable}
use mcu_updater.Service.Reconcile.{IsBack}
use mcu_updater.Batch.Prog.{pure, raise, tell, ask, ◌>>=◌, ending}
use mcu_updater.Batch.Groups.{
  FlashTarget, needs_services_stopped, group_by_stop, add_units, union_from, stop_services_union,
  file_target, group_from, by_flasher,
}
use mcu_updater.Batch.Defs.{
  History, Flasher, Bench, refusal, failure, Report, is_updater_error, file_record, settle, keep,
  give_up, write_target, write_targets, write_mine, write_groups, all_known, write_group, own_stops,
  all_answered, write_stopped, write_all,
}
use mcu_updater.Batch.Accounts.{devices, write_failures}
use mcu_updater.Batch.Every.{write_all-Accounts}
use mcu_updater.Batch.Union.{IsDistinct, asks_for, stop_services_union-IsDistinct}
use mcu_updater.Batch.Services.{IsSettled, write_all-down, reconcile-write_all}

-- klipper is up until it is told to stop
abbrev up : History → String → Bool
up [] u = str_eq u "klipper"
up (stopped v ∷ h) u = if str_eq v u then false else up h u
up (started v ∷ h) u = if str_eq v u then true else up h u
up (_ ∷ h) u = up h u

abbrev katapult : Flasher
katapult = record {
  stops = true;
  enter = λ ts h. ok tt;
  exit = λ h. ok tt;
  write = λ t h.
      if str_eq t.id "bad" then err (updater "no answer") else ok (("confidence", "serial") ∷ []);
  describe = λ t h. ok (
      some (record {
        key = t.id;
        mcu_type = t.mcu_type;
        fw = "klipper";
        bin_sha256 = none;
        fw_sha = none;
        version = none;
      }));
  settled = λ t h. ok tt;
}

abbrev bench : Bench
bench = record {
  host = record { active = up; writable = λ h. true };
  dry_run = false;
  is_cancelled = λ h. false;
  flashers = λ name. if str_eq name "katapult" then some katapult else none;
}

abbrev board : String → Option Bool → FlashTarget
board name needs = record {
  flasher = "katapult";
  mcu_type = "ebb";
  id = name;
  stop_services = "klipper" ∷ [];
  needs_stopped = needs;
}

abbrev boards : List FlashTarget
boards = board "good" none ∷ board "bad" none ∷ board "free" (some false) ∷ []

abbrev start : History
start = []

abbrev report : Report
report = record {
  flashed = (board "free" (some false), []) ∷ (board "good" none, []) ∷ [];
  failures = refusal "no flasher" ∷ failure (board "bad" none) (updater "no answer") ∷ [];
  done = 3;
}

three_boards : (write_all bench boards ("no flasher" ∷ []) start).result ≡ ok report
unfolding write_all all_answered own_stops group_by_stop needs_services_stopped by_flasher
    group_from file_target stop_services_union union_from add_units contains get remove
    write_stopped write_group all_known write_groups write_mine write_targets write_target keep
    give_up file_record settle is_updater_error pure raise tell ask ◌>>=◌ ending services_stopped
    active_units around stop_each stop_unit confirm restart_all start_reversed
three_boards = refl

write_all-Accounts_example :
    (broken : List (FlashTarget × Exc)) × (report.failures
      ≡ map refusal ("no flasher" ∷ []) ++ write_failures broken)
    × Perm (devices report.flashed ++ devices broken) boards
write_all-Accounts_example =
    write_all-Accounts bench boards ("no flasher" ∷ []) start report three_boards

nothing_down : (u : String) → down u start ≡ false
unfolding orders
nothing_down u = refl

write_all-down_example : down "klipper" (write_all bench boards [] start).history ≡ false
write_all-down_example = write_all-down bench "klipper" boards [] start (nothing_down "klipper")

start-IsSettled : IsSettled start
unfolding Recoverable
start-IsSettled = (nothing_down, tt)

-- Killed while the last board is written, two events before the end.
abbrev killed : History
killed = drop 2 (write_all bench boards [] start).history

klipper_killed : down "klipper" killed ≡ true
unfolding write_all all_answered own_stops group_by_stop needs_services_stopped by_flasher
    group_from file_target stop_services_union union_from add_units contains get remove
    write_stopped write_group all_known write_groups write_mine write_targets write_target keep
    give_up file_record settle is_updater_error pure raise tell ask ◌>>=◌ ending services_stopped
    active_units around stop_each stop_unit confirm restart_all start_reversed orders
klipper_killed = refl

reconcile-write_all_example : IsBack bench.host killed "klipper" (reconcile bench.host killed).1
reconcile-write_all_example =
    reconcile-write_all bench boards [] start 2 "klipper" start-IsSettled klipper_killed

stop_services_union-IsDistinct_example :
    IsDistinct (stop_services_union boards)
    × ((u : String) → contains (stop_services_union boards) u ≡ asks_for boards u)
stop_services_union-IsDistinct_example = stop_services_union-IsDistinct boards
