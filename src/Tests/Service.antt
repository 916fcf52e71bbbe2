-- ===== src/Tests/Service.antt =====
-- A printer with two units that are up, and a block that does one thing and raises.
use mcu_updater.Base.{
  ℕ, ◌≡◌, refl, Bool, true, false, none, some, List, [], ◌∷◌, ◌||◌, if◌then◌else◌, String, str_eq,
  drop,
}
use mcu_updater.Base.Dict.{contains}
use mcu_updater.Base.Result.{err}
use mcu_updater.Service.Defs.{
  Event, left, entry, pending, read_journal, journaled, cleared, stopped, started, inside, Host,
  Outcome, cancelled, active_units, start_reversed, restart_all, confirm, stop_unit, stop_each,
  around, services_stopped, reconcile,
}
use mcu_updater.Service.Orders.{orders, down, IsInside}
use mcu_updater.Service.Outage.{services_stopped_leaves, services_stopped-down}
use mcu_updater.Service.Crash.{Recoverable}
use mcu_updater.Service.Reconcile.{IsBack, reconcile-services_stopped}

-- klipper and moonraker are up until they are told to stop; the camera is not
abbrev up : List (Event ℕ) → String → Bool
up [] u = str_eq u "klipper" || str_eq u "moonraker"
up (stopped v ∷ h) u = if str_eq v u then false else up h u
up (started v ∷ h) u = if str_eq v u then true else up h u
up (_ ∷ h) u = up h u

abbrev printer : Host ℕ
printer = record { active = up; writable = λ h. true }

abbrev units : List String
units = "klipper" ∷ "camera" ∷ "moonraker" ∷ []

abbrev block : List (Event ℕ) → Outcome ℕ ℕ
block h = record { result = err cancelled; history = inside 7 ∷ h }

block-IsInside : IsInside block
unfolding IsInside
block-IsInside g = (7 ∷ [], refl)

whole_run : services_stopped printer true units block [] ≡ record {
  result = err cancelled;
  history =
      cleared
      ∷ started "klipper"
      ∷ started "moonraker"
      ∷ inside 7
      ∷ stopped "moonraker"
      ∷ stopped "klipper"
      ∷ journaled ("klipper" ∷ "moonraker" ∷ [])
      ∷ [];
}
unfolding services_stopped active_units around stop_each stop_unit confirm restart_all
    start_reversed
whole_run = refl

abbrev start : List (Event ℕ)
start = []

-- The camera is left as it is.
services_stopped_leaves_example :
    orders "camera" (services_stopped printer true units block []).history ≡ orders "camera" start
unfolding contains
services_stopped_leaves_example =
    services_stopped_leaves printer true block units "camera" [] (λ g. unfold orders in refl) refl

block_keeps :
    (g : List (Event ℕ)) → down "klipper" g ≡ false → down "klipper" (block g).history ≡ false
unfolding orders
block_keeps g up = up

services_stopped-down_example :
    down "klipper" (services_stopped printer true units block []).history ≡ false
services_stopped-down_example =
    services_stopped-down printer true block units "klipper" [] block_keeps (unfold orders in refl)

-- An outage within an outage: what the inner one clears is the journal of the outer one, whose units are
-- down for two events more.
abbrev nested : List (Event ℕ)
nested =
    (services_stopped printer true units (services_stopped printer true ("klipper" ∷ []) block)
      []).history

nested_unjournaled :
    (down "klipper" (drop 3 nested) ≡ true)
    × (pending (drop 3 nested) ≡ none)
    × (reconcile printer (drop 3 nested) ≡ (false, drop 3 nested))
unfolding services_stopped active_units around stop_each stop_unit confirm restart_all
    start_reversed orders pending reconcile
nested_unjournaled = (refl, refl, refl)

-- The journal of an older version.
legacy_journal :
    pending {E = ℕ} (left (entry (some []) (some "klipper")) ∷ []) ≡ some ("klipper" ∷ [])
unfolding pending read_journal
legacy_journal = refl

nothing_down : (v : String) → down v start ≡ false
unfolding orders
nothing_down v = refl

begun : Recoverable start
unfolding Recoverable
begun = tt

-- Killed in the block, three events before the end.
abbrev killed : List (Event ℕ)
killed = drop 3 (services_stopped printer true units block []).history

klipper_killed : down "klipper" killed ≡ true
unfolding services_stopped active_units around stop_each stop_unit confirm restart_all
    start_reversed orders
klipper_killed = refl

reconcile-services_stopped_example : IsBack printer killed "klipper" (reconcile printer killed).1
reconcile-services_stopped_example =
    reconcile-services_stopped printer true block block-IsInside units [] 3 "klipper" nothing_down
      begun klipper_killed
