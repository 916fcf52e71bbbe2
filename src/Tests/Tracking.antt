-- ===== src/Tests/Tracking.antt =====
-- A board that has no durable serial yet.
use mcu_updater.Base.{◌≡◌, true, false, not, some, [], ◌∷◌, ◌⊎◌}
use mcu_updater.Base.Text.{codes, starts_with}
use mcu_updater.Base.Result.{ok}
use mcu_updater.Registry.Defs.{Registry}
use mcu_updater.Tracking.Defs.{Capabilities, add_serial}
use mcu_updater.Tracking.Writes.{MayWrite, add_serial-writes}

abbrev nobody : Registry
nobody = record { types = []; doc = record { lines = []; frozen = false } }

abbrev roadrunner : Capabilities
roadrunner = record {
  is_trackable = some (λ s. record { fine = not (starts_with s (codes "new")); remedy = true });
  provision = some (λ _. ok (codes "rr-1"));
}

add_serial-writes_example :
    let c =
      add_serial (λ _. true) (ok roadrunner) true true nobody nobody (codes "rr") (codes "new-1") in
    (c.writes ≡ [])
    ⊎ ((c.writes ≡ codes "new-1" ∷ [])
        × MayWrite roadrunner true true nobody (codes "rr") (codes "new-1"))
add_serial-writes_example =
    add_serial-writes (λ _. true) roadrunner true true nobody nobody (codes "rr") (codes "new-1")
