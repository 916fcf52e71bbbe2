-- ===== src/Tests/Lock.antt =====
-- Two actors at the lock.
use mcu_updater.Base.{ℕ, ◌≡◌, ap, refl, none, some, List, [], ◌∷◌}
use mcu_updater.Base.Text.{Text, codes}
use mcu_updater.Lock.Defs.{
  idle, holding, again, busy, told, refused, answered, acquire, release, holder, Command, call,
  next, kill, attempt, unlock, begin, proceed, advance, step, run, at_rest,
}
use mcu_updater.Lock.Kept.{owns}
use mcu_updater.Lock.Again.{run-again}
use mcu_updater.Lock.Exclusion.{run-owns, run-holding, run-kill}

abbrev flashes : Text
flashes = codes "flash"

abbrev builds : Text
builds = codes "build"

-- 1 acquires the lock while 2 tries twice.
abbrev schedule : List (ℕ × Command)
schedule =
    (1, call (acquire flashes))
    ∷ (2, call (acquire builds))
    ∷ (1, next)
    ∷ (2, next)
    ∷ (1, next)
    ∷ (1, next)
    ∷ (2, next)
    ∷ []

refuses :
    (run schedule (at_rest none)).phase 2 ≡ refused (some (record { pid = 1; label = flashes }))
unfolding attempt unlock begin proceed advance step run
refuses = refl

flashing : (run schedule (at_rest none)).phase 1 ≡ holding flashes
unfolding attempt unlock begin proceed advance step run
flashing = refl

waiting : (run schedule (at_rest none)).phase 3 ≡ idle
unfolding attempt unlock begin proceed advance step run
waiting = refl

run-again_example :
    let w = run schedule (at_rest none) in
    let refused = run ((1, call (acquire builds)) ∷ (1, next) ∷ (1, next) ∷ []) w in
    let answer = run ((1, call holder) ∷ (1, next) ∷ []) w in
    ((refused.phase 1 ≡ again flashes (busy (some (record { pid = 1; label = flashes }))))
      × ((run ((1, next) ∷ []) refused).phase 1 ≡ holding flashes)
      × ((run ((1, next) ∷ []) refused).file ≡ w.file))
    × (answer.phase 1 ≡ again flashes (told (some (record { pid = 1; label = flashes }))))
    × ((run ((1, next) ∷ []) answer).phase 1 ≡ holding flashes)
    × ((run ((1, next) ∷ []) answer).file ≡ w.file)
run-again_example = run-again schedule none 1 flashes builds flashing

abbrev flasher : ℕ
flasher = 1

run-owns_example : flasher ≡ flasher
unfolding owns
run-owns_example = run-owns schedule none flasher flasher (ap owns flashing) (ap owns flashing)

run-holding_example :
    ((run schedule (at_rest none)).file.flock ≡ some 1)
    × ((run schedule (at_rest none)).file.owner ≡ some (record { pid = 1; label = flashes }))
run-holding_example = run-holding schedule none 1 flashes flashing

run-kill_example :
    let w = run schedule (at_rest none) in
    let asked = run ((1, kill) ∷ (3, call holder) ∷ (3, next) ∷ (3, next) ∷ (3, next) ∷ []) w in
    ((run ((1, kill) ∷ (3, call (acquire builds)) ∷ (3, next) ∷ (3, next) ∷ (3, next) ∷ []) w).phase
        3
      ≡ holding builds)
    × (asked.phase 3 ≡ answered none)
    × (asked.file ≡ record { flock = none; owner = none })
run-kill_example = run-kill schedule none 3 1 builds flashes flashing waiting

-- 2 reads the record of 1 and answers with it after 1 has given the lock back and 3 has it.
holder_late :
    let w =
      run
        ((1, call (acquire flashes))
          ∷ (1, next)
          ∷ (1, next)
          ∷ (1, next)
          ∷ (2, call holder)
          ∷ (1, call release)
          ∷ (1, next)
          ∷ (3, call (acquire builds))
          ∷ (3, next)
          ∷ (3, next)
          ∷ (3, next)
          ∷ (2, next)
          ∷ [])
        (at_rest none) in
    (w.phase 3 ≡ holding builds)
    × (w.phase 2 ≡ answered (some (record { pid = 1; label = flashes })))
unfolding attempt unlock begin proceed advance step run
holder_late = (refl, refl)
