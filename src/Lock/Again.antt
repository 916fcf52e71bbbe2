-- ===== src/Lock/Again.antt =====
-- A process that asks for the lock of src/mcu_updater/lock.py while it holds it.
use mcu_updater.Base.{ℕ, ◌≡◌, refl, Option, some, List, [], ◌∷◌, ==_iff}
use mcu_updater.Base.Text.{Text}
use mcu_updater.Lock.Defs.{
  Owner, LockFile, holding, busy, told, again, acquire, holder, Command, call, next, attempt, begin,
  proceed, advance, World, step, run, at_rest,
}
use mcu_updater.Lock.Exclusion.{run-holding}

taken_by :
    (f : LockFile) (p : ℕ) (o : Owner)
    → f.flock ≡ some p
    → f.owner ≡ some o
    → f ≡ record { flock = some p; owner = some o }
taken_by f p o e n = cc (e, n)

module _ (w : World) (p : ℕ) (l : Text)
    (taken : w.file ≡ record { flock = some p; owner = some (record { pid = p; label = l }) })
    (held : w.phase p ≡ holding l) where
  acquires_again :
      (m : Text)
      → let refused = run ((p, call (acquire m)) ∷ (p, next) ∷ (p, next) ∷ []) w in
        let after = run ((p, next) ∷ []) refused in
        (refused.phase p ≡ again l (busy (some (record { pid = p; label = l }))))
        × (after.phase p ≡ holding l)
        × (after.file ≡ w.file)
  unfolding run step advance begin proceed attempt
  acquires_again m = let self = (==_iff p p).1 refl in rw (taken, held, self) (refl, refl, refl)

  asks_again :
      let answer = run ((p, call holder) ∷ (p, next) ∷ []) w in
      let after = run ((p, next) ∷ []) answer in
      (answer.phase p ≡ again l (told (some (record { pid = p; label = l }))))
      × (after.phase p ≡ holding l)
      × (after.file ≡ w.file)
  unfolding run step advance begin proceed attempt
  asks_again = let self = (==_iff p p).1 refl in rw (taken, held, self) (refl, refl, refl)

-- After every schedule of calls, steps and kills that starts with the lock free, an actor that holds the
-- lock and calls acquire again is refused, after two tries, with the record of its own, and one that calls
-- holder is told its own record; a step later it holds the lock as before, and the file is as it was, if no
-- other actor takes a step in between.
pub run-again :
    (cs : List (ℕ × Command)) (d : Option Owner) (p : ℕ) (l m : Text)
    → (run cs (at_rest d)).phase p ≡ holding l
    → let w = run cs (at_rest d) in
      let refused = run ((p, call (acquire m)) ∷ (p, next) ∷ (p, next) ∷ []) w in
      let answer = run ((p, call holder) ∷ (p, next) ∷ []) w in
      ((refused.phase p ≡ again l (busy (some (record { pid = p; label = l }))))
        × ((run ((p, next) ∷ []) refused).phase p ≡ holding l)
        × ((run ((p, next) ∷ []) refused).file ≡ w.file))
      × (answer.phase p ≡ again l (told (some (record { pid = p; label = l }))))
      × ((run ((p, next) ∷ []) answer).phase p ≡ holding l)
      × ((run ((p, next) ∷ []) answer).file ≡ w.file)
run-again cs d p l m held =
    let w = run cs (at_rest d) in
    let (flocked, named) = run-holding cs d p l held in
    let taken = taken_by w.file p (record { pid = p; label = l }) flocked named in
    let (told_own, holds, kept) = asks_again w p l taken held in
    (acquires_again w p l taken held m, told_own, holds, kept)
