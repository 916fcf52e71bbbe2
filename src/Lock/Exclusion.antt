-- ===== src/Lock/Exclusion.antt =====
-- What holds of the lock of src/mcu_updater/lock.py in every schedule.
use mcu_updater.Base.{
  ℕ, ◌≡◌, refl, sym, ap, ◌∙◌, true, false, Option, none, some, List, [], ◌∷◌, ◌==◌, ==_iff, arith,
  Bool-cases, inl, inr,
}
use mathlib.Core.Path.{subst}
use mcu_updater.Base.Text.{Text}
use mcu_updater.Lock.Defs.{
  Owner, LockFile, Phase, idle, holding, answered, acquire, holder, Command, call, next, kill,
  attempt, unlock, begin, proceed, advance, World, step, run, at_rest,
}
use mcu_updater.Lock.Kept.{owns, is_owner, Said, Said-unowned, Fits, Fits-advance}
use mcu_updater.Lock.Spares.{Spares, Spares-advance}

unfoldable IsKept : World → Type 0
IsKept w = (q : ℕ) → Fits q w.file (w.phase q)

Fits-other :
    (p q : ℕ) (f g : LockFile) (ph : Phase)
    → (p == q) ≡ false
    → Spares p q f g
    → Fits q f ph
    → Fits q g ph
unfolding Spares Fits
Fits-other p q f g ph apart (same, inl e) (mine, said) =
    (mine ∙ sym same, subst (λ r. Said q ph r) (sym e) said)
Fits-other p q f g ph apart (same, inr e) (mine, said) =
    let other : is_owner q f.flock ≡ false = one_owner f.flock e in
    (mine ∙ sym same, Said-unowned q ph g.owner (mine ∙ other))
  where
    one_owner : (o : Option ℕ) → is_owner p o ≡ true → is_owner q o ≡ false
    one_owner none h = unfold is_owner in refl
    one_owner (some r) h =
        let same : (r == p) ≡ true = unfold is_owner in h in
        unfold is_owner in ground (arith, same, apart)

step-IsKept : (p : ℕ) (c : Command) (w : World) → IsKept w → IsKept (step p c w)
unfolding IsKept step
step-IsKept p c w kept q = elim (Bool-cases (p == q)) [
  | inl h ↦
      let same : p ≡ q = (==_iff p q).0 h in
      rw h (
        subst (λ r. Fits r (advance p (w.phase p) c w.file).0 (advance p (w.phase p) c w.file).1)
          same (Fits-advance p (w.phase p) c w.file (kept p)))
  | inr h ↦ rw h (
      Fits-other p q w.file (advance p (w.phase p) c w.file).0 (w.phase q) h
        (Spares-advance p q w.file h (w.phase p) c (unfold Fits in (kept p).0)) (kept q))
]

run-IsKept : (cs : List (ℕ × Command)) (w : World) → IsKept w → IsKept (run cs w)
unfolding run
run-IsKept [] w k = k
run-IsKept ((p, c) ∷ cs) w k = run-IsKept cs (step p c w) (step-IsKept p c w k)

at_rest-IsKept : (d : Option Owner) → IsKept (at_rest d)
unfolding IsKept Fits owns is_owner Said
at_rest-IsKept d q = (refl, tt)

Kept_run : (cs : List (ℕ × Command)) (d : Option Owner) → IsKept (run cs (at_rest d))
Kept_run cs d = run-IsKept cs (at_rest d) (at_rest-IsKept d)

is_owner-some : (p : ℕ) (o : Option ℕ) → is_owner p o ≡ true → o ≡ some p
unfolding is_owner
is_owner-some p none h = cc h
is_owner-some p (some q) h = ap some ((==_iff q p).0 h)

has_flock : (w : World) (p : ℕ) → IsKept w → owns (w.phase p) ≡ true → w.file.flock ≡ some p
unfolding IsKept Fits
has_flock w p kept h = is_owner-some p w.file.flock (sym (kept p).0 ∙ h)

-- In every schedule of calls, steps and kills that starts with the lock free, whatever record a killed
-- process left, two actors that are past the flock (writing the record, holding the lock, giving it back,
-- or clearing a stale record) are one.
pub run-owns :
    (cs : List (ℕ × Command)) (d : Option Owner) (p q : ℕ)
    → owns ((run cs (at_rest d)).phase p) ≡ true
    → owns ((run cs (at_rest d)).phase q) ≡ true
    → p ≡ q
run-owns cs d p q h k =
    let w = run cs (at_rest d) in
    let first = has_flock w p (Kept_run cs d) h in
    let second = has_flock w q (Kept_run cs d) k in cc (first, second)

-- In every schedule of calls, steps and kills that starts with the lock free, while an actor holds the lock
-- the kernel's flock is its own and the record in the file names it and its label, also while others read
-- the record and probe the lock.
pub run-holding :
    (cs : List (ℕ × Command)) (d : Option Owner) (p : ℕ) (l : Text)
    → (run cs (at_rest d)).phase p ≡ holding l
    → ((run cs (at_rest d)).file.flock ≡ some p)
      × ((run cs (at_rest d)).file.owner ≡ some (record { pid = p; label = l }))
unfolding IsKept Fits
run-holding cs d p l e =
    let w = run cs (at_rest d) in
    let kept = Kept_run cs d in
    let mine : owns (w.phase p) ≡ true = ap owns e ∙ unfold owns in refl in
    let said : Said p (holding l) w.file.owner =
      subst (λ ph. Said p ph w.file.owner) e (kept p).1 in
    (has_flock w p kept mine, unfold Said in said)

module _ (w : World) (p q : ℕ) (m : Text) (flocked : w.file.flock ≡ some q)
    (killed : w.phase q ≡ holding m) (calls : w.phase p ≡ idle) where
  apart : (q == p) ≡ false
  apart = elim (Bool-cases (q == p)) [
    | inl h ↦
        let same : w.phase q ≡ w.phase p = ap w.phase ((==_iff q p).0 h) in
        let clash : holding m ≡ idle = sym killed ∙ same ∙ calls in cc clash
    | inr h ↦ h
  ]

  acquires :
      (l : Text)
      → (run ((q, kill) ∷ (p, call (acquire l)) ∷ (p, next) ∷ (p, next) ∷ (p, next) ∷ []) w).phase p
        ≡ holding l
  unfolding run step advance begin proceed attempt unlock
  acquires l =
      let other = apart in
      let self = (==_iff p p).1 refl in
      let killer = (==_iff q q).1 refl in rw (flocked, self, killer, other, calls) refl

  answers :
      (d : Owner)
      → w.file.owner ≡ some d
      → let v = run ((q, kill) ∷ (p, call holder) ∷ (p, next) ∷ (p, next) ∷ (p, next) ∷ []) w in
        (v.phase p ≡ answered none) × (v.file ≡ record { flock = none; owner = none })
  unfolding run step advance begin proceed attempt unlock
  answers d named =
      let other = apart in
      let self = (==_iff p p).1 refl in
      let killer = (==_iff q q).1 refl in
      rw (flocked, named, self, killer, other, calls) (rw self (refl, refl))

-- After every schedule of calls, steps and kills that starts with the lock free, when the actor that holds
-- the lock is killed, an idle actor that calls acquire holds the lock three steps later, and one that calls
-- holder is told three steps later that nobody holds it, and has cleared the record that the killed process
-- left, if no other actor takes a step in between.
pub run-kill :
    (cs : List (ℕ × Command)) (d : Option Owner) (p q : ℕ) (l m : Text)
    → (run cs (at_rest d)).phase q ≡ holding m
    → (run cs (at_rest d)).phase p ≡ idle
    → let w = run cs (at_rest d) in
      let asked = run ((q, kill) ∷ (p, call holder) ∷ (p, next) ∷ (p, next) ∷ (p, next) ∷ []) w in
      ((run ((q, kill) ∷ (p, call (acquire l)) ∷ (p, next) ∷ (p, next) ∷ (p, next) ∷ []) w).phase p
        ≡ holding l)
      × (asked.phase p ≡ answered none)
      × (asked.file ≡ record { flock = none; owner = none })
run-kill cs d p q l m killed calls =
    let w = run cs (at_rest d) in
    let (flocked, named) = run-holding cs d q m killed in
    let (answer, file) =
      answers w p q m flocked killed calls (record { pid = q; label = m }) named in
    (acquires w p q m flocked killed calls l, answer, file)
