-- ===== src/Provision/Safe.antt =====
-- What `auto_provision` of src/mcu_updater/provisioning.py writes to.
use mathlib.Core.Path.{subst}
use mcu_updater.Base.{
  ◌≡◌, refl, sym, ◌∙◌, Bool, true, false, not, ◌&&◌, ◌||◌, Option, none, some, List, [], ◌∷◌,
  if◌then◌else◌, arith, Bool-cases, inl, inr,
}
use mcu_updater.Base.Text.{Text, text_eq_iff}
use mcu_updater.Cfg.Parse.{has_text}
use mcu_updater.Types.Defs.{FirmwareFamily, Families}
use mcu_updater.Registry.Defs.{sorted}
use mcu_updater.Provision.Auto.{
  Judgement, raised, judged, Outcome, Sweep, Helper, Found, unknown, nothing, found, write_one,
  sweep_serials, sweep_helper, sweep_found, sweep_families, no_sweep, auto_provision,
}
use mcu_updater.Provision.Asked.{
  calls_for, helper_asks, is_asked, is_distinct, all_pass, not_among, all_pass-more,
  all_pass-sorted, all_pass_self,
}

-- What holds of a sweep all along.
unfoldable Clean : (Text → Bool) → Sweep → Type 0
Clean p w =
    (is_distinct w.writes ≡ true)
    × (all_pass (λ s. has_text s w.attempted) w.writes ≡ true)
    × (all_pass p w.writes ≡ true)

Clean-write_one :
    (p : Text → Bool) (h : Helper) (provision : List Text → Text → Outcome) (s : Text) (w : Sweep)
    → p s ≡ true
    → has_text s w.attempted ≡ false
    → Clean p w
    → Clean p (write_one h provision s w)
unfolding Clean write_one
Clean-write_one p h provision s w allowed new (distinct, tried, passed) =
    let more = all_pass-more s w.writes w.attempted tried in
    let fresh = not_among s w.writes w.attempted tried new in
    let here : has_text s (s ∷ w.attempted) ≡ true =
      unfold has_text in rw (text_eq_iff s s).1 refl in
    elim (Bool-cases (h.lock_free w.attempted)) [
      | inl k ↦ rw k (
        unfold is_distinct in rw (fresh, distinct) refl,
        unfold all_pass in rw (here, more) refl,
        unfold all_pass in rw (allowed, passed) refl,
      )
      | inr k ↦ rw k (distinct, more, passed)
    ]

module _ (p : Text → Bool) (may : Bool) (devices : List Text) where
  -- Whom the judge asks for, among the devices and where it may be, passes.
  unfoldable Allows : (Text → Bool) → Type 0
  Allows asks = (s : Text) → has_text s devices ≡ true → may ≡ true → asks s ≡ true → p s ≡ true

  module _ (h : Helper) (judge : Text → Judgement) (provision : List Text → Text → Outcome)
      (allows : Allows (λ s. calls_for (judge s))) where
    Clean-sweep_serials :
        (ss : List Text) (w : Sweep)
        → all_pass (λ s. has_text s devices) ss ≡ true
        → Clean p w
        → Clean p (sweep_serials may h judge provision ss w)
    unfolding sweep_serials all_pass Allows
    Clean-sweep_serials [] w sub clean = clean
    Clean-sweep_serials (s ∷ ss) w sub clean =
        decided (λ v. Clean-sweep_serials ss v (ground (arith, sub))) (judge s) refl
      where
        here : has_text s devices ≡ true
        here = ground (arith, sub)

        next : Sweep
        next = write_one h provision s w

        decided :
            ((v : Sweep) → Clean p v → Clean p (sweep_serials may h judge provision ss v))
            → (j : Judgement) → judge s ≡ j
            → Clean p (elim j as (λ _. Sweep) [
              | raised ↦ w
              | judged fine remedy ↦
                  if fine || not remedy || not may || has_text s w.attempted
                  then sweep_serials may h judge provision ss w
                  else sweep_serials may h judge provision ss next
            ])
        decided later raised e = clean
        decided later (judged fine remedy) e =
            elim (Bool-cases (fine || not remedy || not may || has_text s w.attempted)) [
              | inl k ↦ rw k (later w clean)
              | inr k ↦
                  let permitted : may ≡ true = ground (arith, k) in
                  let new : has_text s w.attempted ≡ false = ground (arith, k) in
                  let asked : calls_for (judge s) ≡ true =
                    rw e (unfold calls_for in ground (arith, k)) in
                  rw k (
                    later next
                      (Clean-write_one p h provision s w (allows s here permitted asked) new clean))
            ]

  Clean-sweep_found :
      (f : Found) (ss : List Text) (w : Sweep)
      → Allows (helper_asks f)
      → all_pass (λ s. has_text s devices) ss ≡ true
      → Clean p w
      → Clean p (sweep_found may f ss w)
  unfolding sweep_found sweep_helper helper_asks Allows
  Clean-sweep_found unknown ss w allows sub clean = clean
  Clean-sweep_found nothing ss w allows sub clean = clean
  Clean-sweep_found (found h) ss w allows sub clean = judges h.judge refl
    where
      judges :
          (o : Option (Text → Judgement))
          → h.judge ≡ o
          → Clean p (elim o as (λ _. Sweep) [
            | none ↦ w
            | some judge ↦ elim h.provision as (λ _. Sweep) [
              | none ↦ w
              | some provision ↦ sweep_serials may h judge provision ss w
            ]
          ])
      judges none e = clean
      judges (some judge) e = provisions h.provision
        where
          asks : Allows (λ s. calls_for (judge s))
          asks = λ s here permitted asked. allows s here permitted (rw e asked)

          provisions :
              (o : Option (List Text → Text → Outcome))
              → Clean p (elim o as (λ _. Sweep) [
                | none ↦ w
                | some provision ↦ sweep_serials may h judge provision ss w
              ])
          provisions none = clean
          provisions (some provision) = Clean-sweep_serials h judge provision asks ss w sub clean

module _ (may : Bool) (for_name : FirmwareFamily → Found) (devices : List Text)
    (all : Families) where
  -- What may be written to.
  unfoldable pub is_allowed : Text → Bool
  is_allowed s = may && has_text s devices && is_asked for_name all s

  Clean-sweep_families :
      (fs : Families) (ss : List Text) (w : Sweep)
      → ((s : Text) → is_asked for_name fs s ≡ true → is_asked for_name all s ≡ true)
      → all_pass (λ s. has_text s devices) ss ≡ true
      → Clean is_allowed w
      → Clean is_allowed (sweep_families may for_name ss fs w)
  unfolding sweep_families is_asked
  Clean-sweep_families [] ss w up sub clean = clean
  Clean-sweep_families ((n, f) ∷ fs) ss w up sub clean =
      let later = Clean-sweep_families fs ss in
      let rest : (s : Text) → is_asked for_name fs s ≡ true → is_asked for_name all s ≡ true =
        λ s h. up s (ground (arith, h)) in
      elim (Bool-cases f.auto_provision) [
        | inl k ↦
            let asks : Allows is_allowed may devices (helper_asks (for_name f)) =
              unfold Allows is_allowed in
              λ s here permitted asked.
                let named = up s (ground (arith, k, asked)) in
                ground (arith, here, permitted, named) in
            let swept = Clean-sweep_found is_allowed may devices (for_name f) ss w asks sub clean in
            subst
              (λ b. Clean is_allowed (
                sweep_families may for_name ss fs
                  (if b then sweep_found may (for_name f) ss w else w)))
              (sym k) (later (sweep_found may (for_name f) ss w) rest sub swept)
        | inr k ↦
            subst
              (λ b. Clean is_allowed (
                sweep_families may for_name ss fs
                  (if b then sweep_found may (for_name f) ss w else w)))
              (sym k) (later w rest sub clean)
      ]

-- In one sweep over the families of a configuration and the serials on the bus, whatever the helpers and
-- the lock answer, no board is written to twice, and each board that is written to is one of those on the
-- bus, the caller allows writing, and some family that opted in has a helper whose judge calls for
-- provisioning the board.
pub auto_provision-writes :
    (may : Bool) (for_name : FirmwareFamily → Found) (families : Families) (devices : List Text)
    → let w = auto_provision may for_name (some families) devices in
      (is_distinct w.writes ≡ true)
      × (all_pass (is_allowed may for_name devices families) w.writes ≡ true)
unfolding auto_provision Clean
auto_provision-writes may for_name families devices =
    let sub = all_pass-sorted (λ s. has_text s devices) devices ∙ all_pass_self devices in
    let start : Clean (is_allowed may for_name devices families) no_sweep =
      unfold Clean is_distinct all_pass in (refl, refl, refl) in
    let (distinct, tried, passed) : Clean (is_allowed may for_name devices families)
        (sweep_families may for_name (sorted devices) families no_sweep) =
      Clean-sweep_families may for_name devices families families (sorted devices) no_sweep
        (λ s h. h) sub start in
    (distinct, passed)
