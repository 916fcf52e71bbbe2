-- ===== src/Batch/Trace.antt =====
-- The steps of a batch give the services no order: that is for `services_stopped`.
use mcu_updater.Base.{
  ◌≡◌, refl, ap, ◌∙◌, List, [], ◌∷◌, ◌++◌, map, String, Bool-cases, inl, inr, Option, none, some,
}
use mcu_updater.Base.Dict.{Dict, get}
use mcu_updater.Base.Result.{Result, ok, err, Result-cases}
use mcu_updater.Service.Defs.{Event, inside, Exc}
use mcu_updater.Service.Orders.{IsInside}
use mcu_updater.Batch.Prog.{Prog, pure, raise, tell, ask, ◌>>=◌, ending}
use mcu_updater.Batch.Groups.{FlashTarget, by_flasher}
use mcu_updater.Batch.Defs.{
  Bench, Flasher, Report, filed, is_updater_error, file_record, settle, keep, give_up, write_target,
  write_targets, write_mine, write_groups, write_group, all_known, tolerate,
}

pure-IsInside : (E : Type 0) {A : Type 0} (a : A) → IsInside (pure {E = E} a)
unfolding IsInside pure
pure-IsInside E a g = ([], refl)

raise-IsInside : (E A : Type 0) (e : Exc) → IsInside (raise {E = E} {A = A} e)
unfolding IsInside raise
raise-IsInside E A e g = ([], refl)

module _ {E : Type 0} where
  -- A later step's events follow those of an earlier one.
  map-inside-append :
      (ds es : List E) (h g : List (Event E))
      → h ≡ map inside es ++ g
      → map inside ds ++ h ≡ map inside (ds ++ es) ++ g
  map-inside-append [] es h g e = e
  map-inside-append (d ∷ ds) es h g e = ap (λ t. inside d ∷ t) (map-inside-append ds es h g e)

  >>=-IsInside :
      {A B : Type 0}
      → (p : Prog E A) (f : A → Prog E B) → IsInside p
      → ((a : A) → IsInside (f a))
      → IsInside (p >>= f)
  unfolding IsInside ◌>>=◌
  >>=-IsInside p f i j g =
      let (es, e) = i g in
      elim (Result-cases (p g).result) [
        | inl (x, r) ↦ (es, rw r e)
        | inr (a, r) ↦
            let (ds, d) = j a (p g).history in
            (ds ++ es, rw r (d ∙ map-inside-append ds es (p g).history g e))
      ]

  tell-IsInside : (e : E) → IsInside (tell e)
  unfolding IsInside tell
  tell-IsInside e g = (e ∷ [], refl)

  ask-IsInside : {A : Type 0} → (f : List (Event E) → Result Exc A) → IsInside (ask f)
  unfolding IsInside ask
  ask-IsInside f g = ([], refl)

  ending-IsInside :
      {A : Type 0}
      → (exit : List (Event E) → Result Exc (Unit {0})) (p : Prog E A) → IsInside p
      → IsInside (ending exit p)
  unfolding IsInside ending
  ending-IsInside exit p i g =
      let (es, e) = i g in
      elim (Result-cases (exit (p g).history)) [
        | inl (x, r) ↦ (es, rw (r, ending) e)
        | inr (a, r) ↦ (es, rw (r, ending) e)
      ]

module _ (bench : Bench) (flasher : Flasher) where
  file_record-IsInside :
      (t : FlashTarget) (c : Option String) → IsInside (file_record bench flasher t c)
  unfolding file_record
  file_record-IsInside t c = elim (Bool-cases bench.dry_run) [
    | inl e ↦ rw e (pure-IsInside _ tt)
    | inr e ↦ rw e (
        >>=-IsInside (ask (λ h. tolerate (flasher.describe t h) none)) _ (ask-IsInside _)
          (elim [ none ↦ pure-IsInside _ tt | some entry ↦ tell-IsInside (filed t entry c) ]))
  ]

  settle-IsInside : (t : FlashTarget) → IsInside (settle flasher t)
  unfolding settle
  settle-IsInside t = >>=-IsInside (tell _) _ (tell-IsInside _) (λ _. ask-IsInside _)

  keep-IsInside :
      (t : FlashTarget) (r : Report) (extra : Dict String) → IsInside (keep bench flasher t r extra)
  unfolding keep
  keep-IsInside t r extra = >>=-IsInside (tell _) _ (tell-IsInside _) (λ _.
      >>=-IsInside (file_record bench flasher t (get extra "confidence")) _
        (file_record-IsInside t _)
        (λ _. >>=-IsInside (settle flasher t) _ (settle-IsInside t) (λ _. pure-IsInside _ _)))

  give_up-IsInside : (t : FlashTarget) (r : Report) (e : Exc) → IsInside (give_up t r e)
  unfolding give_up
  give_up-IsInside t r e = elim (Bool-cases (is_updater_error e)) [
    | inl u ↦ rw u (>>=-IsInside (tell _) _ (tell-IsInside _) (λ _. pure-IsInside _ _))
    | inr u ↦ rw u (raise-IsInside _ _ e)
  ]

  write_target-IsInside : (t : FlashTarget) (r : Report) → IsInside (write_target bench flasher t r)
  unfolding write_target
  write_target-IsInside t r = >>=-IsInside _ _ (ask-IsInside _) (λ _.
      >>=-IsInside (tell _) _ (tell-IsInside _) (λ _.
        >>=-IsInside _ _ (ask-IsInside (λ h. ok (flasher.write t h)))
          (elim [ ok extra ↦ keep-IsInside t r extra | err e ↦ give_up-IsInside t r e ])))

  write_targets-IsInside :
      (ts : List FlashTarget) (r : Report) → IsInside (write_targets bench flasher ts r)
  unfolding write_targets
  write_targets-IsInside [] r = pure-IsInside _ r
  write_targets-IsInside (t ∷ ts) r =
      >>=-IsInside (write_target bench flasher t r) _ (write_target-IsInside t r)
        (write_targets-IsInside ts)

module _ (bench : Bench) where
  write_mine-IsInside :
      (f : Option Flasher) (mine : List FlashTarget) (r : Report)
      → IsInside (write_mine bench f mine r)
  unfolding write_mine
  write_mine-IsInside none mine r = raise-IsInside _ _ _
  write_mine-IsInside (some flasher) mine r =
      >>=-IsInside (ask (flasher.enter mine)) _ (ask-IsInside _)
        (λ _. ending-IsInside flasher.exit _ (write_targets-IsInside bench flasher mine r))

  write_groups-IsInside :
      (groups : Dict (List FlashTarget)) (r : Report) → IsInside (write_groups bench groups r)
  unfolding write_groups
  write_groups-IsInside [] r = pure-IsInside _ r
  write_groups-IsInside ((name, mine) ∷ groups) r =
      >>=-IsInside (write_mine bench (bench.flashers name) mine r) _
        (write_mine-IsInside (bench.flashers name) mine r) (write_groups-IsInside groups)

  pub write_group-IsInside :
      (group : List FlashTarget) (r : Report) → IsInside (write_group bench group r)
  unfolding write_group
  write_group-IsInside group r = elim (Bool-cases (all_known bench (by_flasher group))) [
    | inl k ↦ rw k (write_groups-IsInside (by_flasher group) r)
    | inr k ↦ rw k (raise-IsInside _ _ _)
  ]
