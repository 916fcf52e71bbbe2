-- ===== src/Batch/Every.antt =====
-- The grouping loses no device, and so the batch accounts for each.
use mathlib.Core.Path.{subst}
use mathlib.Core.List.{Perm, perm_middle, append_assoc, append-nil}
use mathlib.Core.List.Perm
use mcu_updater.Base.{
  ◌≡◌, Bool, true, not, Option, none, some, List, [], ◌∷◌, ◌++◌, map, String, str_eq, Bool-cases,
  inl, inr,
}
use mcu_updater.Base.Dict.{Dict}
use mcu_updater.Base.Result.{ok, Result-cases, ok-injective}
use mcu_updater.Service.Defs.{Exc}
use mcu_updater.Service.Outage.{services_stopped_ok}
use mcu_updater.Batch.Prog.{pure, raise, ask, ending}
use mcu_updater.Batch.Groups.{
  FlashTarget, needs_services_stopped, group_by_stop, stop_services_union, file_target, group_from,
  by_flasher,
}
use mcu_updater.Batch.Defs.{
  Bench, Flasher, Report, History, refusal, write_targets, write_mine, write_groups, write_group,
  write_stopped, write_all, all_known, begin, own_stops, all_answered,
}
use mcu_updater.Batch.Accounts.{
  Accounts, Does, devices, write_failures, >>=-ok, Accounts-join, Accounts-nothing,
  write_targets-Accounts,
}

-- The devices of all groups.
abbrev members : Dict (List FlashTarget) → List FlashTarget
members [] = []
members ((name, mine) ∷ groups) = mine ++ members groups

file_target-perm :
    (t : FlashTarget) (groups : Dict (List FlashTarget))
    → Perm (members (file_target t groups)) (t ∷ members groups)
unfolding file_target
file_target-perm t [] = Perm.refl (t ∷ [])
file_target-perm t ((name, mine) ∷ groups) = elim (Bool-cases (str_eq name t.flasher)) [
  | inl same ↦
      rw (same, append_assoc mine (t ∷ []) (members groups))
        (Perm.trans (Perm.append_left mine (Perm.refl (t ∷ members groups)))
          (perm_middle mine (members groups)))
  | inr other ↦ rw other (
      Perm.trans (Perm.append_left mine (file_target-perm t groups))
        (perm_middle mine (members groups)))
]

group_from-perm :
    (groups : Dict (List FlashTarget)) (ts : List FlashTarget)
    → Perm (members (group_from groups ts)) (members groups ++ ts)
unfolding group_from
group_from-perm groups [] = rw (append-nil (members groups)) (Perm.refl (members groups))
group_from-perm groups (t ∷ ts) = Perm.trans (group_from-perm (file_target t groups) ts) (
    Perm.trans (Perm.append_right ts (file_target-perm t groups))
      (Perm.symm (perm_middle (members groups) ts)))

group_by_stop-perm :
    (own : String → Bool) (ts : List FlashTarget)
    → let g = group_by_stop own ts in Perm (g.1 ++ g.0) ts
unfolding group_by_stop
group_by_stop-perm own [] = Perm.refl []
group_by_stop-perm own (t ∷ ts) =
    let g = group_by_stop own ts in
    let later = group_by_stop-perm own ts in
    elim (Bool-cases (needs_services_stopped own t)) [
      | inl n ↦ rw n (Perm.trans (perm_middle g.1 g.0) (Perm.cons t later))
      | inr n ↦ rw n (Perm.cons t later)
    ]

-- The order in which the devices are accounted for is immaterial.
Accounts-perm :
    (r r' : Report) (ts us : List FlashTarget) → Perm ts us → Accounts r ts r' → Accounts r us r'
Accounts-perm r r' ts us p a = record {
  written = a.written;
  broken = a.broken;
  flashed = a.flashed;
  failures = a.failures;
  each = Perm.trans a.each p;
  counted = a.counted;
}

module _ (bench : Bench) where
  write_mine-Accounts :
      (f : Option Flasher) (mine : List FlashTarget) → Does mine (write_mine bench f mine)
  unfolding write_mine raise ending
  write_mine-Accounts none mine r r' h e = absurd (cc e)
  write_mine-Accounts (some flasher) mine r r' h e =
      let (_, _, e1) = >>=-ok (ask (flasher.enter mine)) _ h r' e in ended flasher _ e1
    where
      ended :
          (f : Flasher) (g : History)
          → (ending f.exit (write_targets bench f mine r) g).result ≡ ok r'
          → Accounts r mine r'
      ended f g k = elim (Result-cases (f.exit (write_targets bench f mine r g).history)) [
        | inl (x, q) ↦ let z = rw (q, ending) at k in absurd (cc z)
        | inr (a, q) ↦ write_targets-Accounts bench f mine r r' g (rw (q, ending) at k)
      ]

  write_groups-Accounts :
      (groups : Dict (List FlashTarget)) → Does (members groups) (write_groups bench groups)
  unfolding write_groups pure
  write_groups-Accounts [] r r' h e = subst (Accounts r []) (ok-injective e) (Accounts-nothing r)
  write_groups-Accounts ((name, mine) ∷ groups) r r' h e =
      let (m, e1, e2) =
        >>=-ok (write_mine bench (bench.flashers name) mine r) (write_groups bench groups) h r' e in
      Accounts-join r m r' mine (members groups)
        (write_mine-Accounts (bench.flashers name) mine r m h e1)
        (write_groups-Accounts groups m r' _ e2)

  write_group-Accounts : (group : List FlashTarget) → Does group (write_group bench group)
  unfolding write_group raise by_flasher
  write_group-Accounts group r r' h e = elim (Bool-cases (all_known bench (by_flasher group))) [
    | inl k ↦
        Accounts-perm r r' (members (by_flasher group)) group (group_from-perm [] group)
          (write_groups-Accounts (by_flasher group) r r' h (rw k at e))
    | inr k ↦ let z = rw k at e in absurd (cc z)
  ]

  write_stopped-Accounts : (stopped : List FlashTarget) → Does stopped (write_stopped bench stopped)
  unfolding write_stopped pure
  write_stopped-Accounts [] r r' h e = subst (Accounts r []) (ok-injective e) (Accounts-nothing r)
  write_stopped-Accounts (t ∷ ts) r r' h e =
      let (g, k) =
        services_stopped_ok bench.host true (write_group bench (t ∷ ts) r)
          (stop_services_union (t ∷ ts)) h r' e in
      write_group-Accounts (t ∷ ts) r r' g k

  -- A batch that returns has accounted for every device that was asked for, and for no other: the devices
  -- of `flashed` and those of the failed writes are together the devices that were selected, each as
  -- often as it was, and `failures` is the refusals of the selection followed by the failed writes.
  pub write_all-Accounts :
      (targets : List FlashTarget) (refused : List String) (h : History) (r : Report)
      → (write_all bench targets refused h).result ≡ ok r
      → (broken : List (FlashTarget × Exc)) × (r.failures
          ≡ map refusal refused ++ write_failures broken)
        × Perm (devices r.flashed ++ devices broken) targets
  unfolding write_all raise
  write_all-Accounts targets refused h r e =
      let groups = group_by_stop (own_stops bench) targets in
      elim (Bool-cases (not (all_answered bench targets))) [
        | inl k ↦ let z = rw k at e in absurd (cc z)
        | inr k ↦
            let (m, e1, e2) =
              >>=-ok (write_group bench groups.1 (begin refused)) (write_stopped bench groups.0) h r
                (rw k at e) in
            let a =
              Accounts-join (begin refused) m r groups.1 groups.0
                (write_group-Accounts groups.1 (begin refused) m h e1)
                (write_stopped-Accounts groups.0 m r _ e2) in
            (
              a.broken,
              a.failures,
              rw a.flashed (Perm.trans a.each (group_by_stop-perm (own_stops bench) targets)),
            )
      ]
