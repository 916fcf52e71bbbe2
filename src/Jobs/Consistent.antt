-- ===== src/Jobs/Consistent.antt =====
-- What holds of JobRunner between any two steps, and that `submit` keeps it, to its failed start.
use mcu_updater.Base.{
  ℕ, ◌≤◌, ◌≡◌, refl, Bool, true, false, not, ◌&&◌, Option, none, some, String, if◌then◌else◌, arith,
  Bool-cases, inl, inr,
}
use mcu_updater.Base.Result.{Result, ok, err}
use mcu_updater.Jobs.Runner.{
  SubmitError, busy, lock_busy, Job, running, Phase, absent, starting, working, closing, unlocked,
  not_started, not_started_unlocked, not_started_cleared, Runner, launch, submit, start,
  unlock_failed, clear_failed, fail_job,
}

-- The phases between the acquire of the lock and its release.
abbrev pub holds_lock : Phase → Bool
holds_lock absent = false
holds_lock starting = true
holds_lock working = true
holds_lock closing = true
holds_lock unlocked = false
holds_lock not_started = true
holds_lock not_started_unlocked = false
holds_lock not_started_cleared = false

-- The phases between the setting of the slot and its clearing.
abbrev pub in_slot : Phase → Bool
in_slot absent = false
in_slot starting = true
in_slot working = true
in_slot closing = true
in_slot unlocked = true
in_slot not_started = true
in_slot not_started_unlocked = true
in_slot not_started_cleared = false

-- The phases in which the state of the job is not final yet.
abbrev pub unsettled : Phase → Bool
unsettled absent = false
unsettled starting = true
unsettled working = true
unsettled closing = false
unsettled unlocked = false
unsettled not_started = true
unsettled not_started_unlocked = true
unsettled not_started_cleared = true

pub record IsConsistent (r : Runner) : Type 0 where
  pub slot : (id : ℕ) → in_slot (r.worker id) ≡ true → r.current ≡ some id
  pub owned : (id : ℕ) → r.current ≡ some id → in_slot (r.worker id) ≡ true
  pub held : (id : ℕ) → r.current ≡ some id → r.locked ≡ holds_lock (r.worker id)
  pub freed : r.current ≡ none → r.locked ≡ false
  pub runs :
      (id : ℕ) (j : Job) → r.jobs id ≡ some j → j.state ≡ running → unsettled (r.worker id) ≡ true
  pub fresh : (id : ℕ) → r.next_id ≤ id → (r.jobs id ≡ none) × (r.worker id ≡ absent)

launch-IsConsistent :
    (kind : String) (r : Runner) → r.current ≡ none → IsConsistent r → IsConsistent (launch kind r)
unfolding launch
launch-IsConsistent kind r e c = record {
  slot = λ id w. let a = c.slot id in ground (arith, a, e, w);
  owned = λ id o. ground (arith, o);
  held = λ id o. ground (arith, o);
  freed = λ n. absurd (cc n);
  runs = λ id j k s. let b = c.runs id j in ground (arith, b, k, s);
  fresh = λ id le. let f = c.fresh id in ground (arith, f, le);
}

pub submit-IsConsistent :
    (kind : String) (free : Bool) (r : Runner)
    → IsConsistent r
    → IsConsistent (submit kind free r).1
unfolding submit
submit-IsConsistent kind free r c = at_slot r.current refl
  where
    at_slot :
        (o : Option ℕ)
        → r.current ≡ o
        → IsConsistent
            (elim o as (λ _. Result SubmitError ℕ × Runner) [
              | some id ↦ (err (busy id), r)
              | none ↦
                  if free && not r.locked then (ok r.next_id, launch kind r) else (err lock_busy, r)
            ]).1
    at_slot (some id) e = c
    at_slot none e = elim (Bool-cases (free && not r.locked)) [
      | inl f ↦ rw f (launch-IsConsistent kind r e c)
      | inr f ↦ rw f c
    ]

pub start-IsConsistent :
    (id : ℕ) (starts : Bool) (r : Runner)
    → r.worker id ≡ starting
    → IsConsistent r
    → IsConsistent (start id starts r)
unfolding start
start-IsConsistent id starts r w c = record {
  slot = λ k v. let a = c.slot k in ground (arith, a, v, w);
  owned = λ k o. let a = c.owned k o in ground (arith, a, w);
  held = λ k o. let a = c.held k o in ground (arith, a, w);
  freed = c.freed;
  runs = λ k j q s. let b = c.runs k j q s in ground (arith, b, w);
  fresh = λ k le. let f = c.fresh k le in ground (arith, f, w);
}

pub unlock_failed-IsConsistent :
    (id : ℕ) (r : Runner)
    → r.worker id ≡ not_started
    → IsConsistent r
    → IsConsistent (unlock_failed id r)
unfolding unlock_failed
unlock_failed-IsConsistent id r w c =
    let own = c.slot id (rw w refl) in
    record {
      slot = λ k v. let a = c.slot k in ground (arith, a, v, w);
      owned = λ k o. let a = c.owned k o in ground (arith, a, w);
      held = λ k o. ground (arith, own, o);
      freed = λ n. absurd (cc (n, own));
      runs = λ k j q s. let b = c.runs k j q s in ground (arith, b, w);
      fresh = λ k le. let f = c.fresh k le in ground (arith, f, w);
    }

pub clear_failed-IsConsistent :
    (id : ℕ) (r : Runner)
    → r.worker id ≡ not_started_unlocked
    → IsConsistent r
    → IsConsistent (clear_failed id r)
unfolding clear_failed
clear_failed-IsConsistent id r w c =
    let own = c.slot id (rw w refl) in
    let l = c.held id own in
    record {
      slot = λ k v. let a = c.slot k in absurd (ground (arith, a, v, own));
      owned = λ k o. absurd (cc o);
      held = λ k o. absurd (cc o);
      freed = λ n. ground (arith, l, w);
      runs = λ k j q s. let b = c.runs k j q s in ground (arith, b, w);
      fresh = λ k le. let f = c.fresh k le in ground (arith, f, w);
    }

pub fail_job-IsConsistent :
    (id : ℕ) (r : Runner)
    → r.worker id ≡ not_started_cleared
    → IsConsistent r
    → IsConsistent (fail_job id r)
unfolding fail_job
fail_job-IsConsistent id r w c = record {
  slot = λ k v. let a = c.slot k in ground (arith, a, v, w);
  owned = λ k o. let a = c.owned k o in ground (arith, a, w);
  held = λ k o. let a = c.held k o in ground (arith, a, w);
  freed = c.freed;
  runs = λ k j q s. let b = c.runs k j in ground (arith, b, q, s);
  fresh = λ k le. let f = c.fresh k le in ground (arith, f, w);
}
