-- ===== src/Jobs/Final.antt =====
-- A job that has finished stays as it finished.
use mcu_updater.Base.{
  ℕ, ◌≡◌, refl, sym, ◌∙◌, ap, Bool, true, false, not, ◌&&◌, Option, none, some, String, ◌==◌,
  if◌then◌else◌, arith, Bool-cases, inl, inr,
}
use mcu_updater.Base.Result.{Result, ok, err}
use mcu_updater.Jobs.Runner.{
  SubmitError, busy, lock_busy, CancelReply, unknown_job, Job, JobState, running, Runner, launch,
  submit, start, unlock_failed, clear_failed, fail_job, finish, release, leave, is_terminal,
  request_cancel, cancel, Step, submitting, start_thread, unlocking_failed, clearing_failed,
  failing_job, finishing, releasing, leaving, cancelling_job, Reachable, at_start, then_step,
}
use mcu_updater.Jobs.Consistent.{unsettled, IsConsistent}
use mcu_updater.Jobs.Slot.{Reachable-IsConsistent}

abbrev pub state_of : Option Job → Option JobState
state_of none = none
state_of (some j) = some j.state

-- Until its state is set, a job is running.
abbrev IsWorking : Runner → Type 0
IsWorking r = (id : ℕ) → unsettled (r.worker id) ≡ true → state_of (r.jobs id) ≡ some running

launch-IsWorking : (kind : String) (r : Runner) → IsWorking r → IsWorking (launch kind r)
unfolding launch
launch-IsWorking kind r w id k = let before = w id in ground (arith, before, k)

submit-IsWorking :
    (kind : String) (free : Bool) (r : Runner) → IsWorking r → IsWorking (submit kind free r).1
unfolding submit
submit-IsWorking kind free r w = at_slot r.current
  where
    at_slot :
        (o : Option ℕ)
        → IsWorking
            (elim o as (λ _. Result SubmitError ℕ × Runner) [
              | some id ↦ (err (busy id), r)
              | none ↦
                  if free && not r.locked then (ok r.next_id, launch kind r) else (err lock_busy, r)
            ]).1
    at_slot (some id) = w
    at_slot none = elim (Bool-cases (free && not r.locked)) [
      | inl f ↦ rw f (launch-IsWorking kind r w)
      | inr f ↦ rw f w
    ]

request_cancel-state_of :
    (id : ℕ) (j : Job) (r : Runner) (k : ℕ)
    → r.jobs id ≡ some j
    → (state_of ((request_cancel id j r).1.jobs k) ≡ state_of (r.jobs k))
      × ((request_cancel id j r).1.worker k ≡ r.worker k)
unfolding request_cancel
request_cancel-state_of id j r k e = elim (Bool-cases (is_terminal j.state)) [
  | inl t ↦ rw t (refl, refl)
  | inr t ↦ rw t (ground (arith, e), refl)
]

cancel-state_of :
    (id : ℕ) (r : Runner) (k : ℕ)
    → (state_of ((cancel id r).1.jobs k) ≡ state_of (r.jobs k))
      × ((cancel id r).1.worker k ≡ r.worker k)
unfolding cancel
cancel-state_of id r k = found (r.jobs id) refl
  where
    found :
        (o : Option Job)
        → r.jobs id ≡ o
        → let r' =
            (elim o as (λ _. CancelReply × Runner) [
              | none ↦ (unknown_job, r)
              | some j ↦ request_cancel id j r
            ]).1 in
          (state_of (r'.jobs k) ≡ state_of (r.jobs k)) × (r'.worker k ≡ r.worker k)
    found none e = (refl, refl)
    found (some j) e = request_cancel-state_of id j r k e

Reachable-IsWorking : (r : Runner) → Reachable r → IsWorking r
unfolding start unlock_failed clear_failed fail_job finish release leave
Reachable-IsWorking r (at_start history) k v = absurd (cc v)
Reachable-IsWorking r (then_step {r = before} h (submitting kind free)) k v =
    submit-IsWorking kind free before (Reachable-IsWorking before h) k v
Reachable-IsWorking r (then_step {r = before} h (start_thread id starts w)) k v =
    let old = Reachable-IsWorking before h k in ground (arith, old, v, w)
Reachable-IsWorking r (then_step {r = before} h (unlocking_failed id w)) k v =
    let old = Reachable-IsWorking before h k in ground (arith, old, v, w)
Reachable-IsWorking r (then_step {r = before} h (clearing_failed id w)) k v =
    let old = Reachable-IsWorking before h k in ground (arith, old, v, w)
Reachable-IsWorking r (then_step {r = before} h (failing_job id w)) k v =
    let old = Reachable-IsWorking before h k in ground (arith, old, v, w)
Reachable-IsWorking r (then_step {r = before} h (finishing id ending w)) k v =
    let old = Reachable-IsWorking before h k in ground (arith, old, v, w)
Reachable-IsWorking r (then_step {r = before} h (releasing id w)) k v =
    let old = Reachable-IsWorking before h k in ground (arith, old, v, w)
Reachable-IsWorking r (then_step {r = before} h (leaving id w)) k v =
    let old = Reachable-IsWorking before h k in ground (arith, old, v, w)
Reachable-IsWorking r (then_step {r = before} h (cancelling_job id)) k v =
    let same = cancel-state_of id before k in
    same.0 ∙ Reachable-IsWorking before h k (ap unsettled (sym same.1) ∙ v)

submit-state_of :
    (kind : String) (free : Bool) (r : Runner) (k : ℕ) (s : JobState)
    → IsConsistent r
    → state_of (r.jobs k) ≡ some s
    → state_of ((submit kind free r).1.jobs k) ≡ some s
unfolding submit launch
submit-state_of kind free r k s c e = at_slot r.current
  where
    new : (k == r.next_id) ≡ false
    new = let f = c.fresh k in ground (arith, f, e)

    at_slot :
        (o : Option ℕ)
        → state_of (
            (elim o as (λ _. Result SubmitError ℕ × Runner) [
              | some id ↦ (err (busy id), r)
              | none ↦
                  if free && not r.locked then (ok r.next_id, launch kind r) else (err lock_busy, r)
            ]).1.jobs
              k)
          ≡ some s
    at_slot (some id) = e
    at_slot none = elim (Bool-cases (free && not r.locked)) [
      | inl f ↦ rw f (rw new e)
      | inr f ↦ rw f e
    ]

-- A job that has reached a terminal state keeps it through any step of a caller or a worker.
pub Step-state_of :
    (r r' : Runner) (k : ℕ) (s : JobState)
    → Reachable r
    → Step r r'
    → state_of (r.jobs k) ≡ some s
    → is_terminal s ≡ true
    → state_of (r'.jobs k) ≡ some s
unfolding start unlock_failed clear_failed fail_job finish release leave
Step-state_of r r' k s h (submitting kind free) e t =
    submit-state_of kind free r k s (Reachable-IsConsistent r h) e
Step-state_of r r' k s h (start_thread id starts w) e t = e
Step-state_of r r' k s h (unlocking_failed id w) e t = e
Step-state_of r r' k s h (clearing_failed id w) e t = e
Step-state_of r r' k s h (failing_job id w) e t =
    let on = Reachable-IsWorking r h id (rw w refl) in ground (arith, on, e, t)
Step-state_of r r' k s h (finishing id ending w) e t =
    let on = Reachable-IsWorking r h id (rw w refl) in ground (arith, on, e, t)
Step-state_of r r' k s h (releasing id w) e t = e
Step-state_of r r' k s h (leaving id w) e t = e
Step-state_of r r' k s h (cancelling_job id) e t = (cancel-state_of id r k).0 ∙ e
