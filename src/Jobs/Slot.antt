-- ===== src/Jobs/Slot.antt =====
-- One job at a time: the slot, the lock and the worker at each moment.
use mcu_updater.Base.{
  ℕ, ◌≡◌, ◌≢◌, refl, true, Option, none, some, arith, Bool-cases, Option-cases, inl, inr, ◌⊎◌,
}
use mcu_updater.Jobs.Runner.{
  CancelReply, unknown_job, Job, running, working, closing, unlocked, not_started_cleared, Runner,
  Ending, returned, raised_cancelled, raised, ending_state, finish, release, leave, is_terminal,
  request_cancel, cancel, submitting, start_thread, unlocking_failed, clearing_failed, failing_job,
  finishing, releasing, leaving, cancelling_job, Reachable, at_start, then_step,
}
use mcu_updater.Jobs.Consistent.{
  holds_lock, IsConsistent, submit-IsConsistent, start-IsConsistent, unlock_failed-IsConsistent,
  clear_failed-IsConsistent, fail_job-IsConsistent,
}

ending-ne-running : (ending : Ending) → ending_state ending ≢ running
unfolding ending_state
ending-ne-running returned e = cc
ending-ne-running raised_cancelled e = cc
ending-ne-running raised e = cc

finish-IsConsistent :
    (id : ℕ) (ending : Ending) (r : Runner)
    → r.worker id ≡ working
    → IsConsistent r
    → IsConsistent (finish id ending r)
unfolding finish
finish-IsConsistent id ending r w c = record {
  slot = λ k v. let a = c.slot k in ground (arith, a, v, w);
  owned = λ k o. let a = c.owned k o in ground (arith, a, w);
  held = λ k o. let a = c.held k o in ground (arith, a, w);
  freed = c.freed;
  runs = λ k j q s.
      let b = c.runs k j in let n = ending-ne-running ending in ground (arith, b, q, s, n);
  fresh = λ k le. let f = c.fresh k le in ground (arith, f, w);
}

release-IsConsistent :
    (id : ℕ) (r : Runner) → r.worker id ≡ closing → IsConsistent r → IsConsistent (release id r)
unfolding release
release-IsConsistent id r w c =
    let own = c.slot id (rw w refl) in
    record {
      slot = λ k v. let a = c.slot k in ground (arith, a, v, w);
      owned = λ k o. let a = c.owned k o in ground (arith, a, w);
      held = λ k o. ground (arith, own, o);
      freed = λ n. absurd (cc (n, own));
      runs = λ k j q s. let b = c.runs k j q s in ground (arith, b, w);
      fresh = λ k le. let f = c.fresh k le in ground (arith, f, w);
    }

leave-IsConsistent :
    (id : ℕ) (r : Runner) → r.worker id ≡ unlocked → IsConsistent r → IsConsistent (leave id r)
unfolding leave
leave-IsConsistent id r w c =
    let own = c.slot id (rw w refl) in
    let l = c.held id own in
    record {
      slot = λ k v. let a = c.slot k in absurd (ground (arith, a, v, own));
      owned = λ k o. absurd (cc o);
      held = λ k o. absurd (cc o);
      freed = λ n. ground (arith, l, w);
      runs = λ k j q s. let b = c.runs k j q s in ground (arith, b, w);
      fresh = λ k le. let f = c.fresh k le in ground (arith, f, w);
    }

request_cancel-IsConsistent :
    (id : ℕ) (j : Job) (r : Runner)
    → r.jobs id ≡ some j
    → IsConsistent r
    → IsConsistent (request_cancel id j r).1
unfolding request_cancel
request_cancel-IsConsistent id j r e c = elim (Bool-cases (is_terminal j.state)) [
  | inl t ↦ rw t c
  | inr t ↦ rw t (record {
    slot = c.slot;
    owned = c.owned;
    held = c.held;
    freed = c.freed;
    runs = λ k i q s. let b = c.runs k i in let own = c.runs id j e in ground (arith, b, own, q, s);
    fresh = λ k le. let f = c.fresh k le in ground (arith, f, e);
  })
]

cancel-IsConsistent : (id : ℕ) (r : Runner) → IsConsistent r → IsConsistent (cancel id r).1
unfolding cancel
cancel-IsConsistent id r c = found (r.jobs id) refl
  where
    found :
        (o : Option Job)
        → r.jobs id ≡ o
        → IsConsistent
            (elim o as (λ _. CancelReply × Runner) [
              | none ↦ (unknown_job, r)
              | some j ↦ request_cancel id j r
            ]).1
    found none e = c
    found (some j) e = request_cancel-IsConsistent id j r e c

pub Reachable-IsConsistent : (r : Runner) → Reachable r → IsConsistent r
Reachable-IsConsistent r (at_start history) = record {
  slot = λ id w. absurd (cc w);
  owned = λ id o. absurd (cc o);
  held = λ id o. absurd (cc o);
  freed = λ n. refl;
  runs = λ id j e s. absurd (cc e);
  fresh = λ id le. (refl, refl);
}
Reachable-IsConsistent r (then_step {r = before} h (submitting kind free)) =
    submit-IsConsistent kind free before (Reachable-IsConsistent before h)
Reachable-IsConsistent r (then_step {r = before} h (start_thread id starts w)) =
    start-IsConsistent id starts before w (Reachable-IsConsistent before h)
Reachable-IsConsistent r (then_step {r = before} h (unlocking_failed id w)) =
    unlock_failed-IsConsistent id before w (Reachable-IsConsistent before h)
Reachable-IsConsistent r (then_step {r = before} h (clearing_failed id w)) =
    clear_failed-IsConsistent id before w (Reachable-IsConsistent before h)
Reachable-IsConsistent r (then_step {r = before} h (failing_job id w)) =
    fail_job-IsConsistent id before w (Reachable-IsConsistent before h)
Reachable-IsConsistent r (then_step {r = before} h (finishing id ending w)) =
    finish-IsConsistent id ending before w (Reachable-IsConsistent before h)
Reachable-IsConsistent r (then_step {r = before} h (releasing id w)) =
    release-IsConsistent id before w (Reachable-IsConsistent before h)
Reachable-IsConsistent r (then_step {r = before} h (leaving id w)) =
    leave-IsConsistent id before w (Reachable-IsConsistent before h)
Reachable-IsConsistent r (then_step {r = before} h (cancelling_job id)) =
    cancel-IsConsistent id before (Reachable-IsConsistent before h)

-- Whatever the order of the steps of callers and workers: a worker that runs `fn` is the one of the job
-- in the slot, and the lock is held then, so that no two workers run `fn`. The lock is held only for the
-- job in the slot, from its acquire to its release. And a job that is running by its state is in the
-- slot, but for one whose thread could not be started: between the clearing of the slot and the setting
-- of its state.
pub one_job_at_a_time :
    (r : Runner)
    → Reachable r
    → ((id : ℕ) → r.worker id ≡ working → (r.current ≡ some id) × (r.locked ≡ true))
      × ((id k : ℕ) → r.worker id ≡ working → r.worker k ≡ working → id ≡ k)
      × (r.locked ≡ true → (id : ℕ) × (r.current ≡ some id) × (holds_lock (r.worker id) ≡ true))
      × ((id : ℕ) (j : Job)
          → r.jobs id ≡ some j
          → j.state ≡ running
          → (r.current ≡ some id) ⊎ (r.worker id ≡ not_started_cleared))
one_job_at_a_time r h =
    let c = Reachable-IsConsistent r h in
    let at : (id : ℕ) → r.worker id ≡ working → r.current ≡ some id =
      λ id w. c.slot id (rw w refl) in
    (
      λ id w. let l = c.held id (at id w) in (at id w, ground (arith, l, w)),
      λ id k w v. ground (arith, at id w, at k v),
      λ l. elim (Option-cases r.current) [
        | inl n ↦ let f = c.freed n in absurd (cc (f, l))
        | inr (id, e) ↦ let g = c.held id e in (id, e, cc (g, l))
      ],
      λ id j e s. let u = c.runs id j e s in let a = c.slot id in ground (arith, u, a),
    )
