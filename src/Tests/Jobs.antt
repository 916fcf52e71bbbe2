-- ===== src/Tests/Jobs.antt =====
-- A runner with one build, that is asked to cancel.
use mcu_updater.Base.{
  ℕ, ◌-◌, ◌≡◌, ◌⊎◌, refl, true, false, max, none, some, List, [], ◌∷◌, String, length,
}
use mcu_updater.Jobs.Log.{log_since}
use mcu_updater.Jobs.Ring.{IsNumberedFrom, append_all, log_since-append_all}
use mcu_updater.Jobs.Runner.{
  Job, running, Runner, submit, launch, start, unlock_failed, clear_failed, fail_job, cancel,
  request_cancel, new_runner, submitting, start_thread, cancelling_job, Reachable, at_start,
  then_step, cancelling, working, not_started_cleared, succeeded, failed, returned, finish,
  finishing, ending_state,
}
use mcu_updater.Jobs.Consistent.{holds_lock}
use mcu_updater.Jobs.Final.{state_of, Step-state_of}
use mcu_updater.Jobs.Slot.{one_job_at_a_time}

abbrev said : List (String × String)
said = ("info", "c") ∷ ("info", "b") ∷ ("info", "a") ∷ []

log_since-append_all_example :
    let s = log_since (append_all 2 said) 0 in
    (s.start ≡ max 0 (3 - 2))
    × (s.next ≡ 3)
    × IsNumberedFrom s.start s.lines
    × (length s.lines ≡ 3 - s.start)
log_since-append_all_example = log_since-append_all 2 0 said

abbrev submitted : Runner
submitted = (submit "build" true (new_runner 10)).1

abbrev building : Runner
building = start 1 true submitted

building-Reachable : Reachable building
unfolding submit launch
building-Reachable =
    then_step (then_step (at_start 10) (submitting "build" true)) (start_thread 1 true refl)

cancel_build : (cancel 1 building).0 ≡ cancelling true
unfolding cancel request_cancel start submit launch
cancel_build = refl

abbrev stopping : Runner
stopping = (cancel 1 building).1

stopping-Reachable : Reachable stopping
stopping-Reachable = then_step building-Reachable (cancelling_job 1)

one_job_at_a_time_example :
    ((id : ℕ)
      → stopping.worker id ≡ working
      → (stopping.current ≡ some id) × (stopping.locked ≡ true))
    × ((id k : ℕ) → stopping.worker id ≡ working → stopping.worker k ≡ working → id ≡ k)
    × (stopping.locked ≡ true
        → (id : ℕ) × (stopping.current ≡ some id) × (holds_lock (stopping.worker id) ≡ true))
    × ((id : ℕ) (j : Job)
        → stopping.jobs id ≡ some j
        → j.state ≡ running
        → (stopping.current ≡ some id) ⊎ (stopping.worker id ≡ not_started_cleared))
one_job_at_a_time_example = one_job_at_a_time stopping stopping-Reachable

-- A thread that would not start: the job reads running when its slot is free already, and fails next.
abbrev not_started_job : Runner
not_started_job = clear_failed 1 (unlock_failed 1 (start 1 false submitted))

running_without_slot :
    (not_started_job.current ≡ none)
    × (state_of (not_started_job.jobs 1) ≡ some running)
    × (state_of ((fail_job 1 not_started_job).jobs 1) ≡ some failed)
unfolding fail_job clear_failed unlock_failed start submit launch
running_without_slot = (refl, refl, refl)

-- The build that is to be cancelled returned all the same.
abbrev returned_build : Runner
returned_build = finish 1 returned building

working_build : building.worker 1 ≡ working
unfolding start submit launch
working_build = refl

succeeded_build : state_of (returned_build.jobs 1) ≡ some succeeded
unfolding finish start submit launch ending_state
succeeded_build = refl

Step-state_of_example : state_of ((cancel 1 returned_build).1.jobs 1) ≡ some succeeded
Step-state_of_example =
    Step-state_of returned_build (cancel 1 returned_build).1 1 succeeded
      (then_step building-Reachable (finishing 1 returned working_build)) (cancelling_job 1)
      succeeded_build refl
