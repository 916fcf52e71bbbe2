-- ===== src/Jobs/Runner.antt =====
-- JobRunner of src/mcu_updater/jobs.py: one job at a time, under a lock that the command line shares.
-- A worker thread is where it stands in its `try`; the threads' steps interleave with the callers'.
use mcu_updater.Base.{
  ℕ, suc, Bool, true, false, not, ◌&&◌, ◌||◌, Option, none, some, List, [], ◌∷◌, take, String,
  str_eq, ◌==◌, if◌then◌else◌, ◌≡◌,
}
use mcu_updater.Base.Result.{Result, ok, err}

pub data JobState : Type 0 where
  queued running succeeded failed cancelled : JobState

pub record Job : Type 0 where
  pub kind : String
  pub state : JobState
  pub cancel_requested : Bool

-- Where the thread of a job is, and its `submit` with it. There is none, or it has ended; it is to be
-- started; it runs `fn`; it has set the state and is in its `finally`; it has released the lock there; it
-- could not be started, and then the lock is released, and then the slot is cleared.
pub data Phase : Type 0 where
  absent starting working closing unlocked : Phase
  not_started not_started_unlocked not_started_cleared : Phase

-- `_by_id`, `_ids`, `_current`, `_cancel`, `_recent` with its maxlen; whether the lock is held; the workers
pub record Runner : Type 0 where
  pub jobs : ℕ → Option Job
  pub next_id : ℕ
  pub current : Option ℕ
  pub cancel_set : Bool
  pub recent : List ℕ
  pub history : ℕ
  pub locked : Bool
  pub worker : ℕ → Phase

-- BusyError for the slot, and BusyError for the lock
pub data SubmitError : Type 0 where
  busy : ℕ → SubmitError
  lock_busy : SubmitError

module _ {ℓ} {A : Type ℓ} where
  abbrev pub update : (ℕ → A) → ℕ → A → ℕ → A
  update f id a = λ k. if k == id then a else f k

abbrev enter : ℕ → Phase → Runner → ℕ → Phase
enter id phase r = update r.worker id phase

-- The part of submit that holds the slot lock, once the lock is acquired; the thread is not started yet.
unfoldable pub launch : String → Runner → Runner
launch kind r = record {
  jobs =
      update r.jobs r.next_id
        (some (record { kind = kind; state = running; cancel_requested = false }));
  next_id = suc r.next_id;
  current = some r.next_id;
  cancel_set = false;
  recent = r.recent;
  history = r.history;
  locked = true;
  worker = enter r.next_id starting r;
}

-- The part of submit that holds the slot lock; `free` is whether no other process holds the file lock.
unfoldable pub submit : String → Bool → Runner → Result SubmitError ℕ × Runner
submit kind free r = elim r.current [
  | some id ↦ (err (busy id), r)
  | none ↦ if free && not r.locked then (ok r.next_id, launch kind r) else (err lock_busy, r)
]

-- thread.start(), and whether it does; submit returns the job then, and else goes on below
unfoldable pub start : ℕ → Bool → Runner → Runner
start id starts r = record r { worker = enter id (if starts then working else not_started) r }

-- lock.release() where the thread would not start
unfoldable pub unlock_failed : ℕ → Runner → Runner
unlock_failed id r = record r { locked = false; worker = enter id not_started_unlocked r }

-- the slot lock's block where the thread would not start
unfoldable pub clear_failed : ℕ → Runner → Runner
clear_failed id r = record r { current = none; worker = enter id not_started_cleared r }

abbrev pub with_state : JobState → Option Job → Option Job
with_state s none = none
with_state s (some j) =
    some (record { kind = j.kind; state = s; cancel_requested = j.cancel_requested })

-- job.state = FAILED where the thread would not start, and the exception is raised again
unfoldable pub fail_job : ℕ → Runner → Runner
fail_job id r = record r {
  jobs = update r.jobs id (with_state failed (r.jobs id));
  worker = enter id absent r;
}

-- How `fn` ended: it returned, raised OperationCancelled, or raised something else.
pub data Ending : Type 0 where
  returned raised_cancelled raised : Ending

unfoldable pub ending_state : Ending → JobState
ending_state returned = succeeded
ending_state raised_cancelled = cancelled
ending_state raised = failed

-- the `try` of the worker, at its end
unfoldable pub finish : ℕ → Ending → Runner → Runner
finish id ending r = record {
  jobs = update r.jobs id (with_state (ending_state ending) (r.jobs id));
  next_id = r.next_id;
  current = r.current;
  cancel_set = r.cancel_set;
  recent = r.recent;
  history = r.history;
  locked = r.locked;
  worker = update r.worker id closing;
}

-- lock.release() in the `finally` of the worker
unfoldable pub release : ℕ → Runner → Runner
release id r = record r { locked = false; worker = enter id unlocked r }

-- the slot lock's block in the `finally` of the worker, after which the thread ends
unfoldable pub leave : ℕ → Runner → Runner
leave id r = record r {
  current = none;
  recent = take r.history (id ∷ r.recent);
  worker = enter id absent r;
}

abbrev pub is_terminal : JobState → Bool
is_terminal queued = false
is_terminal running = false
is_terminal succeeded = true
is_terminal failed = true
is_terminal cancelled = true

abbrev pub immediately_cancellable : String → Bool
immediately_cancellable kind = str_eq kind "build" || str_eq kind "build_all"

pub data CancelReply : Type 0 where
  unknown_job : CancelReply
  already_finished : JobState → CancelReply
  cancelling : Bool → CancelReply

unfoldable pub request_cancel : ℕ → Job → Runner → CancelReply × Runner
request_cancel id j r = if is_terminal j.state then (already_finished j.state, r) else (
  cancelling (immediately_cancellable j.kind),
  record {
    jobs =
        update r.jobs id
          (some (record { kind = j.kind; state = j.state; cancel_requested = true }));
    next_id = r.next_id;
    current = r.current;
    cancel_set = true;
    recent = r.recent;
    history = r.history;
    locked = r.locked;
    worker = r.worker;
  },
)

unfoldable pub cancel : ℕ → Runner → CancelReply × Runner
cancel id r = elim (r.jobs id) [ none ↦ (unknown_job, r) | some j ↦ request_cancel id j r ]

abbrev pub new_runner : ℕ → Runner
new_runner history = record {
  jobs = λ k. none;
  next_id = 1;
  current = none;
  cancel_set = false;
  recent = [];
  history = history;
  locked = false;
  worker = λ k. absent;
}

-- One step of a caller, or of a worker: what it does under the slot lock, or without it in between.
pub data Step (r : Runner) : Runner → Type 0 where
  submitting : (kind : String) (free : Bool) → Step r (submit kind free r).1
  start_thread : (id : ℕ) (starts : Bool) → r.worker id ≡ starting → Step r (start id starts r)
  unlocking_failed : (id : ℕ) → r.worker id ≡ not_started → Step r (unlock_failed id r)
  clearing_failed : (id : ℕ) → r.worker id ≡ not_started_unlocked → Step r (clear_failed id r)
  failing_job : (id : ℕ) → r.worker id ≡ not_started_cleared → Step r (fail_job id r)
  finishing : (id : ℕ) (ending : Ending) → r.worker id ≡ working → Step r (finish id ending r)
  releasing : (id : ℕ) → r.worker id ≡ closing → Step r (release id r)
  leaving : (id : ℕ) → r.worker id ≡ unlocked → Step r (leave id r)
  cancelling_job : (id : ℕ) → Step r (cancel id r).1

-- What a runner can come to.
pub data Reachable : Runner → Type 0 where
  at_start : (history : ℕ) → Reachable (new_runner history)
  then_step : {r r' : Runner} → Reachable r → Step r r' → Reachable r'
