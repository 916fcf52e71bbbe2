-- ===== src/Lock/Defs.antt =====
-- `ExclusiveLock` and `_probe_and_clear_if_free` of src/mcu_updater/lock.py, a step at a time. An actor
-- is one open lock file, in whatever process; the steps of several actors interleave.
use mcu_updater.Base.{ℕ, Option, none, some, List, [], ◌∷◌, ◌==◌, if◌then◌else◌}
use mcu_updater.Base.Text.{Text}

-- {pid, label, since}, without the time; the actor stands for its process
pub record Owner : Type 0 where
  pub pid : ℕ
  pub label : Text

-- The kernel's flock on the file, and what is written in the file.
pub record LockFile : Type 0 where
  pub flock : Option ℕ
  pub owner : Option Owner

-- Where an actor that holds the lock is in a second call, which opens the file anew: in acquire before the
-- first try, and before the second; BusyError, with the record that it names; in holder with the record
-- that it read, and its answer.
pub data Again : Type 0 where
  retrying : Text → Again
  retrying_again : Text → Again
  busy : Option Owner → Again
  probing : Owner → Again
  told : Option Owner → Again

-- Where an actor is in the code.
pub data Phase : Type 0 where
  idle : Phase
  -- acquire: before the first try, and before the second
  trying : Text → Phase
  trying_again : Text → Phase
  -- the flock is taken; the file is truncated; the record is written
  locked : Text → Phase
  emptied : Text → Phase
  holding : Text → Phase
  -- it holds the lock, and is in a second call
  again : Text → Again → Phase
  -- BusyError, with the record that it names
  refused : Option Owner → Phase
  -- release: the file is truncated
  leaving : Phase
  -- holder: the record is read; the probe has the flock; the record is cleared; the answer
  looking : Owner → Phase
  clearing : Phase
  cleared : Phase
  answered : Option Owner → Phase
  -- the process was killed
  dead : Phase

-- What an actor is told to do: a call, the next step of the call that it is in, or SIGKILL.
pub data Call : Type 0 where
  acquire : Text → Call
  release : Call
  holder : Call

pub data Command : Type 0 where
  call : Call → Command
  next : Command
  kill : Command

-- flock(LOCK_EX | LOCK_NB)
unfoldable pub attempt : ℕ → LockFile → Phase → Phase → LockFile × Phase
attempt p f won lost = elim f.flock [
  | none ↦ (record f { flock = some p }, won)
  | some q ↦ (f, lost)
]

-- flock(LOCK_UN), and what the kernel does when the file is closed
unfoldable pub unlock : ℕ → LockFile → LockFile
unlock p f = elim f.flock [
  | none ↦ f
  | some q ↦ record f { flock = if q == p then none else some q }
]

abbrev pub truncated : LockFile → LockFile
truncated f = record f { owner = none }

-- holder: `_record`, and `None` where there is none
abbrev pub look : Option Owner → Phase
look none = answered none
look (some d) = looking d

abbrev pub look_again : Option Owner → Again
look_again none = told none
look_again (some d) = probing d

-- release does nothing without the lock; an actor that is in a call makes no other before it is back.
unfoldable pub begin : Phase → Call → LockFile → LockFile × Phase
begin idle (acquire l) f = (f, trying l)
begin idle holder f = (f, look f.owner)
begin idle release f = (f, idle)
begin (holding l) release f = (truncated f, leaving)
begin (holding l) (acquire m) f = (f, again l (retrying m))
begin (holding l) holder f = (f, again l (look_again f.owner))
begin ph c f = (f, ph)

unfoldable pub proceed : ℕ → Phase → LockFile → LockFile × Phase
proceed p idle f = (f, idle)
proceed p (trying l) f = attempt p f (locked l) (trying_again l)
proceed p (trying_again l) f = attempt p f (locked l) (refused f.owner)
proceed p (locked l) f = (truncated f, emptied l)
proceed p (emptied l) f = (record f { owner = some (record { pid = p; label = l }) }, holding l)
proceed p (holding l) f = (f, holding l)
proceed p (again l (retrying m)) f = attempt p f (locked m) (again l (retrying_again m))
proceed p (again l (retrying_again m)) f = attempt p f (locked m) (again l (busy f.owner))
proceed p (again l (busy d)) f = (f, holding l)
proceed p (again l (probing d)) f = attempt p f clearing (again l (told (some d)))
proceed p (again l (told d)) f = (f, holding l)
proceed p (refused d) f = (f, idle)
proceed p leaving f = (unlock p f, idle)
proceed p (looking d) f = attempt p f clearing (answered (some d))
proceed p clearing f = (truncated f, cleared)
proceed p cleared f = (unlock p f, answered none)
proceed p (answered d) f = (f, idle)
proceed p dead f = (f, dead)

unfoldable pub advance : ℕ → Phase → Command → LockFile → LockFile × Phase
advance p ph (call c) f = begin ph c f
advance p ph next f = proceed p ph f
advance p ph kill f = (unlock p f, dead)

pub record World : Type 0 where
  pub file : LockFile
  pub phase : ℕ → Phase

abbrev pub after_step : (ℕ → Phase) → ℕ → Phase → ℕ → Phase
after_step phase p ph q = if p == q then ph else phase q

unfoldable pub step : ℕ → Command → World → World
step p c w =
    let (f, ph) = advance p (w.phase p) c w.file in
    record { file = f; phase = after_step w.phase p ph }

-- A schedule: who is told what, in order.
unfoldable pub run : List (ℕ × Command) → World → World
run [] w = w
run ((p, c) ∷ cs) w = run cs (step p c w)

-- Nobody has the lock; the file may have what a killed process left in it.
abbrev pub at_rest : Option Owner → World
at_rest d = record { file = record { flock = none; owner = d }; phase = λ _. idle }
