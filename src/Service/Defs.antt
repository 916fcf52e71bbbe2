-- ===== src/Service/Defs.antt =====
-- `Journal`, `services_stopped`, `reconcile` and `assert_printer_idle` of src/mcu_updater/service.py.
-- What a run does to the host is its history, the latest event first; what the host answers is a
-- function of the history so far. The time between two polls is the sleep of half a second.
use mcu_updater.Base.{
  ℕ, zero, suc, Bool, true, false, not, ◌&&◌, ◌||◌, Option, none, some, List, [], ◌∷◌, String,
  str_eq, is_empty, if◌then◌else◌,
}
use mcu_updater.Base.Result.{Result, ok, err}

-- What json.load finds in the journal's file: the list "services", if it is one, and the string "service"
-- of an older version, if there is one.
pub data JournalFile : Type 0 where
  unreadable not_a_dict : JournalFile
  entry : Option (List String) → Option String → JournalFile

-- An order that the run gives; `inside` is one of the protected block; `left` is none of this run, but the
-- journal that an earlier run has left, perhaps of an older version.
pub data Event (E : Type 0) : Type 0 where
  left : JournalFile → Event E
  journaled : List String → Event E
  cleared : Event E
  stopped started : String → Event E
  slept : Event E
  inside : E → Event E

-- The exceptions that matter here: OperationCancelled, another UpdaterError, ServiceControlError of a
-- unit, an OSError of the journal, and one that is none of these.
pub data Exc : Type 0 where
  cancelled : Exc
  updater : String → Exc
  not_stopped : String → Exc
  os_error : Exc
  unexpected : Exc

pub record Outcome (E A : Type 0) : Type 0 where
  pub result : Result Exc A
  pub history : List (Event E)

-- What the host answers: is_active of a unit, and whether the journal can be written.
pub record Host (E : Type 0) : Type 0 where
  pub active : List (Event E) → String → Bool
  pub writable : List (Event E) → Bool

abbrev legacy_entry : Option String → Option (List String)
legacy_entry none = none
legacy_entry (some u) = if str_eq u "" then none else some (u ∷ [])

-- the units of the entry that Journal.pending returns
unfoldable pub read_journal : JournalFile → Option (List String)
read_journal unreadable = none
read_journal not_a_dict = none
read_journal (entry none legacy) = legacy_entry legacy
read_journal (entry (some []) legacy) = legacy_entry legacy
read_journal (entry (some (u ∷ us)) legacy) = some (u ∷ us)

-- STOP_VERIFY_TIMEOUT, in sleeps
abbrev pub stop_verify_sleeps : ℕ
stop_verify_sleeps = 40

module _ {E : Type 0} where
  -- Journal.pending, as the history has left the file: record_stop writes no "service"
  unfoldable pub pending : List (Event E) → Option (List String)
  pending [] = none
  pending (left file ∷ h) = read_journal file
  pending (journaled us ∷ h) = read_journal (entry (some us) none)
  pending (cleared ∷ h) = none
  pending (stopped u ∷ h) = pending h
  pending (started u ∷ h) = pending h
  pending (slept ∷ h) = pending h
  pending (inside e ∷ h) = pending h

  -- [svc for svc in controllers if svc.is_active()]
  unfoldable pub active_units : Host E → List (Event E) → List String → List String
  active_units host h [] = []
  active_units host h (u ∷ us) =
      let rest = active_units host h us in if host.active h u then u ∷ rest else rest

  -- for svc in reversed(to_stop): svc.start(reporter)
  unfoldable pub start_reversed : List String → List (Event E) → List (Event E)
  start_reversed [] h = h
  start_reversed (u ∷ us) h = started u ∷ start_reversed us h

  -- _restart_all
  unfoldable pub restart_all : List String → List (Event E) → List (Event E)
  restart_all us h = cleared ∷ start_reversed us h

  -- `while svc.is_active()`, with the sleeps left before the deadline; true for a stop that took
  -- effect
  unfoldable pub confirm : Host E → ℕ → String → List (Event E) → Bool × List (Event E)
  confirm host zero u h = (not (host.active h u), h)
  confirm host (suc n) u h =
      let rest = confirm host n u (slept ∷ h) in if host.active h u then rest else (true, h)

  -- svc.stop(reporter) and the verification of it
  unfoldable pub stop_unit : Host E → Bool → String → List (Event E) → Bool × List (Event E)
  stop_unit host verify u h =
      if verify then confirm host stop_verify_sleeps u (stopped u ∷ h) else (true, stopped u ∷ h)

  -- `for svc in to_stop`: the unit that would not stop, if there is one
  unfoldable pub stop_each :
      Host E → Bool → List String → List (Event E) → Option String × List (Event E)
  stop_each host verify [] h = (none, h)
  stop_each host verify (u ∷ us) h =
      let c = stop_unit host verify u h in
      let rest = stop_each host verify us c.1 in if c.0 then rest else (some u, c.1)

  abbrev pub record_stop : List String → List (Event E) → List (Event E)
  record_stop us h = if is_empty us then h else journaled us ∷ h

  -- `services_stopped` from the first stop on, around a block
  unfoldable pub around :
      {A : Type 0}
      → Host E
      → Bool
      → List String
      → (List (Event E) → Outcome E A)
      → List (Event E)
      → Outcome E A
  around host verify us block h =
      let s = stop_each host verify us h in
      let done = block s.1 in
      elim s.0 [
        | some u ↦ record { result = err (not_stopped u); history = restart_all us s.1 }
        | none ↦ record { result = done.result; history = restart_all us done.history }
      ]

  unfoldable pub services_stopped :
      {A : Type 0}
      → Host E
      → Bool
      → List String
      → (List (Event E) → Outcome E A)
      → List (Event E)
      → Outcome E A
  services_stopped host verify units block h =
      let to_stop = active_units host h units in
      if not (is_empty to_stop) && not (host.writable h)
      then record { result = err os_error; history = h }
      else around host verify to_stop block (record_stop to_stop h)

  -- the loop of `reconcile`
  unfoldable pub start_inactive : Host E → List String → List (Event E) → List (Event E)
  start_inactive host [] h = h
  start_inactive host (u ∷ us) h =
      let g = start_inactive host us h in if not (host.active g u) then started u ∷ g else g

  -- `reconcile`: whether it took action
  unfoldable pub reconcile : Host E → List (Event E) → Bool × List (Event E)
  reconcile host h = elim (pending h) [
    | none ↦ (false, h)
    | some us ↦ (true, cleared ∷ start_inactive host us h)
  ]

-- What `activity` tells of the printer: its print_state and idle_state
pub record Activity : Type 0 where
  pub print_state : Option String
  pub idle_state : Option String

-- PrintInProgressError, by its reason
pub data Busy : Type 0 where
  print : String → Busy
  commands : Busy

abbrev pub is_state : Option String → String → Bool
is_state none s = false
is_state (some t) s = str_eq t s

-- `none` in place of the activity: there is no way to ask, or asking failed
unfoldable pub assert_printer_idle : Bool → Bool → Option Activity → Result Busy (Unit {0})
assert_printer_idle allowed force none = ok tt
assert_printer_idle allowed force (some a) =
    if force || allowed
    then ok tt
    else if is_state a.print_state "printing"
    then err (print "printing")
    else if is_state a.print_state "paused"
    then err (print "paused")
    else if is_state a.idle_state "Printing"
    then err commands
    else ok tt
