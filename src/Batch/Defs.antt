-- ===== src/Batch/Defs.antt =====
-- `write_all` of src/mcu_updater/flashers/batch.py. A flasher is a record of the calls that the batch
-- makes of it; what it does with a board is its own, and its answers are functions of the history.
-- Reports and progress have no effect on the run and are left out.
use mcu_updater.Base.{
  ℕ, suc, Bool, true, false, not, Option, none, some, List, [], ◌∷◌, ◌++◌, map, is_empty, is_some,
  ◌&&◌, ◌||◌, String, if◌then◌else◌,
}
use mcu_updater.Base.Dict.{Dict, get, remove}
use mcu_updater.Base.Result.{Result, ok, err}
use mcu_updater.Service.Defs.{
  Event, Exc, cancelled, updater, not_stopped, os_error, unexpected, Host, services_stopped,
}
use mcu_updater.Batch.Prog.{Prog, pure, raise, tell, ask, ◌>>=◌, ending}
use mcu_updater.Batch.Groups.{FlashTarget, group_by_stop, stop_services_union, by_flasher}

-- FlashRecord
pub record FlashRecord : Type 0 where
  pub key : String
  pub mcu_type : String
  pub fw : String
  pub bin_sha256 : Option String
  pub fw_sha : Option String
  pub version : Option String

-- What the batch does: a write begins, returns or fails, its record is filed with the confidence, the
-- flasher waits for the device.
pub data BatchEvent : Type 0 where
  attempted wrote settling : FlashTarget → BatchEvent
  failed : FlashTarget → Exc → BatchEvent
  filed : FlashTarget → FlashRecord → Option String → BatchEvent

abbrev pub History : Type 0
History = List (Event BatchEvent)

-- The protocol Flasher, as the batch calls it; `enter` and `exit` are those of `prepared`.
pub record Flasher : Type 0 where
  pub stops : Bool
  pub enter : List FlashTarget → History → Result Exc (Unit {0})
  pub exit : History → Result Exc (Unit {0})
  pub write : FlashTarget → History → Result Exc (Dict String)
  pub describe : FlashTarget → History → Result Exc (Option FlashRecord)
  pub settled : FlashTarget → History → Result Exc (Unit {0})

-- The bench, the job's context, and the registry of flashers.
pub record Bench : Type 0 where
  pub host : Host BatchEvent
  pub dry_run : Bool
  pub is_cancelled : History → Bool
  pub flashers : String → Option Flasher

-- An entry of `failures`: a refusal of the selection, or a write that failed.
pub data Failure : Type 0 where
  refusal : String → Failure
  failure : FlashTarget → Exc → Failure

pub record Report : Type 0 where
  pub flashed : List (FlashTarget × Dict String)
  pub failures : List Failure
  pub done : ℕ

-- `except OperationCancelled: raise` and `except UpdaterError`
unfoldable pub is_updater_error : Exc → Bool
is_updater_error (updater m) = true
is_updater_error (not_stopped u) = true
is_updater_error cancelled = false
is_updater_error os_error = false
is_updater_error unexpected = false

-- A handler that warns of an UpdaterError and goes on.
abbrev pub tolerate : {A : Type 0} → Result Exc A → A → Result Exc A
tolerate (ok a) b = ok a
tolerate (err e) b = if is_updater_error e then ok b else err e

abbrev pub check_cancelled : Bench → Prog BatchEvent (Unit {0})
check_cancelled bench = ask (λ h. if bench.is_cancelled h then err cancelled else ok tt)

-- the `try` that files the record
unfoldable pub file_record :
    Bench → Flasher → FlashTarget → Option String → Prog BatchEvent (Unit {0})
file_record bench flasher t confidence = if bench.dry_run then pure tt else do
  r ← ask (λ h. tolerate (flasher.describe t h) none)
  elim r [ none ↦ pure tt | some entry ↦ tell (filed t entry confidence) ]

-- the `try` around `settled`
unfoldable pub settle : Flasher → FlashTarget → Prog BatchEvent (Unit {0})
settle flasher t = do _ ← tell (settling t); ask (λ h. tolerate (flasher.settled t h) tt)

-- after a write that returned
unfoldable pub keep : Bench → Flasher → FlashTarget → Report → Dict String → Prog BatchEvent Report
keep bench flasher t r extra = do
  _ ← tell (wrote t)
  _ ← file_record bench flasher t (get extra "confidence")
  _ ← settle flasher t
  pure (record {
    flashed = r.flashed ++ ((t, remove extra "confidence") ∷ []);
    failures = r.failures;
    done = suc r.done;
  })

-- after a write that raised
unfoldable pub give_up : FlashTarget → Report → Exc → Prog BatchEvent Report
give_up t r e =
    if is_updater_error e
    then (do
      _ ← tell (failed t e)
      pure (record {
        flashed = r.flashed;
        failures = r.failures ++ (failure t e ∷ []);
        done = suc r.done;
      }))
    else raise e

-- the body of `for target in mine`
unfoldable pub write_target : Bench → Flasher → FlashTarget → Report → Prog BatchEvent Report
write_target bench flasher t r = do
  _ ← check_cancelled bench
  _ ← tell (attempted t)
  answer ← ask (λ h. ok (flasher.write t h))
  elim answer [ ok extra ↦ keep bench flasher t r extra | err e ↦ give_up t r e ]

unfoldable pub write_targets : Bench → Flasher → List FlashTarget → Report → Prog BatchEvent Report
write_targets bench flasher [] r = pure r
write_targets bench flasher (t ∷ ts) r = do
  r' ← write_target bench flasher t r
  write_targets bench flasher ts r'

-- the body of `for flasher, mine in by_flasher(group)`; a name that is not known is a KeyError
unfoldable pub write_mine :
    Bench → Option Flasher → List FlashTarget → Report → Prog BatchEvent Report
write_mine bench none mine r = raise unexpected
write_mine bench (some flasher) mine r = do
  _ ← ask (flasher.enter mine)
  ending flasher.exit (write_targets bench flasher mine r)

unfoldable pub write_groups : Bench → Dict (List FlashTarget) → Report → Prog BatchEvent Report
write_groups bench [] r = pure r
write_groups bench ((name, mine) ∷ groups) r = do
  r' ← write_mine bench (bench.flashers name) mine r
  write_groups bench groups r'

-- `by_flasher` looks every name up before a flasher is called
unfoldable pub all_known : Bench → Dict (List FlashTarget) → Bool
all_known bench [] = true
all_known bench ((name, mine) ∷ groups) =
    let rest = all_known bench groups in is_some (bench.flashers name) && rest

unfoldable pub write_group : Bench → List FlashTarget → Report → Prog BatchEvent Report
write_group bench group r =
    if all_known bench (by_flasher group)
    then write_groups bench (by_flasher group) r
    else raise unexpected

-- the flasher's own needs_services_stopped, by its name
unfoldable pub own_stops : Bench → String → Bool
own_stops bench name = elim (bench.flashers name) [ none ↦ false | some f ↦ f.stops ]

-- a target without an answer of its own has a flasher that is known
unfoldable pub all_answered : Bench → List FlashTarget → Bool
all_answered bench [] = true
all_answered bench (t ∷ ts) =
    let rest = all_answered bench ts in
    (is_some t.needs_stopped || is_some (bench.flashers t.flasher)) && rest

unfoldable pub write_stopped : Bench → List FlashTarget → Report → Prog BatchEvent Report
write_stopped bench stopped r =
    if is_empty stopped
    then pure r
    else services_stopped bench.host true (stop_services_union stopped)
        (write_group bench stopped r)

-- before the first write
abbrev pub begin : List String → Report
begin refused = record { flashed = []; failures = map refusal refused; done = 0 }

-- `write_all`; what it is asked to call at the end, once Klipper is back, is its caller's
unfoldable pub write_all : Bench → List FlashTarget → List String → Prog BatchEvent Report
write_all bench targets refused =
    let groups = group_by_stop (own_stops bench) targets in
    if not (all_answered bench targets)
    then raise unexpected
    else do r ← write_group bench groups.1 (begin refused); write_stopped bench groups.0 r
