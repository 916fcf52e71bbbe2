-- ===== src/Ledger/Defs.antt =====
-- `FlashLog` of src/mcu_updater/build.py and `Pairings` of src/mcu_updater/flashers/pairings.py: dicts in
-- JSON files. A file that cannot be read is the empty dict; a value that is no dict is `none`.
use mcu_updater.Base.{
  ℕ, ◌-◌, Bool, true, false, not, ◌&&◌, Option, none, some, [], ◌∷◌, String, is_some, str_eq, leb,
  length, if◌then◌else◌, ◌==◌,
}
use mcu_updater.Base.Result.{Result, ok, err}
use mcu_updater.Base.Text.{Text, text_eq, starts_with}
use mcu_updater.Base.Dict.{Dict, get, put, remove}
use mcu_updater.Status.Verdict.{given, text_or_empty}

pub record Entry : Type 0 where
  pub mcu_type : String
  pub fw : String
  pub bin_sha256 : Option String
  pub fw_sha : Option Text
  pub confidence : Option String
  pub version : Option Text

abbrev pub FlashLog : Type 0
FlashLog = Dict (Option Entry)

-- entry_for, once the entry is read
unfoldable pub believe : Entry → Option Text → Option Text → Option Entry
believe entry running_sha version =
    if given running_sha && given entry.fw_sha
    then (if starts_with (text_or_empty entry.fw_sha) (text_or_empty running_sha)
        then some entry
        else none)
    else if not (given running_sha) && given version
    then (if given entry.version
        then (if text_eq (text_or_empty entry.version) (text_or_empty version)
            then some entry
            else none)
        else some entry)
    else some entry

abbrev pub entry_of : Option (Option Entry) → Option Entry
entry_of (some (some entry)) = some entry
entry_of (some none) = none
entry_of none = none

unfoldable pub entry_for : FlashLog → String → Option Text → Option Text → Option Entry
entry_for log serial running_sha version = elim (entry_of (get log serial)) [
  | none ↦ none
  | some entry ↦ believe entry running_sha version
]

-- record; `writable` is whether the file can be replaced
unfoldable pub record_flash : Bool → FlashLog → String → Entry → FlashLog
record_flash writable log serial entry = if writable then put log serial (some entry) else log

-- forget: whether a record went
unfoldable pub forget : Bool → FlashLog → String → Bool × FlashLog
forget writable log serial =
    if not (is_some (get log serial))
    then (false, log)
    else if writable
    then (true, remove log serial)
    else (false, log)

-- A pairing: the type, and the time it was noted, in a unit as fine as the clock's; none is no number
pub record Pairing : Type 0 where
  pub mcu_type : String
  pub at : Option ℕ

abbrev pub Pairings : Type 0
Pairings = Dict Pairing

-- the OSError of _write
pub data WriteError : Type 0 where
  os_error : WriteError

-- _write: the file is replaced, or is as it was; `writable` is whether it can be replaced
unfoldable pub write_pairings :
    {A : Type 0} → Bool → A → Pairings → Pairings → Result WriteError A × Pairings
write_pairings writable a new ps = if writable then (ok a, new) else (err os_error, ps)

unfoldable pub record_pairing :
    Bool → Pairings → ℕ → String → String → Result WriteError (Unit {0}) × Pairings
record_pairing writable ps now key mcu_type =
    if str_eq key ""
    then (ok tt, ps)
    else write_pairings writable tt (put ps key (record { mcu_type = mcu_type; at = some now })) ps

-- within the TTL; a clock that went back gives no age
unfoldable pub is_fresh : ℕ → ℕ → Pairing → Bool
is_fresh ttl now p = elim p.at [ none ↦ false | some at ↦ leb (now - at) ttl ]

abbrev pub type_of : Pairing → Option String
type_of p = if str_eq p.mcu_type "" then none else some p.mcu_type

unfoldable pub type_for : ℕ → Pairings → ℕ → String → Option String
type_for ttl ps now key = elim (get ps key) [
  | none ↦ none
  | some p ↦ if not (is_fresh ttl now p) then none else type_of p
]

unfoldable pub forget_pairing : Bool → Pairings → String → Result WriteError (Unit {0}) × Pairings
forget_pairing writable ps key =
    if is_some (get ps key) then write_pairings writable tt (remove ps key) ps else (ok tt, ps)

unfoldable pub keep_fresh : ℕ → ℕ → Pairings → Pairings
keep_fresh ttl now [] = []
keep_fresh ttl now ((key, p) ∷ ps) =
    let rest = keep_fresh ttl now ps in if is_fresh ttl now p then (key, p) ∷ rest else rest

-- prune: how many went
unfoldable pub prune : Bool → ℕ → ℕ → Pairings → Result WriteError ℕ × Pairings
prune writable ttl now ps =
    let keep = keep_fresh ttl now ps in
    if length keep == length ps
    then (ok 0, ps)
    else write_pairings writable (length ps - length keep) keep ps
