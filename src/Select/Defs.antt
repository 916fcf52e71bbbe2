-- ===== src/Select/Defs.antt =====
-- `Staged.first_of` of src/mcu_updater/artifacts.py, `resolve` of src/mcu_updater/flashers/registry.py and
-- `resolve_stop_services` of src/mcu_updater/stop_services.py. A flasher is its answers for the device.
use mcu_updater.Base.{Bool, not, Option, none, some, List, [], ◌∷◌, String, str_eq, if◌then◌else◌}
use mcu_updater.Base.Result.{Result, ok, err}

pub record Artifact : Type 0 where
  pub kind : String
  pub path : String
  pub sha256 : Option String

pub record Staged : Type 0 where
  pub fw : String
  pub artifacts : List Artifact
  pub fw_sha : Option String
  pub version : Option String

-- the inner loop of first_of
unfoldable pub of_kind : String → List Artifact → Option Artifact
of_kind kind [] = none
of_kind kind (a ∷ artifacts) =
    let rest = of_kind kind artifacts in if str_eq a.kind kind then some a else rest

abbrev pub or_later {ℓ} : {A : Type ℓ} → Option A → Option A → Option A
or_later (some a) later = some a
or_later none later = later

unfoldable pub first_kind : List String → List Artifact → Option Artifact
first_kind [] artifacts = none
first_kind (kind ∷ kinds) artifacts = or_later (of_kind kind artifacts) (first_kind kinds artifacts)

unfoldable pub first_of : Staged → List String → Option Artifact
first_of staged kinds = first_kind kinds staged.artifacts

-- What a flasher answers for the device and its helper, and the kinds that it accepts.
pub record Candidate : Type 0 where
  pub supports : Bool
  pub accepts : List String

-- what one flasher of the family's list would write
abbrev pub offer : Staged → Candidate → Option Artifact
offer staged c = if not c.supports then none else first_of staged c.accepts

-- resolve; the error is the KeyError of by_name, with the name
unfoldable pub resolve :
    (String → Option Candidate) → Staged → List String → Result String (Option (String × Artifact))
resolve by_name staged [] = ok none
resolve by_name staged (name ∷ names) =
    let rest = resolve by_name staged names in
    elim (by_name name) [
      | none ↦ err name
      | some c ↦ elim (offer staged c) [ some artifact ↦ ok (some (name, artifact)) | none ↦ rest ]
    ]

-- resolve_stop_services
unfoldable pub resolve_stop_services {ℓ} : {A : Type ℓ} → List (Option (List A)) → List A → List A
resolve_stop_services [] default = default
resolve_stop_services (none ∷ levels) default = resolve_stop_services levels default
resolve_stop_services (some units ∷ levels) default = units
