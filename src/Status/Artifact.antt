-- ===== src/Status/Artifact.antt =====
-- ArtifactStatus of src/mcu_updater/states.py: does a built image match what produced it? A reason
-- code is a constructor; `None` is `none`.
use mcu_updater.Base.{
  String, Bool, true, false, not, Option, none, some, is_some, if◌then◌else◌, str_eq,
}
use mcu_updater.Status.Tone.{Tone, ok, warn}

pub data ArtifactState : Type 0 where
  current stale absent unprovable : ArtifactState

pub data ArtifactReason : Type 0 where
  never_built config_changed source_changed built_dirty foreign_build no_provenance : ArtifactReason

-- _ARTIFACT_STATE
unfoldable pub artifact_state : Option ArtifactReason → ArtifactState
artifact_state none = current
artifact_state (some never_built) = absent
artifact_state (some config_changed) = stale
artifact_state (some source_changed) = stale
artifact_state (some built_dirty) = unprovable
artifact_state (some foreign_build) = unprovable
artifact_state (some no_provenance) = unprovable

-- _ARTIFACT_TONE
unfoldable pub artifact_tone : ArtifactState → Tone
artifact_tone current = ok
artifact_tone absent = warn
artifact_tone stale = warn
artifact_tone unprovable = warn

-- the strings of the codes, which `__post_init__` compares with
unfoldable pub artifact_code : ArtifactReason → String
artifact_code never_built = "never_built"
artifact_code config_changed = "config_changed"
artifact_code source_changed = "source_changed"
artifact_code built_dirty = "built_dirty"
artifact_code foreign_build = "foreign_build"
artifact_code no_provenance = "no_provenance"

pub record ArtifactStatus : Type 0 where
  pub reason : Option ArtifactReason

-- `ArtifactStatus(reason)`: `none` is the ValueError
unfoldable pub of_code : String → Option ArtifactStatus
of_code s =
    if str_eq s "never_built"
    then some (record { reason = some never_built })
    else if str_eq s "config_changed"
    then some (record { reason = some config_changed })
    else if str_eq s "source_changed"
    then some (record { reason = some source_changed })
    else if str_eq s "built_dirty"
    then some (record { reason = some built_dirty })
    else if str_eq s "foreign_build"
    then some (record { reason = some foreign_build })
    else if str_eq s "no_provenance"
    then some (record { reason = some no_provenance })
    else none

unfoldable pub state : ArtifactStatus → ArtifactState
unfolding artifact_state
state a = artifact_state a.reason

unfoldable pub tone : ArtifactStatus → Tone
unfolding state artifact_tone
tone a = artifact_tone (state a)

unfoldable pub is_current : ArtifactStatus → Bool
is_current a = not (is_some a.reason)

unfoldable pub can_flash : ArtifactStatus → Bool
unfolding state
can_flash a = elim (state a) [ absent ↦ false | _ ↦ true ]
