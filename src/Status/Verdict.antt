-- ===== src/Status/Verdict.antt =====
-- src/mcu_updater/verdict.py, and DeviceInfo of src/mcu_updater/device_info.py.
-- A Python truth test of a string is `given`: neither None nor empty.
use mcu_updater.Base.{
  ℕ, String, Bool, true, false, not, ◌&&◌, Option, none, some, List, [], ◌∷◌, min, length, take,
  ◌==◌, if◌then◌else◌, is_some, is_empty, str_eq,
}
use mcu_updater.Base.Dict.{contains}
use mcu_updater.Base.Text.{Text, strip, lower, text_eq}
use mcu_updater.Status.Device.{
  DeviceReason, DeviceStatus, in_bootloader, source_changed, artifact_changed, unexpected_image,
  protocol_mismatch, device_dirty, unknown_version, version_only,
}

-- The fields that the INFO report, the sidecar and `uf2.digest_fields` share (_DIGEST_FIELDS).
pub record DeviceInfo : Type 0 where
  pub digest_algorithm : Option ℕ
  pub digest : Option ℕ
  pub image_start : Option ℕ
  pub image_length : Option ℕ

abbrev nonzero : Option ℕ → Bool
nonzero none = false
nonzero (some n) = not (n == 0)

unfoldable pub has_digest : DeviceInfo → Bool
has_digest info =
    nonzero info.digest_algorithm
    && is_some info.digest
    && is_some info.image_start
    && is_some info.image_length

-- a `discovery.byid` state
pub data BusState : Type 0 where
  klipper katapult offline : BusState

pub data StampKind : Type 0 where
  built tag : StampKind

pub record Evidence : Type 0 where
  pub state : Option BusState
  pub version : Option Text
  pub running_sha : Option Text
  pub dirty : Bool
  pub protocol_match : Option Bool
  pub info : Option DeviceInfo

-- The one key of a flash record that the verdict reads.
pub record FlashEntry : Type 0 where
  pub bin_sha256 : Option String

pub record Expected : Type 0 where
  pub head : Option Text
  pub stamp : Option Text
  pub stamp_kind : StampKind
  pub tag_clean : Bool
  pub require_head : Bool
  pub artifact_shas : List String
  pub record_entry : Option FlashEntry
  pub digest : Option DeviceInfo

unfoldable pub given : Option Text → Bool
given none = false
given (some []) = false
given (some (c ∷ s)) = true

-- `flashed and artifact_shas and flashed not in artifact_shas`
unfoldable pub artifact_differs : FlashEntry → List String → Bool
artifact_differs entry shas = elim entry.bin_sha256 [
  | none ↦ false
  | some flashed ↦ not (str_eq flashed "") && not (is_empty shas) && not (contains shas flashed)
]

abbrev verdict : Option DeviceReason → DeviceStatus
verdict r = record { reason = r }

-- _record_verdict(expected, absent_is=...)
unfoldable pub record_verdict : Expected → Option DeviceReason → DeviceStatus
record_verdict expected absent_is = elim expected.record_entry [
  | none ↦ verdict absent_is
  | some entry ↦
      if artifact_differs entry expected.artifact_shas
      then verdict (some artifact_changed)
      else verdict none
]

abbrev same_number : Option ℕ → Option ℕ → Bool
same_number (some m) (some n) = m == n
same_number none none = true
same_number _ _ = false

-- theirs == ours, over the four fields
unfoldable pub same_digest : DeviceInfo → DeviceInfo → Bool
same_digest a b =
    same_number a.digest_algorithm b.digest_algorithm
    && same_number a.digest b.digest
    && same_number a.image_start b.image_start
    && same_number a.image_length b.image_length

-- None not in ours
unfoldable pub is_complete : DeviceInfo → Bool
is_complete d =
    is_some d.digest_algorithm
    && is_some d.digest
    && is_some d.image_start
    && is_some d.image_length

-- _image_verdict(info, expected): `none` is "no evidence"
unfoldable pub image_verdict : Option DeviceInfo → Option DeviceInfo → Option DeviceStatus
image_verdict (some info) (some ours) =
    if not (has_digest info)
    then none
    else if not (is_complete ours)
    then none
    else if same_digest info ours
    then some (verdict none)
    else some (verdict (some unexpected_image))
image_verdict _ _ = none

-- running[:size] == head[:size], size the shorter length
unfoldable pub sha_agrees : Text → Text → Bool
sha_agrees running head =
    let size = min (length running) (length head) in text_eq (take size running) (take size head)

abbrev pub text_or_empty : Option Text → Text
text_or_empty none = []
text_or_empty (some s) = s

-- `decide` from `if not expected.stamp` on
unfoldable pub stamp_verdict : Evidence → Expected → DeviceStatus
stamp_verdict e x =
    let same = text_eq (strip (text_or_empty e.version)) (text_or_empty x.stamp) in
    if not (given x.stamp) then verdict (some unknown_version) else elim x.stamp_kind [
      | tag ↦ if same && x.tag_clean then verdict none else verdict (some source_changed)
      | built ↦
          if not same then verdict (some source_changed) else record_verdict x (some version_only)
    ]

-- `decide` once no measurement has settled it
unfoldable pub version_verdict : Evidence → Expected → DeviceStatus
version_verdict e x =
    if not (given e.version)
    then verdict (some unknown_version)
    else if x.require_head && not (given x.head)
    then verdict (some unknown_version)
    else if e.dirty
    then verdict (some device_dirty)
    else if given e.running_sha && given x.head
    then (if sha_agrees (lower (text_or_empty e.running_sha)) (lower (text_or_empty x.head))
        then record_verdict x none
        else verdict (some source_changed))
    else stamp_verdict e x

abbrev pub measured_or : Option DeviceStatus → DeviceStatus → DeviceStatus
measured_or (some s) d = s
measured_or none d = d

unfoldable pub decide : Evidence → Expected → DeviceStatus
decide e x = elim e.protocol_match [
  | some false ↦ verdict (some protocol_mismatch)
  | _ ↦ elim e.state [
    | some BusState.offline ↦ verdict (some DeviceReason.offline)
    | some katapult ↦ verdict (some in_bootloader)
    | _ ↦ measured_or (image_verdict e.info x.digest) (version_verdict e x)
  ]
]
