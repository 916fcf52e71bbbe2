-- ===== src/Status/Device.antt =====
-- DeviceStatus of src/mcu_updater/states.py: does a device want flashing, and why?
use mcu_updater.Base.{Bool, true, false, Option, none, some, is_some}
use mcu_updater.Status.Tone.{Tone, ok, warn, problem}

pub data DeviceReason : Type 0 where
  in_bootloader source_changed artifact_changed unexpected_image protocol_mismatch : DeviceReason
  device_dirty offline unknown_version version_only : DeviceReason

pub record DeviceStatus : Type 0 where
  pub reason : Option DeviceReason

-- _NEEDS_FLASH
unfoldable pub reason_needs_flash : Option DeviceReason → Option Bool
reason_needs_flash none = some false
reason_needs_flash (some in_bootloader) = some true
reason_needs_flash (some source_changed) = some true
reason_needs_flash (some artifact_changed) = some true
reason_needs_flash (some unexpected_image) = some true
reason_needs_flash (some protocol_mismatch) = some true
reason_needs_flash (some device_dirty) = none
reason_needs_flash (some offline) = none
reason_needs_flash (some unknown_version) = none
reason_needs_flash (some version_only) = none

-- _DEVICE_TONE
unfoldable pub reason_tone : Option DeviceReason → Tone
reason_tone none = ok
reason_tone (some in_bootloader) = problem
reason_tone (some source_changed) = warn
reason_tone (some artifact_changed) = warn
reason_tone (some unexpected_image) = warn
reason_tone (some protocol_mismatch) = problem
reason_tone (some device_dirty) = warn
reason_tone (some offline) = problem
reason_tone (some unknown_version) = warn
reason_tone (some version_only) = warn

unfoldable pub tone : DeviceStatus → Tone
unfolding reason_tone
tone d = reason_tone d.reason

unfoldable pub needs_flash : DeviceStatus → Option Bool
unfolding reason_needs_flash
needs_flash d = reason_needs_flash d.reason

unfoldable pub is_known : DeviceStatus → Bool
unfolding needs_flash
is_known d = is_some (needs_flash d)
