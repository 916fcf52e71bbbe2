-- ===== src/Status.antt =====
-- src/mcu_updater/states.py, src/mcu_updater/verdict.py and DeviceInfo of
-- src/mcu_updater/device_info.py: what is known of a built image and of a device.
pub mod Tone
pub mod Artifact
pub mod Device
pub mod Verdict
pub mod Sha
pub mod Vouched
pub mod Absence
pub mod Reasons
