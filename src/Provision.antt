-- ===== src/Provision.antt =====
-- Giving boards their identity: src/mcu_updater/provisioning.py.
pub mod Auto
pub mod Asked
pub mod Safe
