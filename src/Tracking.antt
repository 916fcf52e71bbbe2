-- ===== src/Tracking.antt =====
-- Tracking a serial under a type: src/mcu_updater/tracking.py.
pub mod Defs
pub mod Writes
