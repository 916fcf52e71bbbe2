-- ===== src/Registry.antt =====
-- The registry of types, src/mcu_updater/config.py.
pub mod Names
pub mod Defs
pub mod Tracking
pub mod Edits
pub mod Uses
