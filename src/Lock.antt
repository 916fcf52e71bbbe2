-- ===== src/Lock.antt =====
-- The lock between processes, src/mcu_updater/lock.py.
pub mod Defs
pub mod Kept
pub mod Spares
pub mod Exclusion
pub mod Again
