-- ===== src/Types.antt =====
-- The declared types and firmware families: src/mcu_updater/typelist.py, firmware.py and sections.py.
pub mod Defs
pub mod Validate
pub mod Checks
pub mod Buildable
