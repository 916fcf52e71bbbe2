-- ===== src/Select.antt =====
-- Which flasher writes a device: src/mcu_updater/artifacts.py and `resolve` of flashers/registry.py.
pub mod Defs
pub mod First
