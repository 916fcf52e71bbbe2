-- ===== src/Batch.antt =====
-- src/mcu_updater/flashers/batch.py and the grouping of flashers/registry.py: a set of devices,
-- written with one service outage.
pub mod Prog
pub mod Groups
pub mod Defs
pub mod Trace
pub mod Accounts
pub mod Services
pub mod Every
pub mod Union
