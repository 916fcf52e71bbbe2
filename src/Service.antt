-- ===== src/Service.antt =====
-- src/mcu_updater/service.py: the printer's services, stopped for a flash and put back.
pub mod Defs
pub mod Orders
pub mod Outage
pub mod Crash
pub mod Reconcile
