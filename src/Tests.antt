-- ===== src/Tests.antt =====
-- Concrete inputs, and each theorem with hypotheses at one of them.
mod Status
mod Uf2
mod Erase
mod Service
mod Batch
mod Jobs
mod Ledger
mod Select
mod Cfg
mod Lock
mod Types
mod Registry
mod Provision
mod Tracking
