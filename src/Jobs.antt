-- ===== src/Jobs.antt =====
-- src/mcu_updater/jobs.py: the single slot of the agent, and the log of a job.
pub mod Log
pub mod Ring
pub mod Runner
pub mod Consistent
pub mod Slot
pub mod Final
