-- ===== src/Ledger.antt =====
-- What was last written to each board, and which type a bare board was set up for.
pub mod Defs
pub mod Believed
pub mod Paired
