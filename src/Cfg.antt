-- ===== src/Cfg.antt =====
-- src/mcu_updater/cfgdoc.py: a `.cfg` file that survives being written back.
pub mod Line
pub mod Parse
pub mod Render
pub mod Doc
pub mod Table
pub mod Content
pub mod Erased
pub mod Patch
pub mod Continued
pub mod Beginning
pub mod Rewrite
pub mod Span
pub mod Located
pub mod Single
pub mod Sited
pub mod Strip
pub mod Written
pub mod Setting
pub mod Edits
pub mod Saved
