-- ===== src/Erase.antt =====
-- src/mcu_updater/uf2_erase.py: a UF2 container that also blanks the application's first sector.
pub mod Defs
pub mod Chunk
pub mod Sizes
pub mod RoundTrip
pub mod Numbers
pub mod Order
pub mod Located
pub mod Spares
pub mod Sector
