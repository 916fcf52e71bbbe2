-- ===== src/Uf2.antt =====
-- src/mcu_updater/uf2.py: the UF2 container, the flash image that it carries, and its digest.
pub mod Container
pub mod Image
pub mod Canvas
pub mod Extraction
pub mod Extent
pub mod Digest
pub mod Provenance
