-- ===== src/Status/Tone.antt =====
-- The tones of src/mcu_updater/states.py.
pub data Tone : Type 0 where
  ok warn problem : Tone
