-- ===== src/Tests/Status.antt =====
-- Devices and builds for src/mcu_updater/verdict.py.
use mcu_updater.Base.{◌≡◌, ◌≢◌, refl, true, false, none, some, ◌⊎◌, ◌↔◌, [], ◌∷◌}
use mcu_updater.Base.Dict.{contains}
use mcu_updater.Base.Text.{codes, text_eq, lower}
use mcu_updater.Status.Device.{unexpected_image, needs_flash, artifact_changed}
use mcu_updater.Status.Artifact.{ArtifactReason, of_code, artifact_code}
use mcu_updater.Status.Verdict.{
  DeviceInfo, klipper, Evidence, Expected, built, decide, version_verdict, record_verdict, given,
  sha_agrees, image_verdict, has_digest, is_complete, artifact_differs,
}
use mcu_updater.Status.Vouched.{IsVouched, up_to_date, decide-IsVouched}
use mcu_updater.Status.Absence.{
  decide_measured, decide_record_commit, decide_record_stamp, without_record,
}
use mcu_updater.Status.Reasons.{of_code_iff}

-- a board on the commit of the tree's head, its flash record the staged build's
abbrev board : Evidence
board = record {
  state = some klipper;
  version = some (codes "v0.12.0-g1A2b3c4");
  running_sha = some (codes "1A2b3c4");
  dirty = false;
  protocol_match = none;
  info = none;
}

abbrev tree : Expected
tree = record {
  head = some (codes "1a2b3c4d5e6f");
  stamp = none;
  stamp_kind = built;
  tag_clean = false;
  require_head = false;
  artifact_shas = "aa" ∷ [];
  record_entry = some (record { bin_sha256 = some "aa" });
  digest = none;
}

board_current : needs_flash (decide board tree) ≡ some false
unfolding decide image_verdict version_verdict record_verdict given sha_agrees needs_flash text_eq
    lower artifact_differs contains
board_current = refl

decide-IsVouched_example : IsVouched board tree
decide-IsVouched_example = decide-IsVouched board tree board_current

abbrev info : DeviceInfo
info = record {
  digest_algorithm = some 1;
  digest = some 0xbbe38aa9;
  image_start = some 0x10000000;
  image_length = some 300;
}

-- the same board, with a measurement of its own
abbrev measured_board : Evidence
measured_board = record board { info = some info; dirty = true }

abbrev measured_tree : Expected
measured_tree = record tree { digest = some (record info { digest = some 7 }) }

decide_measured_example :
    (info ≡ record info { digest = some 7 } → decide measured_board measured_tree ≡ up_to_date)
    × (info ≢ record info { digest = some 7 }
        → decide measured_board measured_tree ≡ record { reason = some unexpected_image })
unfolding has_digest is_complete
decide_measured_example =
    decide_measured measured_board measured_tree info (record info { digest = some 7 })
      (record { speaks = λ p. cc; online = λ p. cc; running = λ p. cc }) refl refl refl refl

decide_record_commit_example :
    (decide board tree ≡ decide board (without_record tree))
    ⊎ ((decide board (without_record tree) ≡ up_to_date)
        × (decide board tree ≡ record { reason = some artifact_changed }))
unfolding image_verdict given
decide_record_commit_example = decide_record_commit board tree refl refl refl

abbrev stamped : Expected
stamped = record tree { head = none; stamp = some (codes "v0.12.0-g1A2b3c4"); record_entry = none }

decide_record_stamp_example : needs_flash (decide board stamped) ≢ some false
unfolding image_verdict given
decide_record_stamp_example = decide_record_stamp board stamped refl refl (λ p. cc) refl

of_code_iff_example :
    ((of_code "config_changed" ≡ none)
      ↔ ((r : ArtifactReason) → artifact_code r ≢ "config_changed"))
    × ((r : ArtifactReason)
        → (of_code "config_changed" ≡ some (record { reason = some r }))
          ↔ (artifact_code r ≡ "config_changed"))
    × (of_code "config_changed" ≢ some (record { reason = none }))
of_code_iff_example = of_code_iff "config_changed"
