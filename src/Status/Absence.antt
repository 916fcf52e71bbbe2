-- ===== src/Status/Absence.antt =====
-- "Absence is never mismatch" and "a measurement outranks a claim".
use mcu_updater.Base.{◌≡◌, ◌≢◌, ap, true, false, ◌&&◌, none, some, ◌⊎◌, arith, if◌then◌else◌}
use mcu_updater.Status.Device.{unexpected_image, artifact_changed, needs_flash}
use mcu_updater.Status.Verdict.{
  DeviceInfo, has_digest, is_complete, same_digest, image_verdict, Evidence, Expected, tag, given,
  record_verdict, stamp_verdict, version_verdict, measured_or, decide,
}
use mcu_updater.Status.Vouched.{up_to_date, IsReachable, same_digest→≡, same_digest_refl}

decide_reachable :
    (e : Evidence) (x : Expected)
    → IsReachable e
    → decide e x ≡ measured_or (image_verdict e.info x.digest) (version_verdict e x)
unfolding decide
decide_reachable e x h = ground (arith, h.speaks, h.online, h.running)

image_verdict_measured :
    (i o : DeviceInfo)
    → has_digest i ≡ true
    → is_complete o ≡ true
    → image_verdict (some i) (some o) ≡ (
        if same_digest i o
        then some up_to_date
        else some (record { reason = some unexpected_image }))
unfolding image_verdict
image_verdict_measured i o h k = ground arith

-- A device that answers and measured its own image, against a build whose four digest fields are all
-- recorded, reads up to date when the two reports are equal and "unexpected image" when they are not:
-- whatever the version, the commit, the dirty flag and the flash record say.
pub decide_measured :
    (e : Evidence) (x : Expected) (i o : DeviceInfo)
    → IsReachable e
    → e.info ≡ some i
    → x.digest ≡ some o
    → has_digest i ≡ true
    → is_complete o ≡ true
    → (i ≡ o → decide e x ≡ up_to_date)
      × (i ≢ o → decide e x ≡ record { reason = some unexpected_image })
decide_measured e x i o r p q h k = (
  (λ s. ground (
    arith,
    decide_reachable e x r,
    image_verdict_measured i o h k,
    same_digest_refl i,
    ap (same_digest i) s,
  )),
  (λ d. ground (arith, decide_reachable e x r, image_verdict_measured i o h k, same_digest→≡ i o)),
)

abbrev pub without_record : Expected → Expected
without_record x = record x { record_entry = none }

-- With a commit on both sides and no measurement to compare, the flash record only adds doubt: what
-- reads up to date with a record reads up to date without one, and the answer differs from the one
-- without a record only by "artifact changed".
pub decide_record_commit :
    (e : Evidence) (x : Expected)
    → image_verdict e.info x.digest ≡ none
    → given e.running_sha ≡ true
    → given x.head ≡ true
    → (decide e x ≡ decide e (without_record x))
      ⊎ ((decide e (without_record x) ≡ up_to_date)
          × (decide e x ≡ record { reason = some artifact_changed }))
unfolding decide version_verdict record_verdict
decide_record_commit e x m p q = ground arith

-- With no commit to compare, no measurement, and a stamp of a build of ours, a device is never called
-- up to date without a flash record.
pub decide_record_stamp :
    (e : Evidence) (x : Expected)
    → image_verdict e.info x.digest ≡ none
    → (given e.running_sha && given x.head) ≡ false
    → x.stamp_kind ≢ tag
    → x.record_entry ≡ none
    → needs_flash (decide e x) ≢ some false
unfolding decide version_verdict stamp_verdict record_verdict needs_flash
decide_record_stamp e x m p k n h = ground arith
