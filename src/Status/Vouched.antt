-- ===== src/Status/Vouched.antt =====
-- When `decide` says that a device needs no flashing.
use mcu_updater.Base.{
  ◌≡◌, ◌≢◌, refl, true, false, Option, none, some, List, [], ◌∷◌, String, ◌⊎◌, inl, inr, arith,
  Option-cases, Bool-cases, str_eq, str_eq_iff,
}
use mcu_updater.Base.Dict.{contains}
use mcu_updater.Base.Text.{Text, strip, lower, text_eq, text_eq_iff}
use mcu_updater.Status.Device.{DeviceStatus, version_only, needs_flash}
use mcu_updater.Status.Verdict.{
  DeviceInfo, has_digest, same_digest, image_verdict, BusState, katapult, Evidence, FlashEntry,
  Expected, StampKind, built, tag, given, artifact_differs, record_verdict, stamp_verdict,
  version_verdict, sha_agrees, text_or_empty, decide,
}
use mcu_updater.Status.Sha.{Begins, sha_agrees→Begins}

abbrev pub up_to_date : DeviceStatus
up_to_date = record { reason = none }

-- Neither the protocol nor the bus state has settled the question.
pub record IsReachable (e : Evidence) : Type 0 where
  pub speaks : e.protocol_match ≢ some false
  pub online : e.state ≢ some BusState.offline
  pub running : e.state ≢ some katapult

-- The board measured the very image that the host holds.
pub record IsMeasured (e : Evidence) (x : Expected) : Type 0 where
  pub info : DeviceInfo
  pub reported : e.info ≡ some info
  pub held : x.digest ≡ some info
  pub digest : has_digest info ≡ true

-- The record has no hash of an image, or the host holds no image, or the hash is of one that it holds.
abbrev pub NamesNoOther : FlashEntry → List String → Type 0
NamesNoOther entry shas =
    (entry.bin_sha256 ≡ none)
    ⊎ ((entry.bin_sha256 ≡ some "")
        ⊎ ((shas ≡ [])
            ⊎ ((flashed : String) × (entry.bin_sha256 ≡ some flashed)
                × (contains shas flashed ≡ true))))

-- There is a flash record, and it names no other build.
abbrev pub HasRecord : Expected → Type 0
HasRecord x =
    (entry : FlashEntry) × (x.record_entry ≡ some entry) × NamesNoOther entry x.artifact_shas

-- The flash record, if there is one, names no other build.
abbrev pub KeepsRecord : Expected → Type 0
KeepsRecord x = (x.record_entry ≡ none) ⊎ HasRecord x

-- The reported commit and the tree's head are one commit, in full or abbreviated.
pub record IsSameCommit (e : Evidence) (x : Expected) : Type 0 where
  pub running : Text
  pub head : Text
  pub reported : e.running_sha ≡ some running
  pub held : x.head ≡ some head
  pub agree : Begins (lower running) (lower head) ⊎ Begins (lower head) (lower running)
  pub kept : KeepsRecord x

-- The reported version is the stamp, and what the stamp's kind asks for besides.
pub record IsSameRelease (e : Evidence) (x : Expected) : Type 0 where
  pub version : Text
  pub stamp : Text
  pub reported : e.version ≡ some version
  pub held : x.stamp ≡ some stamp
  pub agree : strip version ≡ stamp
  pub backed :
      ((x.stamp_kind ≡ tag) × (x.tag_clean ≡ true)) ⊎ ((x.stamp_kind ≡ built) × HasRecord x)

pub record IsVouched (e : Evidence) (x : Expected) : Type 0 where
  pub reachable : IsReachable e
  pub evidence :
      IsMeasured e x
      ⊎ ((e.dirty ≡ false) × (given e.version ≡ true) × (IsSameCommit e x ⊎ IsSameRelease e x))

pub same_digest→≡ : (a b : DeviceInfo) → same_digest a b ≡ true → a ≡ b
unfolding same_digest
same_digest→≡ a b h = ground arith

pub same_digest_refl : (a : DeviceInfo) → same_digest a a ≡ true
unfolding same_digest
same_digest_refl a = ground arith

image_verdict_facts :
    (i o : DeviceInfo)
    → image_verdict (some i) (some o) ≡ some up_to_date
    → (has_digest i ≡ true) × (same_digest i o ≡ true)
unfolding image_verdict
image_verdict_facts i o h = ground arith

image_verdict_current :
    (e : Evidence) (x : Expected) → image_verdict e.info x.digest ≡ some up_to_date → IsMeasured e x
unfolding image_verdict
image_verdict_current e x h = elim (Option-cases e.info) [
  | inl no_info ↦ ground arith
  | inr (i, p) ↦ elim (Option-cases x.digest) [
    | inl no_digest ↦ ground arith
    | inr (o, q) ↦
        let f = image_verdict_facts i o (rw p at (rw q at h)) in
        record { info = i; reported = p; held = cc (q, same_digest→≡ i o f.1); digest = f.0 }
  ]
]

artifact_differs-NamesNoOther :
    (entry : FlashEntry) (shas : List String)
    → artifact_differs entry shas ≡ false
    → NamesNoOther entry shas
unfolding artifact_differs
artifact_differs-NamesNoOther entry [] h = inr (inr (inl refl))
artifact_differs-NamesNoOther entry (s ∷ shas) h = elim (Option-cases entry.bin_sha256) [
  | inl n ↦ inl n
  | inr (flashed, e) ↦ elim (Bool-cases (str_eq flashed "")) [
    | inl empty ↦ inr (inl (cc (e, (str_eq_iff flashed "").0 empty)))
    | inr full ↦ elim (Bool-cases (contains (s ∷ shas) flashed)) [
      | inl held ↦ inr (inr (inr (flashed, e, held)))
      | inr other ↦ absurd (ground (arith, h, e, full, other))
    ]
  ]
]

record_verdict_current : (x : Expected) → record_verdict x none ≡ up_to_date → KeepsRecord x
unfolding record_verdict
record_verdict_current x h = elim (Option-cases x.record_entry) [
  | inl p ↦ inl p
  | inr (entry, p) ↦
      inr (entry, p, artifact_differs-NamesNoOther entry x.artifact_shas (ground arith))
]

record_verdict_backed :
    (x : Expected) → record_verdict x (some version_only) ≡ up_to_date → HasRecord x
unfolding record_verdict
record_verdict_backed x h = elim (Option-cases x.record_entry) [
  | inl p ↦ ground arith
  | inr (entry, p) ↦ (entry, p, artifact_differs-NamesNoOther entry x.artifact_shas (ground arith))
]

needs_flash_current : (d : DeviceStatus) → needs_flash d ≡ some false → d ≡ up_to_date
unfolding needs_flash
needs_flash_current d h = ground arith

given-some : (o : Option Text) → given o ≡ true → (s : Text) × (o ≡ some s)
unfolding given
given-some none h = cc
given-some (some s) h = (s, refl)

StampKind-cases : (k : StampKind) → (k ≡ tag) ⊎ (k ≡ built)
StampKind-cases tag = inl refl
StampKind-cases built = inr refl

stamp_verdict_current :
    (e : Evidence) (x : Expected)
    → given e.version ≡ true
    → stamp_verdict e x ≡ up_to_date
    → IsSameRelease e x
unfolding stamp_verdict
stamp_verdict_current e x g h =
    let (v, p) = given-some e.version g in
    let gs : given x.stamp ≡ true = ground arith in
    let (s, q) = given-some x.stamp gs in
    let same : text_eq (strip v) s ≡ true = ground arith in
    record {
      version = v;
      stamp = s;
      reported = p;
      held = q;
      agree = (text_eq_iff _ _).0 same;
      backed = elim (StampKind-cases x.stamp_kind) [
        | inl t ↦ inl (t, ground arith)
        | inr b ↦ inr (b, record_verdict_backed x (ground arith))
      ];
    }

version_verdict_facts :
    (e : Evidence) (x : Expected)
    → version_verdict e x ≡ up_to_date
    → (given e.version ≡ true)
      × (e.dirty ≡ false)
      × (((given e.running_sha ≡ true)
            × (given x.head ≡ true)
            × (sha_agrees (lower (text_or_empty e.running_sha)) (lower (text_or_empty x.head))
                ≡ true)
            × (record_verdict x none ≡ up_to_date))
          ⊎ (stamp_verdict e x ≡ up_to_date))
unfolding version_verdict
version_verdict_facts e x h = ground arith

same_commit :
    (e : Evidence) (x : Expected)
    → given e.running_sha ≡ true
    → given x.head ≡ true
    → sha_agrees (lower (text_or_empty e.running_sha)) (lower (text_or_empty x.head)) ≡ true
    → record_verdict x none ≡ up_to_date
    → IsSameCommit e x
same_commit e x gr gh a r =
    let (running, p) = given-some e.running_sha gr in
    let (head, q) = given-some x.head gh in
    record {
      running = running;
      head = head;
      reported = p;
      held = q;
      agree = sha_agrees→Begins (lower running) (lower head) (rw p at (rw q at a));
      kept = record_verdict_current x r;
    }

decide_facts :
    (e : Evidence) (x : Expected)
    → decide e x ≡ up_to_date
    → IsReachable e
      × ((image_verdict e.info x.digest ≡ some up_to_date) ⊎ (version_verdict e x ≡ up_to_date))
unfolding decide
decide_facts e x h = (
  record { speaks = λ p. ground arith; online = λ p. ground arith; running = λ p. ground arith },
  ground arith,
)

-- A device reads "does not need flashing" only when it answers, and when either its own measurement
-- is of the image that the host holds, or it reports a version from a clean tree and that version's
-- commit is the head of the tree (one short sha beginning the other, whatever the case) with no flash
-- record of another build, or its version is the stamp, backed by a tree that is still on its tag or,
-- for a stamp of our build, by a flash record that is of no other build. A record is of no other build
-- when its hash is of an image that the host holds, and also when it has no hash or none is held.
pub decide-IsVouched :
    (e : Evidence) (x : Expected) → needs_flash (decide e x) ≡ some false → IsVouched e x
decide-IsVouched e x h =
    let f = decide_facts e x (needs_flash_current (decide e x) h) in
    record {
      reachable = f.0;
      evidence = elim f.1 [
        | inl m ↦ inl (image_verdict_current e x m)
        | inr v ↦
            let w = version_verdict_facts e x v in
            inr (
              w.1,
              w.0,
              elim w.2 [
                | inl c ↦ inl (same_commit e x c.0 c.1 c.2 c.3)
                | inr s ↦ inr (stamp_verdict_current e x w.0 s)
              ],
            )
      ];
    }
