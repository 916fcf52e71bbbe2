-- ===== src/Status/Reasons.antt =====
-- The reason codes of an image, and what they are views of.
use mcu_updater.Base.{
  String, ◌≡◌, ◌≢◌, ◌⊎◌, refl, ap, ◌↔◌, none, some, inl, inr, arith, Bool-cases, str_eq, str_eq_iff,
}
use mcu_updater.Status.Artifact.{
  ArtifactReason, never_built, config_changed, source_changed, built_dirty, foreign_build,
  no_provenance, artifact_code, of_code,
}

of_code-artifact_code :
    (r : ArtifactReason) → of_code (artifact_code r) ≡ some (record { reason = some r })
unfolding of_code artifact_code
of_code-artifact_code never_built = refl
of_code-artifact_code config_changed = refl
of_code-artifact_code source_changed = refl
of_code-artifact_code built_dirty = refl
of_code-artifact_code foreign_build = refl
of_code-artifact_code no_provenance = refl

of_code-cases :
    (s : String)
    → (of_code s ≡ none) ⊎ ((r : ArtifactReason) × (of_code s ≡ some (record { reason = some r })))
unfolding of_code
of_code-cases s = elim (Bool-cases (str_eq s "never_built")) [
  | inl a ↦ inr (never_built, rw a refl)
  | inr a ↦ elim (Bool-cases (str_eq s "config_changed")) [
    | inl b ↦ inr (config_changed, rw (a, b) refl)
    | inr b ↦ elim (Bool-cases (str_eq s "source_changed")) [
      | inl c ↦ inr (source_changed, rw (a, b, c) refl)
      | inr c ↦ elim (Bool-cases (str_eq s "built_dirty")) [
        | inl d ↦ inr (built_dirty, rw (a, b, c, d) refl)
        | inr d ↦ elim (Bool-cases (str_eq s "foreign_build")) [
          | inl e ↦ inr (foreign_build, rw (a, b, c, d, e) refl)
          | inr e ↦ elim (Bool-cases (str_eq s "no_provenance")) [
            | inl f ↦ inr (no_provenance, rw (a, b, c, d, e, f) refl)
            | inr f ↦ inl (rw (a, b, c, d, e, f) refl)
          ]
        ]
      ]
    ]
  ]
]

of_code-code :
    (s : String) (r : ArtifactReason)
    → of_code s ≡ some (record { reason = some r })
    → artifact_code r ≡ s
unfolding of_code artifact_code
of_code-code s r h = ground (
  arith,
  str_eq_iff s "never_built",
  str_eq_iff s "config_changed",
  str_eq_iff s "source_changed",
  str_eq_iff s "built_dirty",
  str_eq_iff s "foreign_build",
  str_eq_iff s "no_provenance",
)

-- `ArtifactStatus(s)` is refused exactly for a string that is no reason's code; every other string is kept
-- as the reason whose code it is, and never as the status without a reason.
pub of_code_iff :
    (s : String)
    → ((of_code s ≡ none) ↔ ((r : ArtifactReason) → artifact_code r ≢ s))
      × ((r : ArtifactReason)
          → (of_code s ≡ some (record { reason = some r })) ↔ (artifact_code r ≡ s))
      × (of_code s ≢ some (record { reason = none }))
of_code_iff s = (
  (
    (λ h r e. let kept = of_code-artifact_code r in cc (ap of_code e, kept, h)),
    (λ h. elim (of_code-cases s) [ inl n ↦ n | inr (r, e) ↦ absurd (h r (of_code-code s r e)) ]),
  ),
  (λ r. (of_code-code s r, λ e. rw (← e) (of_code-artifact_code r))),
  (λ h. elim (of_code-cases s) [ inl n ↦ cc (n, h) | inr (r, e) ↦ cc (e, h) ]),
)
