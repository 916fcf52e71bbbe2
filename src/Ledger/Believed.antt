-- ===== src/Ledger/Believed.antt =====
-- When a record of the flash log is believed.
use mathlib.Core.Path.{subst}
use mcu_updater.Base.{
  ◌≡◌, sym, ◌∙◌, true, false, Option, none, some, ◌↔◌, ◌⊎◌, inl, inr, String, arith, Option-cases,
  some_eq,
}
use mcu_updater.Base.Text.{Text, text_eq, starts_with}
use mcu_updater.Base.Dict.{get}
use mcu_updater.Status.Verdict.{given, text_or_empty}
use mcu_updater.Ledger.Defs.{Entry, FlashLog, believe, entry_of, entry_for}

-- What the board reports contradicts the record: its commit is none that the recorded one begins with,
-- or, where it reports none, its version is another than the recorded one.
abbrev pub Contradicts : Entry → Option Text → Option Text → Type 0
Contradicts entry running_sha version =
    ((given running_sha ≡ true)
      × (given entry.fw_sha ≡ true)
      × (starts_with (text_or_empty entry.fw_sha) (text_or_empty running_sha) ≡ false))
    ⊎ ((given running_sha ≡ false)
        × (given version ≡ true)
        × (given entry.version ≡ true)
        × (text_eq (text_or_empty entry.version) (text_or_empty version) ≡ false))

believe_cases :
    (entry : Entry) (running_sha version : Option Text)
    → (Contradicts entry running_sha version × (believe entry running_sha version ≡ none))
      ⊎ ((Contradicts entry running_sha version → ⊥)
          × (believe entry running_sha version ≡ some entry))
unfolding believe
believe_cases entry running_sha version = ground arith

believe_iff :
    (found entry : Entry) (running_sha version : Option Text)
    → (believe found running_sha version ≡ some entry)
      ↔ ((some found ≡ some entry) × (Contradicts entry running_sha version → ⊥))
believe_iff found entry running_sha version = elim (believe_cases found running_sha version) [
  | inl (c, n) ↦ (
    λ h. absurd (cc (n, h)),
    λ k. absurd (k.1 (subst (λ x. Contradicts x running_sha version) (some_eq k.0) c)),
  )
  | inr (nc, s) ↦ (
    λ h.
        let same : some found ≡ some entry = sym s ∙ h in
        (same, subst (λ x. Contradicts x running_sha version → ⊥) (some_eq same) nc),
    λ k. s ∙ k.0,
  )
]

-- A record is told exactly when there is one for the serial that nothing the board reports contradicts.
pub entry_for_iff :
    (log : FlashLog) (serial : String) (running_sha version : Option Text) (entry : Entry)
    → (entry_for log serial running_sha version ≡ some entry)
      ↔ ((entry_of (get log serial) ≡ some entry) × (Contradicts entry running_sha version → ⊥))
unfolding entry_for
entry_for_iff log serial running_sha version entry =
    elim (Option-cases (entry_of (get log serial))) [
      | inl e ↦ rw (e, entry_for) ((λ h. cc), (λ h. cc))
      | inr (found, e) ↦ rw (e, entry_for) (believe_iff found entry running_sha version)
    ]
