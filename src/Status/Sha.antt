-- ===== src/Status/Sha.antt =====
-- Two short shas of different lengths agree when one begins the other.
use mcu_updater.Base.{
  ℕ, suc, ◌≡◌, refl, true, ◌⊎◌, inl, inr, [], ◌∷◌, ◌++◌, min, length, take, arith,
}
use mcu_updater.Base.Text.{Text, text_eq_iff}
use mcu_updater.Status.Verdict.{sha_agrees}

abbrev pub Begins : Text → Text → Type 0
Begins p s = (rest : Text) × (p ++ rest ≡ s)

Agrees : Text → Text → Type 0
Agrees s t = take (min (length s) (length t)) s ≡ take (min (length s) (length t)) t

min-suc-suc : (a b : ℕ) → min (suc a) (suc b) ≡ suc (min a b)
min-suc-suc a b = omega arith

Agrees-cons : (c d : ℕ) (s t : Text) → Agrees (c ∷ s) (d ∷ t) → (c ≡ d) × Agrees s t
unfolding Agrees
Agrees-cons c d s t h =
    let k : (c ∷ take (min (length s) (length t)) s) ≡ (d ∷ take (min (length s) (length t)) t) =
      rw min-suc-suc at h in
    ((cc k), (cc k))

Begins-cons : (c d : ℕ) (s t : Text) → c ≡ d → Begins s t → Begins (c ∷ s) (d ∷ t)
Begins-cons c d s t e b = (b.0, cc (e, b.1))

Agrees→Begins : (s t : Text) → Agrees s t → Begins s t ⊎ Begins t s
Agrees→Begins [] t h = inl (t, refl)
Agrees→Begins (c ∷ s) [] h = inr (c ∷ s, refl)
Agrees→Begins (c ∷ s) (d ∷ t) h =
    let (e, k) = Agrees-cons c d s t h in
    elim (Agrees→Begins s t k) [
      | inl b ↦ inl (Begins-cons c d s t e b)
      | inr b ↦ inr (Begins-cons d c t s (cc e) b)
    ]

pub sha_agrees→Begins : (s t : Text) → sha_agrees s t ≡ true → Begins s t ⊎ Begins t s
unfolding sha_agrees Agrees
sha_agrees→Begins s t h = Agrees→Begins s t ((text_eq_iff _ _).0 h)
