-- ===== src/Provision/Asked.antt =====
-- Which boards `auto_provision` of src/mcu_updater/provisioning.py is asked to write to.
use mcu_updater.Base.{
  ◌≡◌, refl, ap, ◌∙◌, Bool, true, false, not, ◌&&◌, ◌||◌, none, some, List, [], ◌∷◌, arith,
  Bool-cases, inl, inr,
}
use mcu_updater.Base.Text.{Text, text_eq, text_eq_iff}
use mcu_updater.Cfg.Parse.{has_text}
use mcu_updater.Types.Defs.{FirmwareFamily, Families}
use mcu_updater.Registry.Defs.{sorted, insert_text}
use mcu_updater.Provision.Auto.{Judgement, raised, judged, Found, unknown, nothing, found}

-- The judge calls for provisioning.
unfoldable pub calls_for : Judgement → Bool
calls_for raised = false
calls_for (judged fine remedy) = not fine && remedy

unfoldable pub helper_asks : Found → Text → Bool
helper_asks unknown s = false
helper_asks nothing s = false
helper_asks (found h) s = elim h.judge [ none ↦ false | some judge ↦ calls_for (judge s) ]

-- Some family that opted in has a helper that calls for it.
unfoldable pub is_asked : (FirmwareFamily → Found) → Families → Text → Bool
is_asked for_name [] s = false
is_asked for_name ((n, f) ∷ fs) s =
    (f.auto_provision && helper_asks (for_name f) s) || is_asked for_name fs s

unfoldable pub is_distinct : List Text → Bool
is_distinct [] = true
is_distinct (t ∷ ts) = not (has_text t ts) && is_distinct ts

-- Every text of a list passes, and is among others.
unfoldable pub all_pass : (Text → Bool) → List Text → Bool
all_pass p [] = true
all_pass p (t ∷ ts) = p t && all_pass p ts

-- A text that is nowhere among them is none of them.
pub not_among :
    (s : Text) (ts us : List Text)
    → all_pass (λ t. has_text t us) ts ≡ true
    → has_text s us ≡ false
    → has_text s ts ≡ false
unfolding all_pass has_text
not_among s [] us h k = refl
not_among s (t ∷ ts) us h k =
    let this : has_text t us ≡ true = ground (arith, h) in
    let others : all_pass (λ t. has_text t us) ts ≡ true = ground (arith, h) in
    let later = not_among s ts us others k in
    elim (Bool-cases (text_eq t s)) [
      | inl e ↦
          let same = (text_eq_iff t s).0 e in
          let clash : has_text t us ≡ false = rw same k in cc (this, clash)
      | inr e ↦ rw (e, later) refl
    ]

pub all_pass-more :
    (s : Text) (ts us : List Text)
    → all_pass (λ t. has_text t us) ts ≡ true
    → all_pass (λ t. has_text t (s ∷ us)) ts ≡ true
unfolding all_pass has_text
all_pass-more s [] us h = refl
all_pass-more s (t ∷ ts) us h =
    let others : all_pass (λ t. has_text t us) ts ≡ true = ground (arith, h) in
    let later = all_pass-more s ts us others in ground (arith, h, later)

all_pass-insert :
    (p : Text → Bool) (t : Text) (us : List Text)
    → all_pass p (insert_text t us) ≡ (p t && all_pass p us)
unfolding all_pass
all_pass-insert p t [] = refl
all_pass-insert p t (u ∷ us) = ground (arith, all_pass-insert p t us)

pub all_pass-sorted : (p : Text → Bool) (ts : List Text) → all_pass p (sorted ts) ≡ all_pass p ts
unfolding all_pass sorted
all_pass-sorted p [] = refl
all_pass-sorted p (t ∷ ts) =
    all_pass-insert p t (sorted ts) ∙ ap (λ b. p t && b) (all_pass-sorted p ts)

has_text_self : (t : Text) (ts : List Text) → has_text t (t ∷ ts) ≡ true
unfolding has_text
has_text_self t ts = rw (text_eq_iff t t).1 refl

pub all_pass_self : (ts : List Text) → all_pass (λ s. has_text s ts) ts ≡ true
unfolding all_pass
all_pass_self [] = refl
all_pass_self (t ∷ ts) = rw (has_text_self t ts, all_pass-more t ts ts (all_pass_self ts)) refl
