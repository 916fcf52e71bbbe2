-- ===== src/Cfg/Strip.antt =====
-- The blanks at the ends of a text, for src/mcu_updater/cfgdoc.py.
use mcu_updater.Base.{
  ℕ, ◌≡◌, refl, ap, ◌∙◌, Bool, true, false, ◌&&◌, [], ◌∷◌, ◌++◌, is_empty, arith, Bool-cases, inl,
  inr,
}
use mcu_updater.Base.Text.{Text, is_space, lstrip, rstrip}
use mcu_updater.Cfg.Line.{is_mark, cut_comment}

unfoldable pub all_space : Text → Bool
all_space [] = true
all_space (c ∷ s) = is_space c && all_space s

-- Nothing, or a comment.
unfoldable pub is_note : Text → Bool
is_note [] = true
is_note (c ∷ s) = is_mark c

pub mark_solid : (c : ℕ) → is_mark c ≡ true → is_space c ≡ false
unfolding is_space
mark_solid c h = ground (arith, h)

pub rstrip-all_space : (s : Text) → all_space s ≡ true → rstrip s ≡ []
unfolding rstrip all_space
rstrip-all_space [] h = refl
rstrip-all_space (c ∷ s) h =
    let others : all_space s ≡ true = ground (arith, h) in
    let this : is_space c ≡ true = ground (arith, h) in
    rw (rstrip-all_space s others) (rw this refl)

is_empty_nil : (s : Text) → is_empty s ≡ true → s ≡ []
is_empty_nil [] h = refl
is_empty_nil (c ∷ s) h = cc h

append_solid : (s : Text) (c : ℕ) (t : Text) → is_empty (s ++ (c ∷ t)) ≡ false
append_solid [] c t = refl
append_solid (d ∷ s) c t = refl

-- What rstrip takes away.
pub rstrip_rest : (s : Text) → (x : Text) × (s ≡ rstrip s ++ x) × (all_space x ≡ true)
unfolding rstrip all_space
rstrip_rest [] = ([], refl, refl)
rstrip_rest (c ∷ s) =
    let (x, e, blank) = rstrip_rest s in
    elim (Bool-cases (is_space c && is_empty (rstrip s))) [
      | inl h ↦
          let gone : rstrip s ≡ [] = is_empty_nil (rstrip s) (ground (arith, h)) in
          let all : s ≡ x = e ∙ ap {A = Text} (λ r. r ++ x) gone in
          let this : is_space c ≡ true = ground (arith, h) in
          (c ∷ s, rw h refl, rw (this, all) blank)
      | inr h ↦ (x, rw h (rw (← e) refl), blank)
    ]

-- rstrip stops at a character that is no blank.
pub rstrip-append_solid :
    (s : Text) (c : ℕ) (t : Text) → is_space c ≡ false → rstrip (s ++ (c ∷ t)) ≡ s ++ (c ∷ rstrip t)
unfolding rstrip
rstrip-append_solid [] c t h = rw h refl
rstrip-append_solid (d ∷ s) c t h =
    let full = append_solid s c (rstrip t) in rw (rstrip-append_solid s c t h, full) (ground arith)

pub rstrip-append_space : (s x : Text) → all_space x ≡ true → rstrip (s ++ x) ≡ rstrip s
unfolding rstrip
rstrip-append_space [] x h = rstrip-all_space x h
rstrip-append_space (c ∷ s) x h = rw (rstrip-append_space s x h) refl

pub lstrip-append_space : (x s : Text) → all_space x ≡ true → lstrip (x ++ s) ≡ lstrip s
unfolding lstrip all_space
lstrip-append_space [] s h = refl
lstrip-append_space (c ∷ x) s h =
    let others : all_space x ≡ true = ground (arith, h) in
    let this : is_space c ≡ true = ground (arith, h) in rw this (lstrip-append_space x s others)

pub lstrip_solid : (c : ℕ) (s : Text) → is_space c ≡ false → lstrip (c ∷ s) ≡ c ∷ s
unfolding lstrip
lstrip_solid c s h = rw h refl

-- What an inline comment takes away.
pub cut_comment_rest :
    (b : Bool) (s : Text) → (x : Text) × (s ≡ cut_comment b s ++ x) × (is_note x ≡ true)
unfolding cut_comment is_note
cut_comment_rest b [] = ([], refl, refl)
cut_comment_rest b (c ∷ s) = elim (Bool-cases (b && is_mark c)) [
  | inl h ↦ (c ∷ s, rw h refl, ground (arith, h))
  | inr h ↦ let (x, e, note) = cut_comment_rest (is_space c) s in (x, rw h (rw (← e) refl), note)
]

cut_comment_uncut :
    (b : Bool) (d : ℕ) (s : Text)
    → cut_comment b (d ∷ s) ≡ d ∷ s
    → ((b && is_mark d) ≡ false) × (cut_comment (is_space d) s ≡ s)
unfolding cut_comment
cut_comment_uncut b d s h = elim (Bool-cases (b && is_mark d)) [
  | inl k ↦ let gone : [] ≡ d ∷ s = rw (← h, k) refl in cc gone
  | inr k ↦ let kept : d ∷ cut_comment (is_space d) s ≡ d ∷ s = (rw k refl) ∙ h in (k, cc kept)
]

-- An uncut text before a comment.
pub cut_comment-append :
    (b : Bool) (s : Text) (c : ℕ) (t : Text)
    → cut_comment b s ≡ s
    → is_mark c ≡ true
    → cut_comment b (s ++ (b' ' ∷ b' ' ∷ c ∷ t)) ≡ s ++ (b' ' ∷ b' ' ∷ [])
unfolding cut_comment is_space
cut_comment-append true [] c t h m = rw m refl
cut_comment-append false [] c t h m = rw m refl
cut_comment-append b (d ∷ s) c t h m =
    let (this, others) = cut_comment_uncut b d s h in
    rw this (ap {A = Text} (λ r. d ∷ r) (cut_comment-append (is_space d) s c t others m))
