-- ===== src/Cfg/Written.antt =====
-- The line that src/mcu_updater/cfgdoc.py writes for an option of one line, read again.
use mathlib.Core.List.{append_assoc, append-nil}
use mcu_updater.Base.{
  ℕ, ◌≡◌, refl, sym, ap, ◌∙◌, Bool, true, false, not, ◌&&◌, ◌||◌, none, some, List, [], ◌∷◌, ◌++◌,
  length, drop, drop-exact, is_empty, ◌==◌, arith, Bool-cases, inl, inr,
}
use mcu_updater.Base.Text.{Text, is_space, lstrip, rstrip, strip}
use mcu_updater.Cfg.Line.{
  is_mark, is_sign, split_at, section_match, option_match, is_comment, is_blank, is_continuation,
  cut_comment, strip_inline_comment,
}
use mcu_updater.Cfg.Render.{last_part, beside, value_line, trailing_comment}
use mcu_updater.Cfg.Beginning.{option_line}
use mcu_updater.Cfg.Strip.{
  all_space, is_note, mark_solid, rstrip-all_space, rstrip_rest, rstrip-append_solid,
  rstrip-append_space, lstrip-append_space, lstrip_solid, cut_comment_rest, cut_comment-append,
}

unfoldable pub no_sign : Text → Bool
no_sign [] = true
no_sign (c ∷ s) = not (is_sign c) && no_sign s

-- A key that a line can begin with.
unfoldable pub is_key : Text → Bool
is_key [] = false
is_key (c ∷ s) = not (c == b'[' || is_space c || is_mark c) && no_sign (c ∷ s)

unfoldable pub IsKey : Text → Type 0
IsKey k = (is_key k ≡ true) × (rstrip k ≡ k)

unfoldable pub starts_solid : Text → Bool
starts_solid [] = true
starts_solid (c ∷ s) = not (is_space c)

-- A value without blanks at its ends and without a comment.
unfoldable pub IsPlain : Text → Type 0
IsPlain t = (starts_solid t ≡ true) × (rstrip t ≡ t) × (cut_comment true t ≡ t)

-- A comment as it stands beside a value.
unfoldable pub IsBeside : Text → Type 0
IsBeside c = (is_note c ≡ true) × (rstrip c ≡ c)

rstrip-rstrip : (s : Text) → rstrip (rstrip s) ≡ rstrip s
unfolding rstrip
rstrip-rstrip [] = refl
rstrip-rstrip (c ∷ s) = elim (Bool-cases (is_space c && is_empty (rstrip s))) [
  | inl h ↦ rw h refl
  | inr h ↦ rw h (rw (rstrip-rstrip s, h) refl)
]

strip_note : (y x : Text) → all_space y ≡ true → is_note x ≡ true → IsBeside (strip (y ++ x))
unfolding strip IsBeside is_note all_space lstrip rstrip
strip_note y [] blank note =
    rw (rstrip-append_space y [] refl, rstrip-all_space y blank, lstrip, rstrip) (refl, refl)
strip_note y (m ∷ r) blank note =
    let solid = mark_solid m note in
    let trimmed = rstrip-append_solid [] m (rstrip r) solid in
    rw
      (
        rstrip-append_solid y m r solid,
        lstrip-append_space y (m ∷ rstrip r) blank,
        lstrip_solid m (rstrip r) solid,
      )
      (note, trimmed ∙ ap {A = Text} (λ s. m ∷ s) (rstrip-rstrip r))

left_out : (body : Text) → IsBeside (strip (drop (length (strip_inline_comment body)) body))
unfolding strip_inline_comment
left_out body =
    let (x, e, note) = cut_comment_rest true body in
    let cut = cut_comment true body in
    let (y, f, blank) = rstrip_rest cut in
    let whole : body ≡ rstrip cut ++ (y ++ x) =
      e ∙ ap {A = Text} (λ s. s ++ x) f ∙ append_assoc (rstrip cut) y x in
    let rest : drop (length (rstrip cut)) body ≡ y ++ x =
      ap {A = Text} (drop (length (rstrip cut))) whole
      ∙ drop-exact (rstrip cut) (y ++ x) (length (rstrip cut)) refl in
    rw rest (strip_note y x blank note)

pub trailing_comment-IsBeside : (existing : List Text) → IsBeside (trailing_comment existing)
unfolding trailing_comment
trailing_comment-IsBeside [] = unfold IsBeside is_note rstrip in (refl, refl)
trailing_comment-IsBeside (line ∷ []) = left_out (last_part b'=' (last_part b':' line))
trailing_comment-IsBeside (line ∷ next ∷ lines) = unfold IsBeside is_note rstrip in (refl, refl)

split_at_key : (k s : Text) → no_sign k ≡ true → split_at is_sign (k ++ (b':' ∷ s)) ≡ (k, b':' ∷ s)
unfolding split_at no_sign
split_at_key [] s h = refl
split_at_key (c ∷ k) s h =
    let others : no_sign k ≡ true = ground (arith, h) in
    let this : is_sign c ≡ false = ground (arith, h) in rw (split_at_key k s others) (rw this refl)

strip-solid : (c : ℕ) (s : Text) → is_space c ≡ false → strip (c ∷ s) ≡ c ∷ rstrip s
unfolding strip
strip-solid c s h = rw (rstrip-append_solid [] c s h) (lstrip_solid c (rstrip s) h)

not-true : (b : Bool) → not b ≡ true → b ≡ false
not-true b h = ground (arith, h)

pub strip_led :
    (x : Text) (d : ℕ) (s : Text)
    → all_space x ≡ true
    → is_space d ≡ false
    → strip (x ++ (d ∷ s)) ≡ d ∷ rstrip s
unfolding strip
strip_led x d s blank solid =
    rw (rstrip-append_solid x d s solid, lstrip-append_space x (d ∷ rstrip s) blank)
      (lstrip_solid d (rstrip s) solid)

trimmed_tail :
    (d : ℕ) (s : Text) → is_space d ≡ false → rstrip (d ∷ s) ≡ d ∷ s → d ∷ rstrip s ≡ d ∷ s
trimmed_tail d s solid e = sym (rstrip-append_solid [] d s solid) ∙ e

-- A comment is no part of the value.
strip-beside :
    (d : ℕ) (t : Text) (m : ℕ) (r : Text)
    → is_space d ≡ false
    → is_mark m ≡ true
    → rstrip (m ∷ r) ≡ m ∷ r
    → strip (b' ' ∷ d ∷ (t ++ (b' ' ∷ b' ' ∷ m ∷ r))) ≡ d ∷ (t ++ (b' ' ∷ b' ' ∷ m ∷ r))
strip-beside d t m r solid note end =
    let gap : Text = b' ' ∷ b' ' ∷ [] in
    let apart = append_assoc t gap (m ∷ r) in
    let last = mark_solid m note in
    let cut = rstrip-append_solid (t ++ gap) m r last in
    let tail = trimmed_tail m r last end in
    strip_led (b' ' ∷ []) d (t ++ (b' ' ∷ b' ' ∷ m ∷ r)) (unfold all_space is_space in refl) solid
    ∙ ap {A = Text} (λ s. d ∷ s)
        (ap rstrip (sym apart) ∙ cut ∙ ap {A = Text} (λ s. (t ++ gap) ++ s) tail ∙ apart)

-- The text after the sign.
value_text :
    (t c : Text)
    → IsPlain t
    → IsBeside c
    → strip_inline_comment (strip (b' ' ∷ (t ++ beside c))) ≡ t
unfolding IsPlain IsBeside strip_inline_comment beside is_note starts_solid
value_text [] [] plain note = unfold strip rstrip lstrip is_space cut_comment in refl
value_text (d ∷ t) [] (first, trimmed, uncut) note =
    let solid = not-true (is_space d) first in
    let led = strip_led (b' ' ∷ []) d t (unfold all_space is_space in refl) solid in
    rw (append-nil t, led, trimmed_tail d t solid trimmed, uncut) trimmed
value_text [] (m ∷ r) plain (note, end) =
    let led =
      strip_led (b' ' ∷ b' ' ∷ b' ' ∷ []) m r (unfold all_space is_space in refl)
        (mark_solid m note) in
    let gone : cut_comment true (m ∷ rstrip r) ≡ [] = unfold cut_comment in rw note refl in
    rw (led, gone) (unfold rstrip in refl)
value_text (d ∷ t) (m ∷ r) (first, trimmed, uncut) (note, end) =
    let solid = not-true (is_space d) first in
    rw (strip-beside d t m r solid note end, cut_comment-append true (d ∷ t) m r uncut note)
      (rstrip-append_space (d ∷ t) (b' ' ∷ b' ' ∷ []) (unfold all_space is_space in refl) ∙ trimmed)

-- A line that begins with the first character of a key is nothing else.
module _ (a : ℕ) (s : Text) (solid : is_space a ≡ false) where
  headless_line : (a == b'[') ≡ false → section_match (a ∷ s) ≡ none
  unfolding section_match
  headless_line h = rw h refl

  new_line : is_continuation (a ∷ s) ≡ false
  unfolding is_continuation is_space
  new_line = ground (arith, solid)

  comment_line : is_mark a ≡ false → is_comment (a ∷ s) ≡ false
  unfolding is_comment
  comment_line h = rw (lstrip_solid a s solid, is_comment) h

  blank_line : is_blank (a ∷ s) ≡ false
  unfolding is_blank
  blank_line = rw (strip_led [] a s (unfold all_space in refl) solid) refl

module _ (t c : Text) (plain : IsPlain t) (comment : IsBeside c) where
  pub option_line-value_line : (k : Text) → IsKey k → option_line (value_line k t c) ≡ some (k, t)
  unfolding option_line value_line IsKey is_key no_sign option_match
  option_line-value_line [] (h, e) = cc h
  option_line-value_line (a ∷ k) (h, e) =
      let no_bracket : (a == b'[') ≡ false = ground (arith, h) in
      let solid : is_space a ≡ false = ground (arith, h) in
      let no_mark : is_mark a ≡ false = ground (arith, h) in
      let unsigned : no_sign (a ∷ k) ≡ true = unfold no_sign in ground (arith, h) in
      let no_sign : is_sign a ≡ false = ground (arith, h) in
      let s : Text = k ++ (b':' ∷ b' ' ∷ (t ++ beside c)) in
      let split = split_at_key (a ∷ k) (b' ' ∷ (t ++ beside c)) unsigned in
      let led = strip_led [] a k (unfold all_space in refl) solid ∙ trimmed_tail a k solid e in
      rw
        (
          headless_line a s solid no_bracket,
          new_line a s solid,
          comment_line a s solid no_mark,
          blank_line a s solid,
        )
        (rw (solid, no_sign, no_mark, split, led, value_text t c plain comment) refl)
