-- ===== src/Cfg/Beginning.antt =====
-- A line that begins an option.
use mathlib.Core.Option
use mcu_updater.Base.{
  ◌≡◌, refl, ap, ◌∙◌, false, ◌&&◌, ◌||◌, Option, none, some, is_some, List, if◌then◌else◌, arith,
}
use mcu_updater.Base.Text.{Text, strip}
use mcu_updater.Cfg.Line.{
  section_match, option_match, is_comment, is_blank, is_continuation, strip_inline_comment,
}
use mcu_updater.Cfg.Table.{file_entry}
use mcu_updater.Cfg.Content.{Entries, Content, closed, take_body, take_line, at, take_line_below}

abbrev begun : Text × Text → Text × Text
begun m = (strip m.0, strip_inline_comment (strip m.1))

-- The key and the value of a line that begins an option.
unfoldable pub option_line : Text → Option (Text × Text)
option_line l =
    if is_some (section_match l) || is_continuation l || is_comment l || is_blank l
    then none
    else Option.map begun (option_match l)

is_some-none {ℓ} : {A : Type ℓ} (o : Option A) → is_some o ≡ false → o ≡ none
is_some-none none h = refl
is_some-none (some a) h = cc h

module _ (k v : Text) (l : Text) (fits : option_line l ≡ some (k, v)) where
  pub option_line_headless : section_match l ≡ none
  unfolding option_line
  option_line_headless = is_some-none (section_match l) (ground (arith, fits))

  pub option_line_new : is_continuation l ≡ false
  unfolding option_line
  option_line_new = ground (arith, fits)

  option_line_text : (is_comment l || is_blank l) ≡ false
  unfolding option_line
  option_line_text = ground (arith, fits)

  option_line_match : Option.map begun (option_match l) ≡ some (k, v)
  unfolding option_line
  option_line_match =
      let headless = option_line_headless in
      let new = option_line_new in
      let written = option_line_text in ground (arith, fits, headless, new, written)

  pub take_body_option :
      (n : Text) (ss : List (Text × Entries)) (es : Entries) (o : Option (Text × Text))
      → take_body l (at n ss es o) ≡ at n ss (file_entry o es) (some (k, v))
  unfolding take_body closed
  take_body_option n ss es o =
      let apart : (is_some o && is_continuation l) ≡ false = rw (option_line_new) (ground arith) in
      rw (apart, option_line_text) (matched (option_match l) option_line_match)
    where
      matched :
          (m : Option (Text × Text))
          → Option.map begun m ≡ some (k, v)
          → (elim m as (λ _. Content) [
            | none ↦ at n ss (file_entry o es) none
            | some m ↦ at n ss (file_entry o es) (some (begun m))
          ])
            ≡ at n ss (file_entry o es) (some (k, v))
      matched none e = cc e
      matched (some m) e = ap (at n ss (file_entry o es)) e

  pub take_line_option :
      (n : Text) (ss : List (Text × Entries)) (es : Entries) (o : Option (Text × Text))
      → take_line l (at n ss es o) ≡ at n ss (file_entry o es) (some (k, v))
  take_line_option n ss es o =
      take_line_below l (at n ss es o) (n, es) option_line_headless refl
      ∙ take_body_option n ss es o
