-- ===== src/Cfg/Continued.antt =====
-- Lines that continue an option, and a line that ends it.
use mcu_updater.Base.{
  ◌≡◌, refl, sym, ◌∙◌, Bool, true, false, not, ◌&&◌, ◌||◌, inl, inr, Option, none, some, List, [],
  ◌∷◌, ◌++◌, is_empty, arith, Bool-cases, Option-cases,
}
use mcu_updater.Base.Text.{Text, strip}
use mcu_updater.Cfg.Line.{section_match, is_comment, is_continuation, strip_inline_comment}
use mcu_updater.Cfg.Table.{file_entry}
use mcu_updater.Cfg.Content.{
  Entries, Content, closed, left, extend, take_body, take_line, take_lines, at, take_line_header,
  take_line_below,
}

unfoldable pub all_continue : List Text → Bool
all_continue [] = true
all_continue (l ∷ ls) = is_continuation l && all_continue ls

-- The option above ends here.
unfoldable pub ends : List Text → Bool
ends [] = true
ends (l ∷ ls) = not (is_continuation l)

pub take_lines-append :
    (ks ls : List Text) (c : Content) → take_lines (ks ++ ls) c ≡ take_lines ls (take_lines ks c)
unfolding take_lines
take_lines-append [] ls c = refl
take_lines-append (k ∷ ks) ls c = take_lines-append ks ls (take_line k c)

pub take_lines-cons :
    (l : Text) (ls : List Text) (c : Content)
    → take_lines (l ∷ ls) c ≡ take_lines ls (take_line l c)
unfolding take_lines
take_lines-cons l ls c = refl

pub continuation_no_section : (l : Text) → is_continuation l ≡ true → section_match l ≡ none
unfolding is_continuation section_match
continuation_no_section [] h = refl
continuation_no_section (c ∷ s) h = ground (arith, h)

module _ (n : Text) (ss : List (Text × Entries)) (es : Entries) where
  take_body_closed :
      (l : Text) (o : Option (Text × Text))
      → is_continuation l ≡ false
      → take_body l (at n ss es o) ≡ take_body l (at n ss (file_entry o es) none)
  unfolding take_body closed file_entry
  take_body_closed l none h = refl
  take_body_closed l (some e) h = rw h refl

  pub take_line_closed :
      (l : Text) (o : Option (Text × Text))
      → is_continuation l ≡ false
      → take_line l (at n ss es o) ≡ take_line l (at n ss (file_entry o es) none)
  unfolding left closed file_entry
  take_line_closed l o h =
      let before : Content = at n ss es o in
      let after : Content = at n ss (file_entry o es) none in
      elim (Option-cases (section_match l)) [
        | inr (name, e) ↦ take_line_header l before name e ∙ sym (take_line_header l after name e)
        | inl e ↦
            take_line_below l before (n, es) e refl
            ∙ take_body_closed l o h
            ∙ sym (take_line_below l after (n, file_entry o es) e refl)
      ]

  take_body_continued :
      (k l w : Text)
      → is_continuation l ≡ true
      → take_body l (at n ss es (some (k, w))) ≡ at n ss es (some (extend l (k, w)))
  unfolding take_body
  take_body_continued k l w h = rw h refl

  extend_key : (l k w : Text) → (u : Text) × (extend l (k, w) ≡ (k, u))
  extend_key l k w = elim (Bool-cases (is_comment l || is_empty (strip_inline_comment (strip l)))) [
    | inl h ↦ (w, rw h refl)
    | inr h ↦ (w ++ (b'\n' ∷ strip_inline_comment (strip l)), rw h refl)
  ]

  pub take_lines_continued :
      (k : Text) (ls : List Text) (w : Text)
      → all_continue ls ≡ true
      → (u : Text) × (take_lines ls (at n ss es (some (k, w))) ≡ at n ss es (some (k, u)))
  unfolding take_lines all_continue
  take_lines_continued k [] w h = (w, refl)
  take_lines_continued k (l ∷ ls) w h =
      let this : is_continuation l ≡ true = ground (arith, h) in
      let others : all_continue ls ≡ true = ground (arith, h) in
      let headless = continuation_no_section l this in
      let (x, grown) = extend_key l k w in
      let (u, later) = take_lines_continued k ls x others in
      (
        u,
        rw
            (
              take_line_below l (at n ss es (some (k, w))) (n, es) headless refl,
              take_body_continued k l w this,
              grown,
            )
            later,
      )
