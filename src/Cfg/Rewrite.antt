-- ===== src/Cfg/Rewrite.antt =====
-- The lines of one option rewritten: what the other lines say is not touched by it.
use mcu_updater.Base.{
  ◌≡◌, refl, ap, ◌∙◌, true, false, inr, Option, none, some, List, [], ◌∷◌, ◌++◌, arith,
}
use mcu_updater.Base.Text.{Text, text_eq_iff}
use mcu_updater.Cfg.Line.{is_continuation}
use mcu_updater.Cfg.Render.{lookup}
use mcu_updater.Cfg.Table.{has, file_entry, patch, patch_absent, patch-append, has-append}
use mcu_updater.Cfg.Content.{Entries, Content, closed, left, take_line, take_lines, nothing, at}
use mcu_updater.Cfg.Patch.{
  write, Patched, in_current, IsCurrent, Patched-take_lines, Patched-take_line, Patched-left,
}
use mcu_updater.Cfg.Continued.{
  all_continue, ends, take_lines-append, take_lines-cons, take_line_closed, take_lines_continued,
}
use mcu_updater.Cfg.Beginning.{option_line, take_line_option}

module _ (n k v w : Text) (ss : List (Text × Entries)) (es : Entries) (outside : has ss n ≡ false)
    (fresh : has es k ≡ false) where
  filed : Text → Content
  filed u = at n ss (es ++ ((k, u) ∷ [])) none

  Patched-filed : Patched n k v (filed w) (filed v)
  unfolding Patched in_current IsCurrent patch lookup filed
  Patched-filed =
      let appended = patch-append k (λ _. v) es ((k, w) ∷ []) in
      let same = (text_eq_iff k k).1 refl in
      inr (
        rw (appended, patch_absent k (λ _. v) es fresh, same) refl,
        (
          outside,
          (es ++ ((k, w) ∷ []), refl, has-append es ((k, w) ∷ []) k ∙ rw (same, fresh) refl),
        ),
      )

  reading-filed : (u : Text) → at n ss (file_entry (some (k, u)) es) none ≡ filed u
  unfolding filed file_entry
  reading-filed u = rw fresh refl

  left-filed : (u : Text) → left (at n ss es (some (k, u))) ≡ left (filed u)
  unfolding filed left closed file_entry
  left-filed u = rw fresh refl

  pub sections_rewritten :
      (ls : List Text)
      → ends ls ≡ true
      → (left (take_lines ls (at n ss es (some (k, v))))).sections
        ≡ patch n (write n k v) (left (take_lines ls (at n ss es (some (k, w))))).sections
  unfolding ends take_lines
  sections_rewritten [] h =
      rw (left-filed v, left-filed w) (Patched-left n k v (filed w) (filed v) Patched-filed)
  sections_rewritten (l ∷ ls) h =
      let new : is_continuation l ≡ false = ground (arith, h) in
      let moved : (u : Text) → take_line l (at n ss es (some (k, u))) ≡ take_line l (filed u) =
        λ u. take_line_closed n ss es l (some (k, u)) new ∙ ap (take_line l) (reading-filed u) in
      rw (moved v, moved w)
        (Patched-left n k v (take_lines ls (take_line l (filed w)))
          (take_lines ls (take_line l (filed v)))
          (Patched-take_lines n k v ls (take_line l (filed w)) (take_line l (filed v))
            (Patched-take_line n k v l (filed w) (filed v) Patched-filed)))

module _ (n k v w : Text) (before conts after : List Text) (head new : Text)
    (ss : List (Text × Entries)) (es : Entries) (o : Option (Text × Text))
    (here : take_lines before nothing ≡ at n ss es o) (outside : has ss n ≡ false)
    (fresh : has (file_entry o es) k ≡ false) (old_line : option_line head ≡ some (k, w))
    (new_line : option_line new ≡ some (k, v)) (continued : all_continue conts ≡ true)
    (ended : ends after ≡ true) where
  pub lines_rewritten :
      (left (take_lines (before ++ (new ∷ after)) nothing)).sections
      ≡ patch n
          (write n k v)
          (left (take_lines (before ++ (head ∷ (conts ++ after))) nothing)).sections
  lines_rewritten =
      let (u, grown) = take_lines_continued n ss (file_entry o es) k conts w continued in
      rw
        (
          take_lines-append before (new ∷ after) nothing,
          take_lines-append before (head ∷ (conts ++ after)) nothing,
          here,
        )
        (rw
          (
            take_lines-cons new after (at n ss es o),
            take_lines-cons head (conts ++ after) (at n ss es o),
            take_line_option k v new new_line n ss es o,
            take_line_option k w head old_line n ss es o,
          )
          (rw (take_lines-append conts after (at n ss (file_entry o es) (some (k, w))), grown)
            (sections_rewritten n k v u ss (file_entry o es) outside fresh after ended)))
