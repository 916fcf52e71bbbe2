-- ===== src/Cfg/Patch.antt =====
-- A value that is changed in one option stays so, whatever the lines below it say.
use mathlib.Core.Option
use mcu_updater.Base.{
  ◌≡◌, refl, ap, ◌∙◌, true, false, ◌&&◌, ◌||◌, ◌⊎◌, inl, inr, Option, some, is_some, List, [], ◌∷◌,
  Bool-cases, Option-cases,
}
use mcu_updater.Base.Text.{Text, strip, text_eq_iff}
use mcu_updater.Cfg.Line.{
  section_match, option_match, is_comment, is_blank, is_continuation, strip_inline_comment,
}
use mcu_updater.Cfg.Render.{lookup}
use mcu_updater.Cfg.Table.{
  has, file_entry, patch, patch-append, patch_absent, file_entry-patch, has-append, has-file_entry,
}
use mcu_updater.Cfg.Content.{
  Entries, Content, closed, left, take_body, take_line, take_lines, at, take_line_header,
  take_line_below, take_line_preamble,
}

module _ (n k v : Text) where
  abbrev pub write : Entries → Entries
  write = patch k (λ _. v)

  -- The section is filed, or it is the current one; it has the option in either case.
  unfoldable pub IsFiled : Content → Type 0
  IsFiled c = has c.sections n ≡ true

  unfoldable pub IsCurrent : Content → Type 0
  IsCurrent c =
      (has c.sections n ≡ false) × ((es : Entries) × (c.current ≡ some (n, es)) × (has es k ≡ true))

  -- The same content with the value in place.
  unfoldable pub in_sections : Content → Content
  in_sections c = record c { sections = patch n write c.sections }

  unfoldable pub in_current : Content → Content
  in_current c = record c { current = Option.map (λ s. (s.0, write s.1)) c.current }

  module _ (c : Content) (f : IsFiled c) where
    closed-in_sections : closed (in_sections c) ≡ in_sections (closed c)
    unfolding closed in_sections
    closed-in_sections = refl

    left-in_sections : left (in_sections c) ≡ in_sections (left c)
    unfolding left closed in_sections IsFiled
    left-in_sections = rw (file_entry-patch n write (closed c).current c.sections f) refl

    IsFiled-left : IsFiled (left c)
    unfolding left closed IsFiled
    IsFiled-left = has-file_entry (closed c).current c.sections n f

    body-in_sections :
        (l : Text)
        → (take_body l (in_sections c) ≡ in_sections (take_body l c)) × IsFiled (take_body l c)
    unfolding take_body in_sections IsFiled closed
    body-in_sections l = elim (Bool-cases (is_some c.reading && is_continuation l)) [
      | inl h ↦ rw h (refl, f)
      | inr h ↦ elim (Bool-cases (is_comment l || is_blank l)) [
        | inl b ↦ rw (h, b) (refl, f)
        | inr b ↦ elim (Option-cases (option_match l)) [
          | inl m ↦ rw (h, b) (rw m (refl, f))
          | inr (m, e) ↦ rw (h, b) (rw e (refl, f))
        ]
      ]
    ]

    line-in_sections :
        (l : Text)
        → (take_line l (in_sections c) ≡ in_sections (take_line l c)) × IsFiled (take_line l c)
    unfolding in_sections
    line-in_sections l = elim (Option-cases (section_match l)) [
      | inr (name, e) ↦
          rw (take_line_header l c name e, take_line_header l (in_sections c) name e)
            (
              ap {A = Content} (λ d. record d { current = some (strip name, []) }) left-in_sections,
              unfold IsFiled in IsFiled-left,
            )
      | inl e ↦ elim (Option-cases c.current) [
        | inl out ↦
            rw (take_line_preamble l c e out, take_line_preamble l (in_sections c) e out) (refl, f)
        | inr (s, inside) ↦
            rw (take_line_below l c s e inside, take_line_below l (in_sections c) s e inside)
              (body-in_sections l)
      ]
    ]

  -- The section is still being read.
  module _ (ss : List (Text × Entries)) (es : Entries) (o : Option (Text × Text))
      (absent : has ss n ≡ false) (there : has es k ≡ true) where
    abbrev here : Content
    here = at n ss es o

    closed-in_current : closed (in_current here) ≡ in_current (closed here)
    unfolding closed in_current
    closed-in_current = rw (file_entry-patch k (λ _. v) o es there) refl

    IsCurrent-closed : IsCurrent (closed here)
    unfolding closed IsCurrent
    IsCurrent-closed = (absent, (file_entry o es, refl, has-file_entry o es k there))

    left-in_current : left (in_current here) ≡ in_sections (left here)
    unfolding left closed in_current in_sections file_entry patch
    left-in_current =
        let appended = patch-append n write ss ((n, file_entry o es) ∷ []) in
        rw (file_entry-patch k (λ _. v) o es there, absent)
          (rw (appended, patch_absent n write ss absent, (text_eq_iff n n).1 refl) refl)

    IsFiled-left_current : IsFiled (left here)
    unfolding left closed IsFiled file_entry lookup
    IsFiled-left_current = rw absent (
        has-append ss ((n, file_entry o es) ∷ []) n
        ∙ rw (absent, lookup) (rw ((text_eq_iff n n).1 refl) refl))

    body-in_current :
        (l : Text)
        → (take_body l (in_current here) ≡ in_current (take_body l here))
          × IsCurrent (take_body l here)
    unfolding take_body in_current
    body-in_current l =
        let ended = closed-in_current in
        let still = IsCurrent-closed in
        elim (Bool-cases (is_some o && is_continuation l)) [
          | inl h ↦ rw h (unfold IsCurrent in (refl, (absent, (es, refl, there))))
          | inr h ↦ elim (Bool-cases (is_comment l || is_blank l)) [
            | inl b ↦ rw (h, b) (ended, still)
            | inr b ↦ elim (Option-cases (option_match l)) [
              | inl m ↦ rw (h, b) (rw m (ended, still))
              | inr (m, e) ↦
                  rw (h, b)
                    (rw e (
                      ap {A = Content}
                          (λ d. record d {
                            reading = some (strip m.0, strip_inline_comment (strip m.1));
                          })
                          ended,
                      unfold IsCurrent closed in
                          (absent, (file_entry o es, refl, has-file_entry o es k there)),
                    ))
            ]
          ]
        ]

  -- The two contents differ in the value, and in nothing else.
  unfoldable pub Patched : Content → Content → Type 0
  Patched c d = ((d ≡ in_sections c) × IsFiled c) ⊎ ((d ≡ in_current c) × IsCurrent c)

  Patched-line_current :
      (l : Text) (ss : List (Text × Entries)) (es : Entries) (o : Option (Text × Text))
      → has ss n ≡ false
      → has es k ≡ true
      → Patched (take_line l (at n ss es o)) (take_line l (in_current (at n ss es o)))
  Patched-line_current l ss es o absent there =
      let c : Content = at n ss es o in
      elim (Option-cases (section_match l)) [
        | inr (name, e) ↦
            rw (take_line_header l c name e, take_line_header l (in_current c) name e)
              (unfold Patched in
                inl (
                  ap {A = Content} (λ d. record d { current = some (strip name, []) })
                        (left-in_current ss es o absent there)
                      ∙ unfold in_sections in refl,
                  unfold IsFiled in IsFiled-left_current ss es o absent there,
                ))
        | inl e ↦
            rw
              (
                take_line_below l c (n, es) e refl,
                take_line_below l (in_current c) (n, write es) e (unfold in_current in refl),
              )
              (unfold Patched in inr (body-in_current ss es o absent there l))
      ]

  pub Patched-take_line :
      (l : Text) (c d : Content) → Patched c d → Patched (take_line l c) (take_line l d)
  unfolding Patched IsCurrent
  Patched-take_line l c d (inl (e, f)) = rw e (inl (line-in_sections c f l))
  Patched-take_line l c d (inr (e, (absent, (es, current, there)))) =
      let same : c ≡ at n c.sections es c.reading = rw (← current) refl in
      rw (e, same) (unfold Patched in Patched-line_current l c.sections es c.reading absent there)

  pub Patched-take_lines :
      (ls : List Text) (c d : Content) → Patched c d → Patched (take_lines ls c) (take_lines ls d)
  unfolding take_lines
  Patched-take_lines [] c d p = p
  Patched-take_lines (l ∷ ls) c d p =
      Patched-take_lines ls (take_line l c) (take_line l d) (Patched-take_line l c d p)

  pub Patched-left :
      (c d : Content) → Patched c d → (left d).sections ≡ patch n write (left c).sections
  unfolding Patched IsCurrent in_sections
  Patched-left c d (inl (e, f)) = rw e (ap {A = Content} (λ b. b.sections) (left-in_sections c f))
  Patched-left c d (inr (e, (absent, (es, current, there)))) =
      let same : c ≡ at n c.sections es c.reading = rw (← current) refl in
      let moved = left-in_current c.sections es c.reading absent there in
      rw (e, same) (ap {A = Content} (λ b. b.sections) moved)
