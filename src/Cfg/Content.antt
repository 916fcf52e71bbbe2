-- ===== src/Cfg/Content.antt =====
-- What a configuration says, without the positions: the sections' options and their values, and how each
-- line adds to them (src/mcu_updater/cfgdoc.py).
use mathlib.Core.Option
use mcu_updater.Base.{
  ◌≡◌, refl, ◌&&◌, ◌||◌, Option, none, some, is_some, List, [], ◌∷◌, ◌++◌, is_empty, if◌then◌else◌,
}
use mcu_updater.Base.Text.{Text, strip}
use mcu_updater.Cfg.Line.{
  section_match, option_match, is_comment, is_blank, is_continuation, strip_inline_comment,
}
use mcu_updater.Cfg.Table.{file_entry}

abbrev pub Entries : Type 0
Entries = List (Text × Text)

pub record Content : Type 0 where
  pub sections : List (Text × Entries)
  pub current : Option (Text × Entries)
  pub reading : Option (Text × Text)

unfoldable pub closed : Content → Content
closed c = record {
  sections = c.sections;
  current = elim c.current [ none ↦ none | some (n, es) ↦ some (n, file_entry c.reading es) ];
  reading = none;
}

unfoldable pub left : Content → Content
left c =
    let d = closed c in
    record { sections = file_entry d.current d.sections; current = none; reading = none }

abbrev pub extend : Text → Text × Text → Text × Text
extend line e =
    let item = strip_inline_comment (strip line) in
    if is_comment line || is_empty item then e else (e.0, e.1 ++ (b'\n' ∷ item))

unfoldable pub take_body : Text → Content → Content
take_body line c =
    if is_some c.reading && is_continuation line
    then record c { reading = Option.map (extend line) c.reading }
    else if is_comment line || is_blank line
    then closed c
    else elim (option_match line) [
      | none ↦ closed c
      | some m ↦ record (closed c) { reading = some (strip m.0, strip_inline_comment (strip m.1)) }
    ]

unfoldable pub take_line : Text → Content → Content
take_line line c = elim (section_match line) [
  | some name ↦ record (left c) { current = some (strip name, []) }
  | none ↦ elim c.current [ none ↦ c | some s ↦ take_body line c ]
]

unfoldable pub take_lines : List Text → Content → Content
take_lines [] c = c
take_lines (l ∷ ls) c = take_lines ls (take_line l c)

abbrev pub nothing : Content
nothing = record { sections = []; current = none; reading = none }

-- Inside the section of a name.
abbrev pub at : Text → List (Text × Entries) → Entries → Option (Text × Text) → Content
at n ss es o = record { sections = ss; current = some (n, es); reading = o }

-- The three kinds of line.
module _ (l : Text) (c : Content) where
  pub take_line_header :
      (name : Text)
      → section_match l ≡ some name
      → take_line l c ≡ record (left c) { current = some (strip name, []) }
  unfolding take_line
  take_line_header name e = rw (e, take_line) refl

  module _ (s : Text × Entries) (e : section_match l ≡ none) (f : c.current ≡ some s) where
    pub take_line_below : take_line l c ≡ take_body l c
    unfolding take_line
    take_line_below = headed (section_match l) e
      where
        below :
            (o : Option (Text × Entries))
            → o ≡ some s
            → (elim o as (λ _. Content) [ none ↦ c | some s ↦ take_body l c ]) ≡ take_body l c
        below none h = cc h
        below (some t) h = refl

        headed :
            (m : Option Text)
            → m ≡ none
            → (elim m as (λ _. Content) [
              | some name ↦ record (left c) { current = some (strip name, []) }
              | none ↦ elim c.current as (λ _. Content) [ none ↦ c | some s ↦ take_body l c ]
            ])
              ≡ take_body l c
        headed none h = below c.current f
        headed (some name) h = cc h

  module _ (e : section_match l ≡ none) (f : c.current ≡ none) where
    pub take_line_preamble : take_line l c ≡ c
    unfolding take_line
    take_line_preamble = headed (section_match l) e
      where
        below :
            (o : Option (Text × Entries))
            → o ≡ none
            → (elim o as (λ _. Content) [ none ↦ c | some s ↦ take_body l c ]) ≡ c
        below none h = refl
        below (some t) h = cc h

        headed :
            (m : Option Text)
            → m ≡ none
            → (elim m as (λ _. Content) [
              | some name ↦ record (left c) { current = some (strip name, []) }
              | none ↦ elim c.current as (λ _. Content) [ none ↦ c | some s ↦ take_body l c ]
            ])
              ≡ c
        headed none h = below c.current f
        headed (some name) h = cc h
