-- ===== src/Cfg/Erased.antt =====
-- The parser of src/mcu_updater/cfgdoc.py, without the positions it records, reads what the lines say.
use mathlib.Core.Option
use mathlib.Core.List.{map-append}
use mcu_updater.Base.{
  ℕ, suc, ◌≡◌, refl, ap, ◌∙◌, ◌&&◌, ◌||◌, Option, none, some, is_some, List, [], ◌∷◌, map, is_empty,
  arith, Bool-cases, inl, inr,
}
use mcu_updater.Base.Text.{Text, strip}
use mcu_updater.Cfg.Line.{
  section_match, option_match, is_comment, is_blank, is_continuation, strip_inline_comment,
}
use mcu_updater.Cfg.Parse.{
  Opt, Section, Parser, find_option, find_section, file_option, end_option, file_section,
  end_section, begin_section, extended, begin_option, read_body, read_line, read_lines, parse,
  start,
}
use mcu_updater.Cfg.Render.{lookup}
use mcu_updater.Cfg.Table.{has, file_entry}
use mcu_updater.Cfg.Content.{
  Entries, Content, closed, left, extend, take_body, take_line, take_lines, nothing,
}

abbrev pub entry : Opt → Text × Text
entry o = (o.key, o.value)

abbrev pub entries : Section → Text × Entries
entries s = (s.name, map entry s.options)

-- The content of what the parser has read.
abbrev pub content : Parser → Content
content p = record {
  sections = map entries p.sections;
  current = Option.map entries p.current;
  reading = Option.map entry p.reading;
}

pub has-find_option : (k : Text) (os : List Opt) → has (map entry os) k ≡ is_some (find_option k os)
unfolding lookup find_option
has-find_option k [] = refl
has-find_option k (o ∷ os) = ground (arith, has-find_option k os)

pub has-find_section :
    (n : Text) (ss : List Section) → has (map entries ss) n ≡ is_some (find_section n ss)
unfolding lookup find_section
has-find_section n [] = refl
has-find_section n (s ∷ ss) = ground (arith, has-find_section n ss)

pub map-file_option :
    (o : Option Opt) (os : List Opt)
    → map entry (file_option o os) ≡ file_entry (Option.map entry o) (map entry os)
unfolding file_option file_entry
map-file_option none os = refl
map-file_option (some o) os = elim (Bool-cases (is_some (find_option o.key os))) [
  | inl h ↦ rw (has-find_option o.key os, h) refl
  | inr h ↦ rw (has-find_option o.key os, h) (map-append entry os (o ∷ []))
]

map-file_section :
    (s : Option Section) (ss : List Section)
    → map entries (file_section s ss) ≡ file_entry (Option.map entries s) (map entries ss)
unfolding file_section file_entry
map-file_section none ss = refl
map-file_section (some s) ss = elim (Bool-cases (is_some (find_section s.name ss))) [
  | inl h ↦ rw (has-find_section s.name ss, h) refl
  | inr h ↦ rw (has-find_section s.name ss, h) (map-append entries ss (s ∷ []))
]

closed_current :
    (s : Option Section) (o : Option Opt)
    → Option.map entries (elim s as (λ _. Option Section) [
      | none ↦ none
      | some s ↦ some (record s { options = file_option o s.options })
    ])
      ≡ (elim (Option.map entries s) as (λ _. Option (Text × Entries)) [
        | none ↦ none
        | some (n, es) ↦ some (n, file_entry (Option.map entry o) es)
      ])
closed_current none o = refl
closed_current (some s) o = rw (map-file_option o s.options) refl

content-end_option : (p : Parser) → content (end_option p) ≡ closed (content p)
unfolding end_option closed
content-end_option p = rw (closed_current p.current p.reading) refl

content-end_section : (p : Parser) → content (end_section p) ≡ left (content p)
unfolding end_section left end_option
content-end_section p =
    let q = end_option p in
    let e = content-end_option p in
    let filed = map-file_section q.current q.sections in rw (← e) (rw filed refl)

entry-extended :
    (index : ℕ) (line : Text) (o : Opt) → entry (extended index line o) ≡ extend line (entry o)
unfolding extended
entry-extended index line o =
    elim (Bool-cases (is_comment line || is_empty (strip_inline_comment (strip line)))) [
      | inl h ↦ rw h refl
      | inr h ↦ rw h refl
    ]

reading-extended :
    (index : ℕ) (line : Text) (o : Option Opt)
    → Option.map entry
        (elim o as (λ _. Option Opt) [ none ↦ none | some o ↦ some (extended index line o) ])
      ≡ Option.map (extend line) (Option.map entry o)
reading-extended index line none = refl
reading-extended index line (some o) = ap some (entry-extended index line o)

content-begin_option :
    (index : ℕ) (m : Text × Text) (p : Parser)
    → content (begin_option index m p)
      ≡ record (closed (content p)) { reading = some (strip m.0, strip_inline_comment (strip m.1)) }
unfolding begin_option
content-begin_option index (key, value) p = let e = content-end_option p in rw (← e) refl

is_some-map {ℓ κ} :
    {A : Type ℓ} {B : Type κ} (f : A → B) (o : Option A) → is_some (Option.map f o) ≡ is_some o
is_some-map f none = refl
is_some-map f (some a) = refl

content-read_body :
    (index : ℕ) (line : Text) (p : Parser)
    → content (read_body index line p) ≡ take_body line (content p)
unfolding read_body take_body
content-read_body index line p =
    let same = is_some-map entry p.reading in
    elim (Bool-cases (is_some p.reading && is_continuation line)) [
      | inl h ↦ rw (same, h) (rw (reading-extended index line p.reading) refl)
      | inr h ↦ elim (Bool-cases (is_comment line || is_blank line)) [
        | inl k ↦ rw (same, h) (rw k (content-end_option p))
        | inr k ↦ rw (same, h) (rw k (matched (option_match line)))
      ]
    ]
  where
    matched :
        (m : Option (Text × Text))
        → content
            (elim m as (λ _. Parser) [ none ↦ end_option p | some m ↦ begin_option index m p ])
          ≡ (elim m as (λ _. Content) [
            | none ↦ closed (content p)
            | some m ↦ record (closed (content p)) {
              reading = some (strip m.0, strip_inline_comment (strip m.1));
            }
          ])
    matched none = content-end_option p
    matched (some m) = content-begin_option index m p

content-begin_section :
    (index : ℕ) (name : Text) (p : Parser)
    → content (begin_section index name p) ≡ record (left (content p)) { current = some (name, []) }
unfolding begin_section
content-begin_section index name p =
    let e = content-end_section p in
    let none_read : (end_section p).reading ≡ none = unfold end_section end_option in refl in
    rw (← e) refl

pub content-read_line :
    (index : ℕ) (line : Text) (p : Parser)
    → content (read_line index line p) ≡ take_line line (content p)
unfolding read_line take_line
content-read_line index line p = headed (section_match line)
  where
    below :
        (s : Option Section)
        → p.current ≡ s
        → content (elim s as (λ _. Parser) [
          | none ↦ p
          | some s ↦
              read_body index line (record p { current = some (record s { end = suc index }) })
        ])
          ≡ (elim (Option.map entries s) as (λ _. Content) [
            | none ↦ content p
            | some s ↦ take_body line (content p)
          ])
    below none e = refl
    below (some s) e =
        content-read_body index line (record p { current = some (record s { end = suc index }) })
        ∙ ap (take_body line) (cc e)

    headed :
        (m : Option Text)
        → content (elim m as (λ _. Parser) [
          | some name ↦ begin_section index (strip name) p
          | none ↦ elim p.current as (λ _. Parser) [
            | none ↦ p
            | some s ↦
                read_body index line (record p { current = some (record s { end = suc index }) })
          ]
        ])
          ≡ (elim m as (λ _. Content) [
            | some name ↦ record (left (content p)) { current = some (strip name, []) }
            | none ↦ elim (content p).current as (λ _. Content) [
              | none ↦ content p
              | some s ↦ take_body line (content p)
            ]
          ])
    headed (some name) = content-begin_section index (strip name) p
    headed none = below p.current refl

pub content-read_lines :
    (ls : List Text) (index : ℕ) (p : Parser)
    → content (read_lines index ls p) ≡ take_lines ls (content p)
unfolding read_lines take_lines
content-read_lines [] index p = refl
content-read_lines (l ∷ ls) index p =
    content-read_lines ls (suc index) (read_line index l p)
    ∙ ap (take_lines ls) (content-read_line index l p)

-- The parser's sections are those of the content.
pub content-parse : (ls : List Text) → content (parse ls) ≡ left (take_lines ls nothing)
unfolding parse
content-parse ls =
    content-end_section (read_lines 0 ls start) ∙ ap left (content-read_lines ls 0 start)
