-- ===== src/Cfg/Parse.antt =====
-- `CfgDocument._parse` of src/mcu_updater/cfgdoc.py. The section and the option that are being read stay
-- apart until they end, and are then filed where no earlier one has their name.
use mcu_updater.Base.{
  ℕ, suc, Bool, false, not, ◌&&◌, ◌||◌, Option, none, some, is_some, List, [], ◌∷◌, ◌++◌, is_empty,
  if◌then◌else◌,
}
use mcu_updater.Base.Text.{Text, strip, text_eq}
use mcu_updater.Cfg.Line.{
  section_match, option_match, is_comment, is_blank, is_continuation, strip_inline_comment,
}

-- Option, with the half-open span of its lines
pub record Opt : Type 0 where
  pub key : Text
  pub start : ℕ
  pub end : ℕ
  pub value : Text

pub record Section : Type 0 where
  pub name : Text
  pub header : ℕ
  pub end : ℕ
  pub options : List Opt

-- `sections`, `duplicate_sections`, `current` and `current_option`
pub record Parser : Type 0 where
  pub sections : List Section
  pub duplicates : List Text
  pub current : Option Section
  pub reading : Option Opt

unfoldable pub find_option : Text → List Opt → Option Opt
find_option key [] = none
find_option key (o ∷ os) =
    let rest = find_option key os in if text_eq o.key key then some o else rest

unfoldable pub find_section : Text → List Section → Option Section
find_section name [] = none
find_section name (s ∷ ss) =
    let rest = find_section name ss in if text_eq s.name name then some s else rest

-- current.options.setdefault(key, current_option)
unfoldable pub file_option : Option Opt → List Opt → List Opt
file_option none os = os
file_option (some o) os = if is_some (find_option o.key os) then os else os ++ (o ∷ [])

abbrev with_option : Option Opt → Section → Section
with_option o s = record s { options = file_option o s.options }

-- current_option = None
unfoldable pub end_option : Parser → Parser
end_option p = record p {
  current = elim p.current [ none ↦ none | some s ↦ some (with_option p.reading s) ];
  reading = none;
}

unfoldable pub file_section : Option Section → List Section → List Section
file_section none ss = ss
file_section (some s) ss = if is_some (find_section s.name ss) then ss else ss ++ (s ∷ [])

-- the section above a header ends, and the option with it
unfoldable pub end_section : Parser → Parser
end_section p =
    let q = end_option p in
    record q { sections = file_section q.current q.sections; current = none }

unfoldable pub has_text : Text → List Text → Bool
has_text t [] = false
has_text t (u ∷ us) = text_eq u t || has_text t us

unfoldable pub note_duplicate : Text → List Section → List Text → List Text
note_duplicate name ss ds =
    if is_some (find_section name ss) && not (has_text name ds) then ds ++ (name ∷ []) else ds

-- a header
unfoldable pub begin_section : ℕ → Text → Parser → Parser
begin_section index name p =
    let q = end_section p in
    record q {
      duplicates = note_duplicate name q.sections q.duplicates;
      current = some (record { name = name; header = index; end = suc index; options = [] });
    }

-- a line that the option above it takes in; a comment adds nothing to the value
unfoldable pub extended : ℕ → Text → Opt → Opt
extended index line o =
    let item = strip_inline_comment (strip line) in
    if is_comment line || is_empty item
    then record o { end = suc index }
    else record o { end = suc index; value = o.value ++ (b'\n' ∷ item) }

unfoldable pub begin_option : ℕ → Text × Text → Parser → Parser
begin_option index (key, value) p = record (end_option p) {
  reading = some (record {
    key = strip key;
    start = index;
    end = suc index;
    value = strip_inline_comment (strip value);
  });
}

-- a line below a header, once the section reaches as far as the line
unfoldable pub read_body : ℕ → Text → Parser → Parser
read_body index line p =
    if is_some p.reading && is_continuation line
    then record p {
      reading = elim p.reading [ none ↦ none | some o ↦ some (extended index line o) ];
    }
    else if is_comment line || is_blank line
    then end_option p
    else elim (option_match line) [ none ↦ end_option p | some m ↦ begin_option index m p ]

unfoldable pub read_line : ℕ → Text → Parser → Parser
read_line index line p = elim (section_match line) [
  | some name ↦ begin_section index (strip name) p
  | none ↦ elim p.current [
    | none ↦ p
    | some s ↦ read_body index line (record p { current = some (record s { end = suc index }) })
  ]
]

unfoldable pub read_lines : ℕ → List Text → Parser → Parser
read_lines index [] p = p
read_lines index (l ∷ ls) p = read_lines (suc index) ls (read_line index l p)

abbrev pub start : Parser
start = record { sections = []; duplicates = []; current = none; reading = none }

unfoldable pub parse : List Text → Parser
parse ls = end_section (read_lines 0 ls start)
