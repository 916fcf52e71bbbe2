-- ===== src/Cfg/Doc.antt =====
-- `CfgDocument` of src/mcu_updater/cfgdoc.py: reading and editing. The sections are those of the lines,
-- since every edit parses them again.
use mcu_updater.Base.{
  map, ℕ, zero, suc, ◌-◌, Bool, true, false, ◌&&◌, ◌||◌, Option, none, some, is_some, List, [], ◌∷◌,
  ◌++◌, length, take, drop, get_or, is_empty, ltb, ◌==◌, if◌then◌else◌,
}
use mcu_updater.Base.Text.{Text, is_space, strip, lower, codes, text_eq, starts_with}
use mcu_updater.Base.Result.{Result, ok, err, ◌>>=◌}
use mcu_updater.Cfg.Line.{is_blank, splitlines}
use mcu_updater.Cfg.Parse.{Section, find_option, find_section, has_text, parse}
use mcu_updater.Cfg.Render.{Value, render_option, stripped, after_first}

pub record Doc : Type 0 where
  pub lines : List Text
  pub frozen : Bool

-- CfgDocument(text)
unfoldable pub of_text : Text → Doc
of_text t = record { lines = splitlines t; frozen = false }

-- FrozenDocumentError, and the KeyError of a section that was added under a name that no header has
pub data CfgError : Type 0 where
  frozen_document key_error : CfgError

abbrev pub sections : Doc → List Section
sections doc = (parse doc.lines).sections

unfoldable pub get_in : List Section → Text → Text → Option Text
get_in ss section key = elim (find_section section ss) [
  | none ↦ none
  | some s ↦ elim (find_option key s.options) [ none ↦ none | some o ↦ some o.value ]
]

-- get, with `none` for the default
unfoldable pub get : Doc → Text → Text → Option Text
get doc section key = get_in (sections doc) section key

-- section_names, with the word that the names start with
unfoldable pub is_under : Option Text → Text → Bool
is_under none name = true
is_under (some word) name = text_eq name word || starts_with name (word ++ (b' ' ∷ []))

unfoldable pub names_under : Option Text → List Section → List Text
names_under prefix [] = []
names_under prefix (s ∷ ss) =
    let rest = names_under prefix ss in if is_under prefix s.name then s.name ∷ rest else rest

unfoldable pub section_names : Doc → Option Text → List Text
section_names doc prefix = names_under prefix (sections doc)

unfoldable pub get_list : Doc → Text → Text → List Text
get_list doc section key = elim (get doc section key) [
  | none ↦ []
  | some raw ↦ stripped (splitlines raw)
]

-- re.split(r"[,\s]+", raw), without the empty parts
abbrev add_to_word : ℕ → List Text → List Text
add_to_word c [] = (c ∷ []) ∷ []
add_to_word c (w ∷ ws) = (c ∷ w) ∷ ws

unfoldable pub parts_from : Text → List Text
parts_from [] = [] ∷ []
parts_from (c ∷ s) =
    let rest = parts_from s in if c == b',' || is_space c then [] ∷ rest else add_to_word c rest

unfoldable pub not_empty : List Text → List Text
not_empty [] = []
not_empty (t ∷ ts) = let rest = not_empty ts in if is_empty t then rest else t ∷ rest

unfoldable pub get_csv : Doc → Text → Text → Option (List Text)
get_csv doc section key = elim (get doc section key) [
  | none ↦ none
  | some raw ↦ some (not_empty (parts_from raw))
]

unfoldable pub has_section : Doc → Text → Bool
has_section doc name = is_some (find_section name (sections doc))

-- options: the keys of a section
unfoldable pub option_names : Doc → Text → List Text
option_names doc section = elim (find_section section (sections doc)) [
  | none ↦ []
  | some s ↦ map (λ o. o.key) s.options
]

unfoldable pub freeze : Doc → Doc
freeze doc = record doc { frozen = true }

-- parse_bool: `none` is Python's None
unfoldable pub parse_bool : Option Text → Option Bool → Option Bool
parse_bool none default = default
parse_bool (some raw) default =
    let value = lower (strip raw) in
    if has_text value (codes "true" ∷ codes "yes" ∷ codes "on" ∷ codes "1" ∷ [])
    then some true
    else if has_text value (codes "false" ∷ codes "no" ∷ codes "off" ∷ codes "0" ∷ [])
    then some false
    else none

-- self.lines[start:end] = replacement
unfoldable pub spliced : ℕ → ℕ → List Text → List Text → List Text
spliced start end replacement lines = take start lines ++ (replacement ++ drop end lines)

unfoldable pub splice : ℕ → ℕ → List Text → Doc → Result CfgError Doc
splice start end replacement doc =
    if doc.frozen
    then err frozen_document
    else ok (record doc { lines = spliced start end replacement doc.lines })

abbrev last_line_is_blank : List Text → Bool
last_line_is_blank [] = true
last_line_is_blank (l ∷ ls) = is_blank (get_or (l ∷ ls) (length ls) [])

abbrev pub header_line : Text → Text
header_line name = b'[' ∷ (name ++ (b']' ∷ []))

unfoldable pub add_section : Text → Doc → Result CfgError Doc
add_section name doc =
    if is_some (find_section name (sections doc))
    then ok doc
    else splice (length doc.lines) (length doc.lines)
        (if last_line_is_blank doc.lines then header_line name ∷ [] else [] ∷ header_line name ∷ [])
        doc

-- `while insert_at > sec.header + 1 and _is_blank(self.lines[insert_at - 1])`, with the lines left
unfoldable pub before_blanks : List Text → ℕ → ℕ → ℕ
before_blanks lines low zero = 0
before_blanks lines low (suc n) =
    let above = before_blanks lines low n in
    if ltb low (suc n) && is_blank (get_or lines n []) then above else suc n

unfoldable pub set_in : Section → Text → Value → Doc → Result CfgError Doc
set_in s key value doc = elim (find_option key s.options) [
  | some o ↦
      splice o.start o.end
        (render_option key value (take (o.end - o.start) (drop o.start doc.lines))) doc
  | none ↦
      let at = before_blanks doc.lines (suc s.header) s.end in
      splice at at (render_option key value []) doc
]

abbrev set_found : Option Section → Text → Value → Doc → Result CfgError Doc
set_found none key value doc = err key_error
set_found (some s) key value doc = set_in s key value doc

unfoldable pub set : Text → Text → Value → Doc → Result CfgError Doc
set section key value doc = elim (find_section section (sections doc)) [
  | some s ↦ set_in s key value doc
  | none ↦ do
    added ← add_section section doc
    set_found (find_section section (sections added)) key value added
]

-- remove_option: whether there was one
unfoldable pub remove_option : Text → Text → Doc → Result CfgError (Bool × Doc)
remove_option section key doc = elim (find_section section (sections doc)) [
  | none ↦ ok (false, doc)
  | some s ↦ elim (find_option key s.options) [
    | none ↦ ok (false, doc)
    | some o ↦ do cut ← splice o.start o.end [] doc; ok (true, cut)
  ]
]

-- what comes after the first "]" of a header
abbrev header_suffix : Text → Text
header_suffix line = elim (after_first b']' line) [ none ↦ [] | some rest ↦ rest ]

unfoldable pub rename_section : Text → Text → Doc → Result CfgError (Bool × Doc)
rename_section old new doc = elim (find_section old (sections doc)) [
  | none ↦ ok (false, doc)
  | some s ↦ if is_some (find_section new (sections doc)) then ok (false, doc) else do
    renamed ←
        splice s.header (suc s.header)
          ((header_line new ++ header_suffix (get_or doc.lines s.header [])) ∷ []) doc
    ok (true, renamed)
]

unfoldable pub remove_section : Text → Doc → Result CfgError (Bool × Doc)
remove_section name doc = elim (find_section name (sections doc)) [
  | none ↦ ok (false, doc)
  | some s ↦
      let end =
        if ltb s.end (length doc.lines) && is_blank (get_or doc.lines s.end [])
        then suc s.end
        else s.end in
      do cut ← splice s.header end [] doc; ok (true, cut)
]

-- "\n".join(lines)
unfoldable pub join_lines : List Text → Text
join_lines [] = []
join_lines (l ∷ []) = l
join_lines (l ∷ k ∷ ls) = l ++ (b'\n' ∷ join_lines (k ∷ ls))

unfoldable pub ends_with_newline : Text → Bool
ends_with_newline [] = false
ends_with_newline (c ∷ []) = c == b'\n'
ends_with_newline (c ∷ d ∷ s) = ends_with_newline (d ∷ s)

unfoldable pub render : Doc → Text
render doc =
    let t = join_lines doc.lines in
    if ends_with_newline t || is_empty t then t else t ++ (b'\n' ∷ [])
