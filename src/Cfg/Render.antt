-- ===== src/Cfg/Render.antt =====
-- `CfgDocument._decoration` and `_render` of src/mcu_updater/cfgdoc.py: the lines of an option that is
-- written, with the comments that its old lines carried.
use mcu_updater.Base.{
  ℕ, Bool, false, ◌||◌, Option, none, some, List, [], ◌∷◌, ◌++◌, map, length, drop, is_empty, ◌==◌,
  if◌then◌else◌,
}
use mcu_updater.Base.Text.{Text, strip, text_eq}
use mcu_updater.Cfg.Line.{is_comment, strip_inline_comment, splitlines}

-- A value that is written: a list, or a text
pub data Value : Type 0 where
  listed : List Text → Value
  single : Text → Value

-- `inline`, `before` and `pending`; in the two dicts the latest entry comes first
pub record Decoration : Type 0 where
  pub inline : List (Text × Text)
  pub before : List (Text × List Text)
  pub pending : List Text

unfoldable pub lookup {ℓ} : {A : Type ℓ} → List (Text × A) → Text → Option A
lookup [] k = none
lookup ((j, a) ∷ d) k = let rest = lookup d k in if text_eq j k then some a else rest

abbrev no_decoration : Decoration
no_decoration = record { inline = []; before = []; pending = [] }

-- the comment beside an item, and the comments above it
unfoldable pub decorate_item : Text → Text → Decoration → Decoration
decorate_item item comment d = record {
  inline = if is_empty comment then d.inline else (item, comment) ∷ d.inline;
  before = if is_empty d.pending then d.before else (item, d.pending) ∷ d.before;
  pending = [];
}

-- the body of the loop over `existing[1:]`
unfoldable pub decorate_line : Text → Decoration → Decoration
decorate_line raw d =
    let t = strip raw in
    let item = strip_inline_comment t in
    if is_empty t
    then d
    else if is_comment raw
    then record d { pending = d.pending ++ (t ∷ []) }
    else if is_empty item
    then d
    else decorate_item item (strip (drop (length item) t)) d

unfoldable pub decorate_lines : List Text → Decoration → Decoration
decorate_lines [] d = d
decorate_lines (raw ∷ raws) d = decorate_lines raws (decorate_line raw d)

-- `existing` is empty where there are no old lines
unfoldable pub decoration : List Text → Decoration
decoration existing = decorate_lines (drop 1 existing) no_decoration

abbrev pub indent : Text
indent = b' ' ∷ b' ' ∷ b' ' ∷ b' ' ∷ []

-- f"  {comment}" if comment else ""
unfoldable pub beside : Text → Text
beside [] = []
beside (c ∷ comment) = b' ' ∷ b' ' ∷ c ∷ comment

abbrev pub or_nothing : Option (List Text) → List Text
or_nothing none = []
or_nothing (some ts) = ts

abbrev pub or_empty : Option Text → Text
or_empty none = []
or_empty (some t) = t

abbrev indented : Text → Text
indented t = indent ++ t

unfoldable pub item_lines : Decoration → List Text → List Text
item_lines d [] = map indented d.pending
item_lines d (item ∷ items) =
    map indented (or_nothing (lookup d.before item))
    ++ ((indented item ++ beside (or_empty (lookup d.inline item))) ∷ item_lines d items)

-- the inner function `block`; with no items it is the key alone
unfoldable pub block : Text → Decoration → List Text → List Text
block key d [] = (key ++ (b':' ∷ [])) ∷ []
block key d (item ∷ items) = (key ++ (b':' ∷ [])) ∷ item_lines d (item ∷ items)

-- [p.strip() for p in ... if p.strip()]
unfoldable pub stripped : List Text → List Text
stripped [] = []
stripped (t ∷ ts) = let rest = stripped ts in if is_empty (strip t) then rest else strip t ∷ rest

-- [str(v) for v in value if str(v).strip()]
unfoldable pub not_blank : List Text → List Text
not_blank [] = []
not_blank (t ∷ ts) = let rest = not_blank ts in if is_empty (strip t) then rest else t ∷ rest

unfoldable pub has_newline : Text → Bool
has_newline [] = false
has_newline (c ∷ s) = c == b'\n' || has_newline s

-- s.split(c, 1)[-1]
unfoldable pub after_first : ℕ → Text → Option Text
after_first c [] = none
after_first c (d ∷ s) = let rest = after_first c s in if d == c then some s else rest

abbrev pub last_part : ℕ → Text → Text
last_part c s = elim (after_first c s) [ none ↦ s | some t ↦ t ]

-- the trailing comment of an option of one line
unfoldable pub trailing_comment : List Text → Text
trailing_comment (line ∷ []) =
    let body = last_part b'=' (last_part b':' line) in
    strip (drop (length (strip_inline_comment body)) body)
trailing_comment _ = []

-- f"{key}: {text}" and the comment
unfoldable pub value_line : Text → Text → Text → Text
value_line key t comment = key ++ (b':' ∷ b' ' ∷ (t ++ beside comment))

unfoldable pub render_option : Text → Value → List Text → List Text
render_option key (listed ts) existing = block key (decoration existing) (not_blank ts)
render_option key (single t) existing =
    if has_newline t
    then block key (decoration existing) (stripped (splitlines t))
    else value_line key t (trailing_comment existing) ∷ []
