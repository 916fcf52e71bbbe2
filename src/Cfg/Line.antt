-- ===== src/Cfg/Line.antt =====
-- What the regular expressions of src/mcu_updater/cfgdoc.py say of a line.
use mcu_updater.Base.{
  ℕ, Bool, true, false, not, ◌&&◌, ◌||◌, Option, none, some, List, [], ◌∷◌, is_empty, ◌==◌,
  if◌then◌else◌,
}
use mcu_updater.Base.Text.{Text, is_space, lstrip, rstrip, strip}

-- [#;]
abbrev pub is_mark : ℕ → Bool
is_mark c = c == b'#' || c == b';'

-- [:=]
abbrev pub is_sign : ℕ → Bool
is_sign c = c == b':' || c == b'='

-- What comes before the first character of a class, and the rest from it on.
unfoldable pub split_at : (ℕ → Bool) → Text → Text × Text
split_at p [] = ([], [])
split_at p (c ∷ s) = let rest = split_at p s in if p c then ([], c ∷ s) else (c ∷ rest.0, rest.1)

-- \s*(?:[#;].*)?$
unfoldable pub is_header_end : Text → Bool
is_header_end s = elim (lstrip s) [ [] ↦ true | c ∷ _ ↦ is_mark c ]

abbrev close : Text × Text → Option Text
close ([], rest) = none
close (c ∷ name, []) = none
close (c ∷ name, bracket ∷ rest) = if is_header_end rest then some (c ∷ name) else none

-- _SECTION_RE: the group `name`
unfoldable pub section_match : Text → Option Text
section_match [] = none
section_match (c ∷ s) =
    let closed = close (split_at (λ d. d == b']') s) in if c == b'[' then closed else none

abbrev at_sign : Text × Text → Option (Text × Text)
at_sign (key, []) = none
at_sign (key, sign ∷ value) = some (key, value)

-- _OPTION_RE: the groups `key`, with the blanks before the sign, and `value`
unfoldable pub option_match : Text → Option (Text × Text)
option_match [] = none
option_match (c ∷ s) =
    if is_space c || is_sign c || is_mark c then none else at_sign (split_at is_sign (c ∷ s))

-- _COMMENT_RE
unfoldable pub is_comment : Text → Bool
is_comment line = elim (lstrip line) [ [] ↦ false | c ∷ _ ↦ is_mark c ]

-- _INLINE_COMMENT_RE: a mark at the start, or after a blank, ends the text
unfoldable pub cut_comment : Bool → Text → Text
cut_comment blank [] = []
cut_comment blank (c ∷ s) =
    let rest = cut_comment (is_space c) s in if blank && is_mark c then [] else c ∷ rest

unfoldable pub strip_inline_comment : Text → Text
strip_inline_comment s = rstrip (cut_comment true s)

unfoldable pub is_blank : Text → Bool
is_blank line = is_empty (strip line)

unfoldable pub is_continuation : Text → Bool
is_continuation [] = false
is_continuation (c ∷ s) = (c == b' ' || c == b'\t') && not (is_blank (c ∷ s))

-- str.splitlines, for the breaks that it knows; "\r\n" is one
abbrev pub is_break : ℕ → Bool
is_break c =
    c == 10
    || c == 11
    || c == 12
    || c == 13
    || c == 28
    || c == 29
    || c == 30
    || c == 0x85
    || c == 0x2028
    || c == 0x2029

abbrev pub push : ℕ → List Text → List Text
push c [] = (c ∷ []) ∷ []
push c (l ∷ ls) = (c ∷ l) ∷ ls

-- the lines of a text that is inside a line: `after_cr` says that the last character was "\r"
unfoldable pub lines_from : Bool → Text → List Text
lines_from after_cr [] = []
lines_from after_cr (c ∷ s) =
    let same = lines_from false s in
    let skipped = lines_from false s in
    let next = lines_from (c == 13) s in
    if after_cr && c == 10 then skipped else if is_break c then [] ∷ next else push c same

unfoldable pub splitlines : Text → List Text
splitlines = lines_from false
