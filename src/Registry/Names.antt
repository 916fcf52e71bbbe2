-- ===== src/Registry/Names.antt =====
-- `validate_type_name` of src/mcu_updater/config.py.
use mcu_updater.Base.{
  ℕ, ◌≡◌, refl, sym, ap, ◌∙◌, ◌≤◌, Bool, true, false, not, ◌&&◌, ◌||◌, some, [], ◌∷◌, ◌++◌, length,
  is_empty, ltb, leb, ◌==◌, if◌then◌else◌, arith,
}
use mcu_updater.Base.Text.{Text, codes, is_space, lstrip, strip, text_eq, text_eq_iff}
use mcu_updater.Base.Result.{Result, ok, err, ok-injective}
use mcu_updater.Cfg.Line.{section_match, split_at, is_header_end}
use mcu_updater.Cfg.Strip.{all_space}
use mcu_updater.Cfg.Written.{strip_led}
use mcu_updater.Cfg.Doc.{header_line}
use mcu_updater.Types.Defs.{declared_name}

-- InvalidTypeNameError, a constructor for each message
pub data InvalidTypeNameError : Type 0 where
  empty_name untrimmed too_long dots bad_character : InvalidTypeNameError

abbrev pub type_name_max : ℕ
type_name_max = 64

-- [A-Za-z0-9._-]
unfoldable pub is_name_char : ℕ → Bool
is_name_char c =
    (leb b'A' c && leb c b'Z')
    || (leb b'a' c && leb c b'z')
    || (leb b'0' c && leb c b'9')
    || c == b'.'
    || c == b'_'
    || c == b'-'

-- TYPE_NAME_RE, on a text that is not empty
unfoldable pub is_name : Text → Bool
is_name [] = true
is_name (c ∷ s) = is_name_char c && is_name s

abbrev pub is_dots : Text → Bool
is_dots t = text_eq t (codes ".") || text_eq t (codes "..")

unfoldable pub validate_type_name : Text → Result InvalidTypeNameError Text
validate_type_name name =
    let stripped = strip name in
    if is_empty stripped
    then err empty_name
    else if not (text_eq stripped name)
    then err untrimmed
    else if ltb type_name_max (length stripped)
    then err too_long
    else if is_dots stripped
    then err dots
    else if not (is_name stripped)
    then err bad_character
    else ok stripped

-- section_name
unfoldable pub section_name : Text → Text
section_name name = codes "type " ++ name

-- What a name that passes is.
unfoldable pub IsName : Text → Text → Type 0
IsName name answer =
    (answer ≡ name)
    × (is_empty name ≡ false)
    × (strip name ≡ name)
    × (length name ≤ type_name_max)
    × (is_dots name ≡ false)
    × (is_name name ≡ true)

-- A guard that did not raise.
unraised :
    {A : Type 0} (b : Bool) (e : InvalidTypeNameError) (rest : Result InvalidTypeNameError A)
    (a : A)
    → (if b then err e else rest) ≡ ok a
    → (b ≡ false) × (rest ≡ ok a)
unraised true e rest a h = cc h
unraised false e rest a h = (refl, h)

validate_type_name-IsName :
    (name answer : Text) → validate_type_name name ≡ ok answer → IsName name answer
unfolding validate_type_name IsName
validate_type_name-IsName name answer h =
    let t = strip name in
    let (full, h1) = unraised (is_empty t) empty_name _ answer h in
    let (trimmed, h2) = unraised (not (text_eq t name)) untrimmed _ answer h1 in
    let (short, h3) = unraised (ltb type_name_max (length t)) too_long _ answer h2 in
    let (plain, h4) = unraised (is_dots t) dots _ answer h3 in
    let (named, h5) = unraised (not (is_name t)) bad_character _ answer h4 in
    let same : t ≡ name = (text_eq_iff t name).0 (ground (arith, trimmed)) in
    let fits : length name ≤ type_name_max = rw (← same) (ground (arith, short)) in
    let allowed : is_name name ≡ true = rw (← same) (ground (arith, named)) in
    (sym (ok-injective h5) ∙ same, rw (← same) full, same, fits, rw (← same) plain, allowed)

split_name :
    (s rest : Text)
    → is_name s ≡ true
    → split_at (λ d. d == b']') (s ++ (b']' ∷ rest)) ≡ (s, b']' ∷ rest)
unfolding split_at is_name is_name_char
split_name [] rest h = refl
split_name (c ∷ s) rest h =
    let others : is_name s ≡ true = unfold is_name is_name_char in ground (arith, h) in
    let solid : (c == b']') ≡ false = ground (arith, h) in rw (split_name s rest others, solid) refl

name_solid : (c : ℕ) → is_name_char c ≡ true → is_space c ≡ false
unfolding is_name_char is_space
name_solid c h = ground (arith, h)

-- The name comes back from the section's name.
declared_name-section_name :
    (name : Text)
    → is_empty name ≡ false
    → strip name ≡ name
    → is_name name ≡ true
    → declared_name (codes "type") (section_name name) ≡ name
unfolding section_name is_name
declared_name-section_name [] full trimmed named = cc full
declared_name-section_name (c ∷ s) full trimmed named =
    let solid = name_solid c (ground (arith, named)) in
    let led = strip_led (b' ' ∷ []) c s (unfold all_space is_space in refl) solid in
    let bare = strip_led [] c s (unfold all_space in refl) solid in led ∙ sym bare ∙ trimmed

split_section :
    (name : Text)
    → is_name name ≡ true
    → split_at (λ d. d == b']') ((codes "type " ++ name) ++ (b']' ∷ []))
      ≡ (codes "type " ++ name, b']' ∷ [])
unfolding split_at
split_section name named =
    let before : (x : Text) → Text = λ x. codes "type " ++ x in
    ap {A = Text × Text} (λ r. (before r.0, r.1)) (split_name name [] named)

section_match-header_line :
    (name : Text)
    → is_name name ≡ true
    → section_match (header_line (section_name name)) ≡ some (section_name name)
unfolding section_match section_name is_header_end lstrip
section_match-header_line name named = rw (split_section name named) refl

-- A type name that is accepted is returned as it was given. It has at most 64 characters, is not "." or
-- "..", and has only letters, digits, dots, dashes and underscores; and the header that a section of the
-- type gets is read as a section, from whose name the type's name comes back.
pub validate_type_name-section :
    (name answer : Text)
    → validate_type_name name ≡ ok answer
    → IsName name answer
      × (section_match (header_line (section_name name)) ≡ some (section_name name))
      × (declared_name (codes "type") (section_name name) ≡ name)
unfolding IsName
validate_type_name-section name answer h =
    let (same, full, trimmed, short, plain, named) = validate_type_name-IsName name answer h in
    (
      (same, full, trimmed, short, plain, named),
      section_match-header_line name named,
      declared_name-section_name name full trimmed named,
    )
