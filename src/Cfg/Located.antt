-- ===== src/Cfg/Located.antt =====
-- Every line that the parser of src/mcu_updater/cfgdoc.py reads keeps its options where they are written.
use mathlib.Core.List.{append_assoc}
use mcu_updater.Base.{
  ℕ, suc, ◌==◌, ◌+◌, ◌≡◌, refl, sym, ap, ◌∙◌, true, false, ◌||◌, Option, none, some, is_some, List,
  [], ◌∷◌, ◌++◌, map, length, length-append, is_empty, All, arith, Bool-cases, inl, inr,
}
use mcu_updater.Base.Text.{Text, is_space, strip}
use mcu_updater.Cfg.Line.{option_match, is_comment, is_continuation, strip_inline_comment}
use mcu_updater.Cfg.Parse.{Opt, Section, Parser, end_option, end_section, begin_section, extended}
use mcu_updater.Cfg.Content.{Entries}
use mcu_updater.Cfg.Erased.{entry, entries}
use mcu_updater.Cfg.Continued.{all_continue, ends}
use mcu_updater.Cfg.Span.{
  Span, AllPlaced, Reading, Current, Current-end_option, AllPlaced-file_section,
}

all_continue-append :
    (ks : List Text) (l : Text)
    → all_continue ks ≡ true
    → is_continuation l ≡ true
    → all_continue (ks ++ (l ∷ [])) ≡ true
unfolding all_continue
all_continue-append [] l h k = rw k refl
all_continue-append (j ∷ ks) l h k =
    let others : all_continue ks ≡ true = ground (arith, h) in
    let more = all_continue-append ks l others k in ground (arith, h, more)

pub match_no_continuation :
    (l : Text) (m : Text × Text) → option_match l ≡ some m → is_continuation l ≡ false
unfolding option_match is_continuation
match_no_continuation [] m h = refl
match_no_continuation (c ∷ s) m h =
    let solid : is_space c ≡ false = ground (arith, h) in
    let other : (c == b' ' || c == b'\t') ≡ false = unfold is_space in ground (arith, solid) in
    rw other refl

module _ (total : List Text) where
  -- What the parser knows with `rest` to read.
  unfoldable pub Kept : List Text → Parser → Type 0
  Kept rest p = All (AllPlaced total) p.sections × Current total rest p.sections p.current p.reading

  pub Kept-end_option :
      (rest next : List Text) (p : Parser)
      → (is_some p.reading ≡ true → ends rest ≡ true)
      → Kept rest p
      → Kept next (end_option p)
  unfolding Kept end_option
  Kept-end_option rest next p e (filed, current) =
      (filed, Current-end_option total rest next p.sections p.current p.reading e current)

  pub Kept-end_section :
      (rest next : List Text) (p : Parser)
      → (is_some p.reading ≡ true → ends rest ≡ true)
      → Kept rest p
      → All (AllPlaced total) (end_section p).sections
  unfolding Kept end_option end_section
  Kept-end_section rest next p e (filed, current) =
      AllPlaced-file_section total rest p.sections (end_option p).current
        (Current-end_option total rest rest p.sections p.current p.reading e current) filed

  pub Kept-begin_section :
      (rest next : List Text) (index : ℕ) (name : Text) (p : Parser)
      → (is_some p.reading ≡ true → ends rest ≡ true)
      → Kept rest p
      → Kept next (begin_section index name p)
  unfolding begin_section Kept Current Reading end_section end_option
  Kept-begin_section rest next index name p e kept =
      (unfold end_section end_option in Kept-end_section rest next p e kept, (λ outside. tt, tt))

  module _ (done rest : List Text) (l : Text) (whole : total ≡ done ++ (l ∷ rest)) where
    Span-extended :
        (n : Text) (ss : List (Text × Entries)) (fs : Entries) (o : Opt) (v : Text)
        → is_continuation l ≡ true
        → Span total (l ∷ rest) n ss fs o
        → Span total rest n ss fs (record o { end = suc (length done); value = v })
    Span-extended n ss fs o v h span =
        let below = length-append span.conts (l ∷ rest) in
        let above = length-append span.before (span.head ∷ (span.conts ++ (l ∷ rest))) in
        let all = length-append done (l ∷ rest) in
        let grown = length-append span.conts (l ∷ []) in
        let same : length (done ++ (l ∷ rest))
            ≡ length (span.before ++ (span.head ∷ (span.conts ++ (l ∷ rest)))) =
          ap length (sym whole ∙ span.lines) in
        let counted : length span.before + suc (length (span.conts ++ (l ∷ [])))
            ≡ suc (length done) =
          omega (arith, below, above, all, grown, same) in
        record {
          before = span.before;
          head = span.head;
          conts = span.conts ++ (l ∷ []);
          word = span.word;
          es = span.es;
          ro = span.ro;
          lines = span.lines ∙ rw (append_assoc span.conts (l ∷ []) rest) refl;
          starts = span.starts;
          stops = counted;
          here = span.here;
          filed = span.filed;
          begun = span.begun;
          continued = all_continue-append span.conts l span.continued h;
        }

    -- A line goes on with the option.
    pub Reading-extended :
        (ss : List Section) (s : Section) (r : Option Opt)
        → is_continuation l ≡ true
        → Reading total (l ∷ rest) ss s r
        → Reading total rest ss s (elim r as (λ _. Option Opt) [
          | none ↦ none
          | some o ↦ some (extended (length done) l o)
        ])
    unfolding Reading extended
    Reading-extended ss s none h reading = reading
    Reading-extended ss s (some o) h span =
        elim (Bool-cases (is_comment l || is_empty (strip_inline_comment (strip l)))) [
          | inl b ↦ rw b (
              Span-extended s.name (map entries ss) (map entry s.options) o o.value h
                (unfold Reading in span))
          | inr b ↦ rw b (
              Span-extended s.name (map entries ss) (map entry s.options) o
                (o.value ++ (b'\n' ∷ strip_inline_comment (strip l))) h (unfold Reading in span))
        ]
