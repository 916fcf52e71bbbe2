-- ===== src/Cfg/Sited.antt =====
-- The options that the parser of src/mcu_updater/cfgdoc.py returns are where they are written.
use mathlib.Core.Option
use mathlib.Core.Path.{subst}
use mathlib.Core.List.{append_assoc}
use mcu_updater.Base.{
  ℕ, suc, ◌≡◌, refl, sym, ap, ◌∙◌, true, false, ◌&&◌, ◌||◌, Option, none, some, is_some, List, [],
  ◌∷◌, ◌++◌, map, length, length-append, All, arith, Bool-cases, Option-cases, inl, inr,
}
use mcu_updater.Base.Text.{Text, strip}
use mcu_updater.Cfg.Line.{
  section_match, option_match, is_comment, is_blank, is_continuation, strip_inline_comment,
}
use mcu_updater.Cfg.Parse.{
  Opt, Section, Parser, file_option, end_option, begin_option, read_body, read_line, read_lines,
  parse, start,
}
use mcu_updater.Cfg.Content.{take_line, take_lines, nothing, at}
use mcu_updater.Cfg.Erased.{entry, entries, content, map-file_option, content-read_line}
use mcu_updater.Cfg.Continued.{all_continue, ends, continuation_no_section, take_lines-append}
use mcu_updater.Cfg.Beginning.{option_line}
use mcu_updater.Cfg.Span.{Span, AllPlaced, Reading, Current}
use mcu_updater.Cfg.Located.{
  match_no_continuation, Kept, Kept-end_option, Kept-end_section, Kept-begin_section,
  Reading-extended,
}

option_line-match :
    (l : Text) (m : Text × Text)
    → section_match l ≡ none
    → (is_comment l || is_blank l) ≡ false
    → option_match l ≡ some m
    → option_line l ≡ some (strip m.0, strip_inline_comment (strip m.1))
unfolding option_line
option_line-match l m headless written e =
    let new = match_no_continuation l m e in rw (headless, new) (rw written (rw e refl))

header_no_continuation : (l name : Text) → section_match l ≡ some name → is_continuation l ≡ false
header_no_continuation l name e = elim (Bool-cases (is_continuation l)) [
  | inl h ↦ cc (continuation_no_section l h, e)
  | inr h ↦ h
]

abbrev inside : List Section → List Text → Section → Option Opt → Parser
inside ss ds s r = record { sections = ss; duplicates = ds; current = some s; reading = r }

Current-end :
    (total rest : List Text) (ss : List Section) (s : Section) (r : Option Opt) (end : ℕ)
    → Current total rest ss (some s) r
    → Current total rest ss (some (record s { end = end })) r
unfolding Current Reading
Current-end total rest ss s none end k = k
Current-end total rest ss s (some o) end k = k

module _ (total done rest : List Text) (l : Text) (whole : total ≡ done ++ (l ∷ rest))
    (headless : section_match l ≡ none) where
  Span-begun :
      (ss : List Section) (s : Section) (r : Option Opt) (m : Text × Text)
      → take_lines done nothing
        ≡ at s.name (map entries ss) (map entry s.options) (Option.map entry r)
      → (is_comment l || is_blank l) ≡ false
      → option_match l ≡ some m
      → Span total rest s.name (map entries ss) (map entry (file_option r s.options)) (record {
        key = strip m.0;
        start = length done;
        end = suc (length done);
        value = strip_inline_comment (strip m.1);
      })
  unfolding all_continue
  Span-begun ss s r m here written e = record {
    before = done;
    head = l;
    conts = [];
    word = strip_inline_comment (strip m.1);
    es = map entry s.options;
    ro = Option.map entry r;
    lines = whole;
    starts = refl;
    stops = omega arith;
    here = here;
    filed = sym (map-file_option r s.options);
    begun = option_line-match l m headless written e;
    continued = refl;
  }

  Kept-begin_option :
      (ss : List Section) (ds : List Text) (s : Section) (r : Option Opt) (m : Text × Text)
      → content (inside ss ds s r) ≡ take_lines done nothing
      → (is_comment l || is_blank l) ≡ false
      → option_match l ≡ some m
      → Kept total (l ∷ rest) (inside ss ds s r)
      → Kept total rest (begin_option (length done) m (inside ss ds s r))
  unfolding begin_option end_option Kept Current Reading ends
  Kept-begin_option ss ds s r m reads written e kept =
      let new : (is_some r ≡ true → ends (l ∷ rest) ≡ true) =
        λ _. unfold ends in rw (match_no_continuation l m e) refl in
      let (filed, (placed, read)) : Kept total rest (end_option (inside ss ds s r)) =
        Kept-end_option total (l ∷ rest) rest (inside ss ds s r) new kept in
      (filed, (placed, Span-begun ss s r m (sym reads) written e))

  Kept-read_body :
      (ss : List Section) (ds : List Text) (s : Section) (r : Option Opt)
      → content (inside ss ds s r) ≡ take_lines done nothing
      → Kept total (l ∷ rest) (inside ss ds s r)
      → Kept total rest (read_body (length done) l (inside ss ds s r))
  unfolding read_body Kept Current
  Kept-read_body ss ds s r reads kept = elim (Bool-cases (is_some r && is_continuation l)) [
    | inl h ↦ rw h (
      kept.0,
      (kept.1.0, Reading-extended total done rest l whole ss s r (ground (arith, h)) kept.1.1),
    )
    | inr h ↦
        let new : (is_some r ≡ true → ends (l ∷ rest) ≡ true) =
          λ o. unfold ends in ground (arith, h, o) in
        let ended = Kept-end_option total (l ∷ rest) rest (inside ss ds s r) new kept in
        elim (Bool-cases (is_comment l || is_blank l)) [
          | inl b ↦ rw (h, b) ended
          | inr b ↦ elim (Option-cases (option_match l)) [
            | inl e ↦ rw (h, b) (rw e ended)
            | inr (m, e) ↦ rw (h, b) (rw e (Kept-begin_option ss ds s r m reads b e kept))
          ]
        ]
  ]

  Kept-read_line :
      (p : Parser)
      → content p ≡ take_lines done nothing
      → Kept total (l ∷ rest) p
      → Kept total rest (read_line (length done) l p)
  unfolding read_line Kept
  Kept-read_line p reads kept = rw (headless, read_line) (below p.current refl)
    where
      below :
          (c : Option Section)
          → p.current ≡ c
          → Kept total rest (elim c as (λ _. Parser) [
            | none ↦ p
            | some s ↦
                read_body
                  (length done)
                  l
                  (record p { current = some (record s { end = suc (length done) }) })
          ])
      below none e = unfold Kept Current in rw e (kept.0, tt)
      below (some s) e =
          Kept-read_body p.sections p.duplicates (record s { end = suc (length done) }) p.reading
            (ap {A = Option Section} (λ c. record (content p) { current = Option.map entries c })
                (sym e)
              ∙ reads)
            (
              kept.0,
              Current-end total (l ∷ rest) p.sections s p.reading (suc (length done))
                  (subst (λ c. Current total (l ∷ rest) p.sections c p.reading) e kept.1),
            )

module _ (total done rest : List Text) (l : Text) (whole : total ≡ done ++ (l ∷ rest)) where
  Kept-any_line :
      (p : Parser)
      → content p ≡ take_lines done nothing
      → Kept total (l ∷ rest) p
      → Kept total rest (read_line (length done) l p)
  unfolding ends read_line Kept
  Kept-any_line p reads kept = elim (Option-cases (section_match l)) [
    | inl e ↦ Kept-read_line total done rest l whole e p reads kept
    | inr (name, e) ↦
        let new : (is_some p.reading ≡ true → ends (l ∷ rest) ≡ true) =
          λ _. rw (header_no_continuation l name e) refl in
        rw (e, read_line)
          (Kept-begin_section total (l ∷ rest) rest (length done) (strip name) p new kept)
  ]

Kept-read_lines :
    (total rest done : List Text) (p : Parser)
    → total ≡ done ++ rest
    → content p ≡ take_lines done nothing
    → Kept total rest p
    → Kept total [] (read_lines (length done) rest p)
unfolding read_lines
Kept-read_lines total [] done p whole reads kept = kept
Kept-read_lines total (l ∷ rest) done p whole reads kept =
    let index : length (done ++ (l ∷ [])) ≡ suc (length done) =
      omega (arith, length-append done (l ∷ [])) in
    let later =
      Kept-read_lines total rest (done ++ (l ∷ [])) (read_line (length done) l p)
        (whole ∙ sym (append_assoc done (l ∷ []) rest))
        (content-read_line (length done) l p
          ∙ ap (take_line l) reads
          ∙ sym (take_lines-append done (l ∷ []) nothing ∙ unfold take_lines in refl))
        (Kept-any_line total done rest l whole p reads kept) in
    rw (← index) later

-- Every option of every section that the parser returns is placed: the lines from its `start` to its `end`
-- are one line that begins an option of its key and then lines that continue it, the line after them does
-- not continue it, and where the parser came to them, in the section of that name, no earlier section had
-- the name and the section had no option of the key.
pub parse-AllPlaced : (total : List Text) → All (AllPlaced total) (parse total).sections
unfolding parse Kept Current
parse-AllPlaced total =
    Kept-end_section total [] [] (read_lines 0 total start) (λ _. unfold ends in refl)
      (Kept-read_lines total total [] start refl (unfold take_lines in refl) (tt, tt))
