-- ===== src/Cfg/Single.antt =====
-- `duplicate_sections` of src/mcu_updater/cfgdoc.py: where it is empty, no two headers have one name.
use mcu_updater.Base.{
  ℕ, suc, ◌≡◌, refl, sym, ap, ◌∙◌, Bool, true, false, not, ◌&&◌, ◌||◌, Option, none, some, is_some,
  List, [], ◌∷◌, ◌++◌, if◌then◌else◌, arith, Bool-cases, Option-cases, inl, inr,
}
use mcu_updater.Base.Text.{Text, strip, text_eq, text_eq_iff}
use mcu_updater.Cfg.Line.{section_match, option_match, is_comment, is_blank, is_continuation}
use mcu_updater.Cfg.Parse.{
  Opt, Section, Parser, find_section, file_option, end_option, file_section, end_section, has_text,
  note_duplicate, begin_section, begin_option, read_body, read_line, read_lines, start, parse,
}

-- The names of the lines that are headers.
unfoldable pub header_names : List Text → List Text
header_names [] = []
header_names (l ∷ ls) =
    let rest = header_names ls in
    elim (section_match l) [ none ↦ rest | some name ↦ strip name ∷ rest ]

-- No name is there twice.
unfoldable pub IsSingle : List Text → Type 0
IsSingle [] = Unit
IsSingle (n ∷ ns) = (has_text n ns ≡ false) × IsSingle ns

unfoldable is_open : Option Section → Text → Bool
is_open none n = false
is_open (some s) n = text_eq s.name n

-- The parser has read a header of the name.
unfoldable seen : Parser → Text → Bool
seen p n = is_some (find_section n p.sections) || is_open p.current n

-- The headers that were read, and the names noted, are the same.
abbrev SameHeaders : Parser → Parser → Type 0
SameHeaders p q = (q.duplicates ≡ p.duplicates) × ((n : Text) → seen q n ≡ seen p n)

end_option-SameHeaders : (p : Parser) → SameHeaders p (end_option p)
unfolding end_option seen
end_option-SameHeaders p = (refl, λ n. rw (still_open p.current p.reading n) refl)
  where
    still_open :
        (o : Option Section) (r : Option Opt) (n : Text)
        → is_open
            (elim o as (λ _. Option Section) [
              | none ↦ none
              | some s ↦ some (record s { options = file_option r s.options })
            ])
            n
          ≡ is_open o n
    still_open none r n = unfold is_open in refl
    still_open (some s) r n = unfold is_open in refl

read_body-SameHeaders :
    (index : ℕ) (line : Text) (p : Parser) → SameHeaders p (read_body index line p)
unfolding read_body begin_option seen
read_body-SameHeaders index line p =
    let ended = end_option-SameHeaders p in
    elim (Bool-cases (is_some p.reading && is_continuation line)) [
      | inl a ↦ rw a (refl, λ n. refl)
      | inr a ↦ elim (Bool-cases (is_comment line || is_blank line)) [
        | inl b ↦ rw (a, b) ended
        | inr b ↦ elim (Option-cases (option_match line)) [
          | inl c ↦ rw (a, b, c) ended
          | inr (m, c) ↦ rw (a, b, c) ended
        ]
      ]
    ]

find_section-snoc :
    (n : Text) (ss : List Section) (s : Section)
    → is_some (find_section n (ss ++ (s ∷ []))) ≡ (is_some (find_section n ss) || text_eq s.name n)
unfolding find_section
find_section-snoc n [] s = ground arith
find_section-snoc n (r ∷ ss) s = ground (arith, find_section-snoc n ss s)

find_section-file_section :
    (n : Text) (o : Option Section) (ss : List Section)
    → is_some (find_section n (file_section o ss)) ≡ (is_some (find_section n ss) || is_open o n)
unfolding file_section is_open
find_section-file_section n none ss = ground arith
find_section-file_section n (some s) ss = elim (Bool-cases (is_some (find_section s.name ss))) [
  | inl h ↦ elim (Bool-cases (text_eq s.name n)) [
    | inl e ↦
        let same : s.name ≡ n = (text_eq_iff s.name n).0 e in
        let there : is_some (find_section n ss) ≡ true = rw (← same) h in rw (h, there) refl
    | inr e ↦ rw (h, e) (ground arith)
  ]
  | inr h ↦ rw h (find_section-snoc n ss s)
]

-- The end of a section files its name.
end_section-seen :
    (p : Parser) (n : Text) → is_some (find_section n (end_section p).sections) ≡ seen p n
unfolding end_section
end_section-seen p n =
    find_section-file_section n (end_option p).current (end_option p).sections
    ∙ (unfold seen in (end_option-SameHeaders p).1 n)

read_line-SameHeaders :
    (index : ℕ) (l : Text) (p : Parser)
    → section_match l ≡ none
    → SameHeaders p (read_line index l p)
unfolding read_line seen is_open
read_line-SameHeaders index l p e = rw (e, read_line) (below p.current refl)
  where
    below :
        (o : Option Section)
        → p.current ≡ o
        → SameHeaders p (elim o as (λ _. Parser) [
          | none ↦ p
          | some s ↦ read_body index l (record p { current = some (record s { end = suc index }) })
        ])
    below none c = (refl, λ n. refl)
    below (some s) c =
        let q : Parser = record p { current = some (record s { end = suc index }) } in
        let body = read_body-SameHeaders index l q in (body.0, λ n. body.1 n ∙ named n)
      where
        named :
            (n : Text)
            → (is_some (find_section n p.sections) || text_eq s.name n)
              ≡ (is_some (find_section n p.sections) || is_open p.current n)
        named n = rw c refl

begin_section-seen :
    (index : ℕ) (name : Text) (p : Parser) (n : Text)
    → seen (begin_section index name p) n ≡ (seen p n || text_eq name n)
unfolding begin_section is_open
begin_section-seen index name p n = rw (← end_section-seen p n) (unfold seen is_open in refl)

none_noted :
    (name : Text) (ds : List Text) (b : Bool)
    → (if b && not (has_text name ds) then ds ++ (name ∷ []) else ds) ≡ []
    → (ds ≡ []) × (b ≡ false)
unfolding has_text
none_noted name [] true k = absurd (cc k)
none_noted name [] false k = (refl, refl)
none_noted name (d ∷ ds) true k = absurd (ground (arith, k))
none_noted name (d ∷ ds) false k = absurd (cc k)

begin_section-single :
    (index : ℕ) (name : Text) (p : Parser)
    → (begin_section index name p).duplicates ≡ []
    → (p.duplicates ≡ []) × (seen p name ≡ false)
unfolding begin_section
begin_section-single index name p h = rw (← end_section-seen p name) (
    none_noted name p.duplicates (is_some (find_section name (end_section p).sections))
      (unfold note_duplicate end_section end_option in h))

header_names-none :
    (l : Text) (ls : List Text) → section_match l ≡ none → header_names (l ∷ ls) ≡ header_names ls
unfolding header_names
header_names-none l ls e = rw (e, header_names) refl

header_names-some :
    (l : Text) (ls : List Text) (name : Text)
    → section_match l ≡ some name
    → header_names (l ∷ ls) ≡ strip name ∷ header_names ls
unfolding header_names
header_names-some l ls name e = rw (e, header_names) refl

-- From any moment of the reading on.
read_lines-IsSingle :
    (index : ℕ) (ls : List Text) (p : Parser)
    → (read_lines index ls p).duplicates ≡ []
    → (p.duplicates ≡ [])
      × IsSingle (header_names ls)
      × ((n : Text) → has_text n (header_names ls) ≡ true → seen p n ≡ false)
unfolding read_lines IsSingle has_text
read_lines-IsSingle index [] p h =
    (h, unfold header_names in tt, λ n k. absurd (unfold header_names in cc k))
read_lines-IsSingle index (l ∷ ls) p h =
    let (empty, single, others) = read_lines-IsSingle (suc index) ls (read_line index l p) h in
    elim (Option-cases (section_match l)) [
      | inl e ↦
          let same = read_line-SameHeaders index l p e in
          rw (header_names-none l ls e)
            (sym same.0 ∙ empty, single, λ n k. sym (same.1 n) ∙ others n k)
      | inr (m, e) ↦
          let line : read_line index l p ≡ begin_section index (strip m) p =
            unfold read_line in rw (e, read_line) refl in
          let first =
            begin_section-single index (strip m) p (ap (λ q. q.duplicates) (sym line) ∙ empty) in
          let rest : (n : Text)
              → has_text n (header_names ls) ≡ true
              → (seen p n || text_eq (strip m) n) ≡ false =
            λ n k.
              sym (begin_section-seen index (strip m) p n)
              ∙ ap (λ q. seen q n) (sym line)
              ∙ others n k in
          rw (header_names-some l ls m e) (
            first.0,
            (
              elim (Bool-cases (has_text (strip m) (header_names ls))) [
                | inl k ↦
                    let self = (text_eq_iff (strip m) (strip m)).1 refl in
                    let clash = rest (strip m) k in absurd (ground (arith, self, clash))
                | inr k ↦ k
              ],
              single,
            ),
            λ n k. elim (Bool-cases (text_eq (strip m) n)) [
              | inl same ↦
                  let named : strip m ≡ n = (text_eq_iff (strip m) n).0 same in rw (← named) first.1
              | inr other ↦ let clash = rest n (ground (arith, k, other)) in ground (arith, clash)
            ],
          )
    ]

pub parse-IsSingle : (ls : List Text) → (parse ls).duplicates ≡ [] → IsSingle (header_names ls)
unfolding parse
parse-IsSingle ls h = (read_lines-IsSingle 0 ls start (unfold end_section end_option in h)).1
