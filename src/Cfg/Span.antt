-- ===== src/Cfg/Span.antt =====
-- Where the parser of src/mcu_updater/cfgdoc.py finds an option: the lines from `start` to `end` are the
-- line that begins it and those that continue it, and the section had no such option before.
use mcu_updater.Base.{
  suc, ◌+◌, ◌≡◌, refl, ◌∙◌, true, false, Option, none, some, is_some, List, [], ◌∷◌, ◌++◌, map,
  length, All, All-append, Bool-cases, inl, inr,
}
use mcu_updater.Base.Text.{Text}
use mcu_updater.Cfg.Parse.{Opt, Section, find_option, find_section, file_option, file_section}
use mcu_updater.Cfg.Table.{has, file_entry}
use mcu_updater.Cfg.Content.{Entries, take_lines, nothing, at}
use mcu_updater.Cfg.Erased.{entry, entries, has-find_option, has-find_section}
use mcu_updater.Cfg.Continued.{all_continue, ends}
use mcu_updater.Cfg.Beginning.{option_line}

module _ (total : List Text) where
  -- The option is at these lines, and `rest` are the lines below them.
  pub record Span (rest : List Text) (n : Text) (ss : List (Text × Entries)) (fs : Entries)
      (o : Opt) : Type 0 where
    pub before : List Text
    pub head : Text
    pub conts : List Text
    pub word : Text
    pub es : Entries
    pub ro : Option (Text × Text)
    pub lines : total ≡ before ++ (head ∷ (conts ++ rest))
    pub starts : length before ≡ o.start
    pub stops : length before + suc (length conts) ≡ o.end
    pub here : take_lines before nothing ≡ at n ss es ro
    pub filed : file_entry ro es ≡ fs
    pub begun : option_line head ≡ some (o.key, word)
    pub continued : all_continue conts ≡ true

  -- It is the first of its key, in the first section of its name.
  unfoldable pub Placed : Text → Opt → Type 0
  Placed n o =
      (rest : List Text) × (ss : List (Text × Entries)) × (fs : Entries) × Span rest n ss fs o
      × (has ss n ≡ false)
      × (has fs o.key ≡ false)
      × (ends rest ≡ true)

  abbrev pub AllPlaced : Section → Type 0
  AllPlaced s = All (Placed s.name) s.options

  unfoldable pub Reading : List Text → List Section → Section → Option Opt → Type 0
  Reading rest ss s none = Unit
  Reading rest ss s (some o) = Span rest s.name (map entries ss) (map entry s.options) o

  -- What the parser knows of the section it is in, with `rest` to read.
  unfoldable pub Current : List Text → List Section → Option Section → Option Opt → Type 0
  Current rest ss none r = Unit
  Current rest ss (some s) r =
      (has (map entries ss) s.name ≡ false → AllPlaced s) × Reading rest ss s r

  -- Nothing is being read, or what comes next does not continue it.
  pub Placed-file_option :
      (rest : List Text) (ss : List Section) (s : Section) (r : Option Opt)
      → (is_some r ≡ true → ends rest ≡ true)
      → has (map entries ss) s.name ≡ false
      → AllPlaced s
      → Reading rest ss s r
      → All (Placed s.name) (file_option r s.options)
  unfolding Reading file_option
  Placed-file_option rest ss s none e outside placed reading = placed
  Placed-file_option rest ss s (some o) e outside placed span =
      elim (Bool-cases (is_some (find_option o.key s.options))) [
        | inl h ↦ rw h placed
        | inr h ↦ rw h (
            All-append (Placed s.name) s.options (o ∷ []) placed (
              unfold Placed in
                  (
                    rest,
                    map entries ss,
                    map entry s.options,
                    span,
                    outside,
                    has-find_option o.key s.options ∙ h,
                    e refl,
                  ),
              tt,
            ))
      ]

  -- The option ends.
  pub Current-end_option :
      (rest next : List Text) (ss : List Section) (c : Option Section) (r : Option Opt)
      → (is_some r ≡ true → ends rest ≡ true)
      → Current rest ss c r
      → Current next ss
          (elim c as (λ _. Option Section) [
            | none ↦ none
            | some s ↦ some (record s { options = file_option r s.options })
          ])
          none
  unfolding Current Reading
  Current-end_option rest next ss none r e k = tt
  Current-end_option rest next ss (some s) r e (placed, reading) = (
    λ outside.
        Placed-file_option rest ss s r e outside (placed outside) (unfold Reading in reading),
    tt,
  )

  -- The section ends.
  pub AllPlaced-file_section :
      (rest : List Text) (ss : List Section) (c : Option Section)
      → Current rest ss c none
      → All AllPlaced ss
      → All AllPlaced (file_section c ss)
  unfolding Current file_section
  AllPlaced-file_section rest ss none k filed = filed
  AllPlaced-file_section rest ss (some s) (placed, reading) filed =
      elim (Bool-cases (is_some (find_section s.name ss))) [
        | inl h ↦ rw h filed
        | inr h ↦
            rw h
              (All-append AllPlaced ss (s ∷ []) filed (placed (has-find_section s.name ss ∙ h), tt))
      ]
