-- ===== src/Cfg/Setting.antt =====
-- `CfgDocument.set` of src/mcu_updater/cfgdoc.py on an option that is there, read again by `get`.
use mathlib.Core.Option
use mathlib.Core.List.{append_assoc}
use mathlib.Core.Path.{subst}
use mcu_updater.Base.{
  ◌-◌, ◌≡◌, refl, sym, ap, ◌∙◌, true, false, ◌&&◌, Option, none, some, List, [], ◌∷◌, ◌++◌, map,
  length, length-append, take, drop, take-exact, drop-exact, All, if◌then◌else◌, arith, Bool-cases,
  inl, inr,
}
use mcu_updater.Base.Result.{ok}
use mcu_updater.Base.Text.{Text, text_eq, text_eq_iff}
use mcu_updater.Cfg.Parse.{Opt, Section, find_option, find_section, parse}
use mcu_updater.Cfg.Render.{
  single, lookup, has_newline, trailing_comment, value_line, render_option,
}
use mcu_updater.Cfg.Doc.{Doc, sections, get, get_in, splice, spliced, set, set_in}
use mcu_updater.Cfg.Table.{has, file_entry, patch, lookup-patch}
use mcu_updater.Cfg.Content.{Entries, Content, left, take_lines, nothing}
use mcu_updater.Cfg.Erased.{entry, entries, content-parse}
use mcu_updater.Cfg.Patch.{write}
use mcu_updater.Cfg.Beginning.{option_line}
use mcu_updater.Cfg.Rewrite.{lines_rewritten}
use mcu_updater.Cfg.Span.{Span, Placed, AllPlaced}
use mcu_updater.Cfg.Sited.{parse-AllPlaced}
use mcu_updater.Cfg.Written.{IsKey, IsPlain, trailing_comment-IsBeside, option_line-value_line}

lookup_in : Option Entries → Text → Option Text
lookup_in none j = none
lookup_in (some es) j = lookup es j

lookup-find_option :
    (j : Text) (os : List Opt)
    → lookup (map entry os) j ≡ Option.map (λ o. o.value) (find_option j os)
unfolding lookup find_option
lookup-find_option j [] = refl
lookup-find_option j (o ∷ os) = ground (arith, lookup-find_option j os)

lookup-find_section :
    (m : Text) (ss : List Section)
    → lookup (map entries ss) m ≡ Option.map (λ s. map entry s.options) (find_section m ss)
unfolding lookup find_section
lookup-find_section m [] = refl
lookup-find_section m (s ∷ ss) = ground (arith, lookup-find_section m ss)

get_in-lookup :
    (ss : List Section) (m j : Text) → get_in ss m j ≡ lookup_in (lookup (map entries ss) m) j
unfolding get_in lookup_in
get_in-lookup ss m j = rw (lookup-find_section m ss) (found (find_section m ss))
  where
    found :
        (s : Option Section)
        → (elim s as (λ _. Option Text) [
          | none ↦ none
          | some s ↦ elim (find_option j s.options) as (λ _. Option Text) [
            | none ↦ none
            | some o ↦ some o.value
          ]
        ])
          ≡ lookup_in (Option.map (λ s. map entry s.options) s) j
    found none = refl
    found (some s) = rw (lookup-find_option j s.options) refl

module _ (P : Section → Type 0) (n : Text) (s : Section) where
  find_section-All :
      (ss : List Section) → All P ss → find_section n ss ≡ some s → P s × (s.name ≡ n)
  unfolding find_section
  find_section-All [] h e = cc e
  find_section-All (r ∷ ss) (this, others) e = elim (Bool-cases (text_eq r.name n)) [
    | inl h ↦ let same : r ≡ s = cc (e, h) in rw (← same) (this, (text_eq_iff r.name n).0 h)
    | inr h ↦ find_section-All ss others (rw (← e, h) refl)
  ]

module _ (P : Opt → Type 0) (k : Text) (o : Opt) where
  find_option-All : (os : List Opt) → All P os → find_option k os ≡ some o → P o × (o.key ≡ k)
  unfolding find_option
  find_option-All [] h e = cc e
  find_option-All (r ∷ os) (this, others) e = elim (Bool-cases (text_eq r.key k)) [
    | inl h ↦ let same : r ≡ o = cc (e, h) in rw (← same) (this, (text_eq_iff r.key k).0 h)
    | inr h ↦ find_option-All os others (rw (← e, h) refl)
  ]

entries-parse :
    (ls : List Text) → map entries (parse ls).sections ≡ (left (take_lines ls nothing)).sections
entries-parse ls = ap {A = Content} (λ c. c.sections) (content-parse ls)

-- The lines of the option replaced.
module _ (total : List Text) (n : Text) (o : Opt) (new : Text) (rest : List Text)
    (ss : List (Text × Entries)) (fs : Entries) (span : Span total rest n ss fs o) where
  spliced-Span : spliced o.start o.end (new ∷ []) total ≡ span.before ++ (new ∷ rest)
  unfolding spliced
  spliced-Span =
      let old : List Text = span.head ∷ span.conts in
      let above : take o.start total ≡ span.before =
        ap {A = List Text} (take o.start) span.lines
        ∙ take-exact span.before (old ++ rest) o.start span.starts in
      let size : length (span.before ++ old) ≡ o.end = length-append span.before old ∙ span.stops in
      let below : drop o.end total ≡ rest =
        ap {A = List Text} (drop o.end) (span.lines ∙ sym (append_assoc span.before old rest))
        ∙ drop-exact (span.before ++ old) rest o.end size in
      rw (above, below) refl

entries-spliced :
    (total : List Text) (n : Text) (o : Opt) (new t : Text)
    → Placed total n o
    → option_line new ≡ some (o.key, t)
    → map entries (parse (spliced o.start o.end (new ∷ []) total)).sections
      ≡ patch n (write n o.key t) (map entries (parse total).sections)
unfolding Placed
entries-spliced total n o new t (rest, ss, fs, span, outside, fresh, ended) written =
    let fresh_key : has (file_entry span.ro span.es) o.key ≡ false = rw span.filed fresh in
    let rewritten =
      lines_rewritten n o.key t span.word span.before span.conts rest span.head new ss span.es
        span.ro span.here outside fresh_key span.begun written span.continued ended in
    rw
      (
        spliced-Span total n o new rest ss fs span,
        entries-parse (span.before ++ (new ∷ rest)),
        entries-parse total,
      )
      (rewritten
        ∙ ap {A = List Text}
            (λ ls. patch n (write n o.key t) (left (take_lines ls nothing)).sections)
            (sym span.lines))

-- A value written over an option that is there.
module _ (doc : Doc) (n k t : Text) (s : Section) (o : Opt) (thawed : doc.frozen ≡ false)
    (at_section : find_section n (sections doc) ≡ some s)
    (at_option : find_option k s.options ≡ some o) where
  abbrev pub new_line : Text
  new_line = value_line k t (trailing_comment (take (o.end - o.start) (drop o.start doc.lines)))

  abbrev pub written_doc : Doc
  written_doc = record doc { lines = spliced o.start o.end (new_line ∷ []) doc.lines }

  pub set-splice : has_newline t ≡ false → set n k (single t) doc ≡ ok written_doc
  unfolding set set_in splice render_option
  set-splice h = rw (at_section, set) (rw (at_option, set_in) (rw (thawed, h) refl))

  entries-set :
      IsKey k
      → IsPlain t
      → map entries (sections written_doc) ≡ patch n (write n k t) (map entries (sections doc))
  entries-set key plain =
      let (placed, name) =
        find_section-All (AllPlaced doc.lines) n s (sections doc) (parse-AllPlaced doc.lines)
          at_section in
      let (site, same) = find_option-All (Placed doc.lines s.name) k o s.options placed at_option in
      let comment = trailing_comment-IsBeside (take (o.end - o.start) (drop o.start doc.lines)) in
      let line : option_line new_line ≡ some (o.key, t) =
        option_line-value_line t
          (trailing_comment (take (o.end - o.start) (drop o.start doc.lines))) plain comment k key
        ∙ rw same refl in
      let spliced_entries = entries-spliced doc.lines s.name o new_line t site line in
      subst
        (λ m.
          map entries (sections written_doc) ≡ patch m (write m k t) (map entries (sections doc)))
        name
        (subst
          (λ j.
            map entries (sections written_doc)
            ≡ patch s.name (write s.name j t) (map entries (sections doc)))
          same spliced_entries)

  -- The option in the section's entries.
  abbrev old : Entries
  old = map entry s.options

  lookup-written :
      (j : Text) → lookup (write n k t old) j ≡ (if text_eq k j then some t else lookup old j)
  lookup-written j = lookup-patch k (λ _. t) old j ∙ (elim (Bool-cases (text_eq k j)) [
    | inl h ↦
        let same = (text_eq_iff k j).0 h in
        let there : lookup old j ≡ some o.value = rw (← same) (
          lookup-find_option k s.options
          ∙ ap {A = Option Opt} (Option.map (λ o. o.value)) at_option) in
        rw (h, there) refl
    | inr h ↦ rw h refl
  ])

  lookup_section :
      (m : Text) → text_eq n m ≡ true → lookup (map entries (sections doc)) m ≡ some old
  lookup_section m h = rw (← (text_eq_iff n m).0 h) (
      lookup-find_section n (sections doc)
      ∙ ap {A = Option Section} (Option.map (λ s. map entry s.options)) at_section)

  pub get-written :
      IsKey k
      → IsPlain t
      → (m j : Text)
      → get written_doc m j ≡ (if text_eq n m && text_eq k j then some t else get doc m j)
  unfolding get lookup_in
  get-written key plain m j =
      let before = get_in-lookup (sections doc) m j in
      let after = get_in-lookup (sections written_doc) m j in
      rw
        (
          after,
          before,
          entries-set key plain,
          lookup-patch n (write n k t) (map entries (sections doc)) m,
        )
        (elim (Bool-cases (text_eq n m)) [
          | inl h ↦ rw (h, lookup_section m h) (lookup-written j)
          | inr h ↦ rw h refl
        ])
