-- ===== src/Cfg/Edits.antt =====
-- What the edits of `CfgDocument` (src/mcu_updater/cfgdoc.py) do to what is read from it.
use mcu_updater.Base.{
  ℕ, ◌≡◌, refl, true, false, ◌&&◌, ◌⊎◌, inl, inr, Option, none, some, is_some, List, if◌then◌else◌,
  Bool-cases, Option-cases,
}
use mcu_updater.Base.Result.{ok, err}
use mcu_updater.Base.Text.{Text, text_eq}
use mcu_updater.Cfg.Parse.{Opt, Section, find_option, find_section}
use mcu_updater.Cfg.Render.{Value, single, has_newline}
use mcu_updater.Cfg.Doc.{
  Doc, frozen_document, sections, freeze, get, get_in, splice, add_section, set, set_in,
  remove_option, rename_section, remove_section,
}
use mcu_updater.Cfg.Written.{IsKey, IsPlain}
use mcu_updater.Cfg.Setting.{written_doc, set-splice, get-written}

get_in_found :
    (ss : List Section) (n k w : Text)
    → get_in ss n k ≡ some w
    → (s : Section) × (o : Opt) × (find_section n ss ≡ some s) × (find_option k s.options ≡ some o)
unfolding get_in
get_in_found ss n k w e = at_section (find_section n ss) refl e
  where
    at_option :
        (s : Section) (o : Option Opt)
        → find_option k s.options ≡ o
        → (elim o as (λ _. Option Text) [ none ↦ none | some o ↦ some o.value ]) ≡ some w
        → (o : Opt) × (find_option k s.options ≡ some o)
    at_option s none f h = cc h
    at_option s (some o) f h = (o, f)

    at_section :
        (s : Option Section)
        → find_section n ss ≡ s
        → (elim s as (λ _. Option Text) [
          | none ↦ none
          | some s ↦ elim (find_option k s.options) as (λ _. Option Text) [
            | none ↦ none
            | some o ↦ some o.value
          ]
        ])
          ≡ some w
        → (s : Section) × (o : Opt) × (find_section n ss ≡ some s)
          × (find_option k s.options ≡ some o)
    at_section none f h = cc h
    at_section (some s) f h =
        let (o, g) = at_option s (find_option k s.options) refl h in (s, o, f, g)

-- On a document that is not frozen and has a value for the key in the section, `set` succeeds with a value
-- that has no blanks at its ends, no inline comment and no line break, if the key has no blanks at its ends,
-- no ":" or "=" in it and does not begin with "[", "#" or ";"; and `get` then returns the value for that key
-- and what it returned before for every other section and key, whatever lines, comments, duplicates and
-- multi-line values the document has.
pub get-set :
    (doc : Doc) (n k t w m j : Text)
    → doc.frozen ≡ false
    → get doc n k ≡ some w
    → IsKey k
    → IsPlain t
    → has_newline t ≡ false
    → (after : Doc) × (set n k (single t) doc ≡ ok after)
      × (get after m j ≡ (if text_eq n m && text_eq k j then some t else get doc m j))
unfolding get
get-set doc n k t w m j thawed there key plain one_line =
    let (s, o, at_section, at_option) = get_in_found (sections doc) n k w there in
    (
      written_doc doc n k t s o thawed at_section at_option,
      set-splice doc n k t s o thawed at_section at_option one_line,
      unfold get in get-written doc n k t s o thawed at_section at_option key plain m j,
    )

splice-frozen :
    (start end : ℕ) (new : List Text) (doc : Doc)
    → doc.frozen ≡ true
    → splice start end new doc ≡ err frozen_document
unfolding splice
splice-frozen start end new doc h = rw h refl

module _ (doc : Doc) (frozen : doc.frozen ≡ true) where
  set_in-frozen : (s : Section) (k : Text) (v : Value) → set_in s k v doc ≡ err frozen_document
  unfolding set_in
  set_in-frozen s k v = elim (Option-cases (find_option k s.options)) [
    | inl e ↦ rw (e, set_in) (splice-frozen _ _ _ doc frozen)
    | inr (o, e) ↦ rw (e, set_in) (splice-frozen _ _ _ doc frozen)
  ]

  set-frozen : (n k : Text) (v : Value) → set n k v doc ≡ err frozen_document
  unfolding set add_section
  set-frozen n k v = elim (Option-cases (find_section n (sections doc))) [
    | inl e ↦ rw (e, set) (rw (e, add_section) (rw (splice-frozen _ _ _ doc frozen) refl))
    | inr (s, e) ↦ rw (e, set) (set_in-frozen s k v)
  ]

  remove_option-frozen :
      (n k : Text)
      → (remove_option n k doc ≡ ok (false, doc)) ⊎ (remove_option n k doc ≡ err frozen_document)
  unfolding remove_option
  remove_option-frozen n k = elim (Option-cases (find_section n (sections doc))) [
    | inl e ↦ inl (rw (e, remove_option) refl)
    | inr (s, e) ↦ elim (Option-cases (find_option k s.options)) [
      | inl f ↦ inl (rw (e, remove_option) (rw f refl))
      | inr (o, f) ↦ inr (rw (e, remove_option) (rw f (rw (splice-frozen _ _ _ doc frozen) refl)))
    ]
  ]

  rename_section-frozen :
      (old new : Text)
      → (rename_section old new doc ≡ ok (false, doc))
        ⊎ (rename_section old new doc ≡ err frozen_document)
  unfolding rename_section
  rename_section-frozen old new = elim (Option-cases (find_section old (sections doc))) [
    | inl e ↦ inl (rw (e, rename_section) refl)
    | inr (s, e) ↦ elim (Bool-cases (is_some (find_section new (sections doc)))) [
      | inl f ↦ inl (rw (e, rename_section) (rw f refl))
      | inr f ↦ inr (rw (e, rename_section) (rw f (rw (splice-frozen _ _ _ doc frozen) refl)))
    ]
  ]

  remove_section-frozen :
      (n : Text)
      → (remove_section n doc ≡ ok (false, doc)) ⊎ (remove_section n doc ≡ err frozen_document)
  unfolding remove_section
  remove_section-frozen n = elim (Option-cases (find_section n (sections doc))) [
    | inl e ↦ inl (rw (e, remove_section) refl)
    | inr (s, e) ↦ inr (rw (e, remove_section) (rw (splice-frozen _ _ _ doc frozen) refl))
  ]

-- Once a document is frozen, `set` always fails with the error of a frozen document, and each edit that may
-- find nothing to do (removing an option, renaming a section, removing a section) either answers false and
-- leaves the document as it is, or fails with that error; `get` still returns what it returned before.
pub edit-freeze :
    (doc : Doc) (n k new : Text) (v : Value)
    → let shared = freeze doc in
      (set n k v shared ≡ err frozen_document)
      × ((remove_option n k shared ≡ ok (false, shared))
          ⊎ (remove_option n k shared ≡ err frozen_document))
      × ((rename_section n new shared ≡ ok (false, shared))
          ⊎ (rename_section n new shared ≡ err frozen_document))
      × ((remove_section n shared ≡ ok (false, shared))
          ⊎ (remove_section n shared ≡ err frozen_document))
      × (get shared n k ≡ get doc n k)
edit-freeze doc n k new v =
    let frozen : (freeze doc).frozen ≡ true = unfold freeze in refl in
    (
      set-frozen (freeze doc) frozen n k v,
      remove_option-frozen (freeze doc) frozen n k,
      rename_section-frozen (freeze doc) frozen n new,
      remove_section-frozen (freeze doc) frozen n,
      unfold freeze get in refl,
    )
