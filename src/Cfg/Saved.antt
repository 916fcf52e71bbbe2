-- ===== src/Cfg/Saved.antt =====
-- A document of src/mcu_updater/cfgdoc.py that is rendered, and read again.
use mcu_updater.Base.{
  ℕ, ◌≡◌, refl, ap, ◌∙◌, Bool, true, false, not, ◌&&◌, ◌||◌, List, [], ◌∷◌, ◌++◌, is_empty, arith,
}
use mathlib.Core.List.{append_assoc}
use mcu_updater.Base.Text.{Text}
use mcu_updater.Cfg.Line.{is_break, lines_from, splitlines}
use mcu_updater.Cfg.Doc.{Doc, of_text, join_lines, ends_with_newline, render}

-- A line without a line break.
unfoldable pub is_unbroken : Text → Bool
is_unbroken [] = true
is_unbroken (c ∷ s) = not (is_break c) && is_unbroken s

-- Lines as a document has them, the last of them not empty.
unfoldable pub are_lines : List Text → Bool
are_lines [] = true
are_lines (l ∷ []) = is_unbroken l && not (is_empty l)
are_lines (l ∷ k ∷ ls) = is_unbroken l && are_lines (k ∷ ls)

-- Every line ended.
unfoldable flat : List Text → Text
flat [] = []
flat (l ∷ ls) = l ++ (b'\n' ∷ flat ls)

lines_from-line :
    (l s : Text)
    → is_unbroken l ≡ true
    → lines_from false (l ++ (b'\n' ∷ s)) ≡ l ∷ lines_from false s
unfolding lines_from is_unbroken
lines_from-line [] s h = refl
lines_from-line (c ∷ l) s h =
    let solid : is_break c ≡ false = ground (arith, h) in
    let others : is_unbroken l ≡ true = ground (arith, h) in
    rw (solid, lines_from-line l s others) refl

ends_with_newline-append :
    (s : Text) (c : ℕ) (t : Text) → ends_with_newline (s ++ (c ∷ t)) ≡ ends_with_newline (c ∷ t)
unfolding ends_with_newline
ends_with_newline-append [] c t = refl
ends_with_newline-append (d ∷ []) c t = refl
ends_with_newline-append (d ∷ e ∷ s) c t = ends_with_newline-append (e ∷ s) c t

unended_line : (l : Text) → is_unbroken l ≡ true → ends_with_newline l ≡ false
unfolding ends_with_newline is_unbroken
unended_line [] h = refl
unended_line (c ∷ []) h = ground (arith, h)
unended_line (c ∷ d ∷ l) h =
    let others : is_unbroken (d ∷ l) ≡ true = unfold is_unbroken in ground (arith, h) in
    unended_line (d ∷ l) others

lines_from-flat : (ls : List Text) → are_lines ls ≡ true → lines_from false (flat ls) ≡ ls
unfolding flat are_lines
lines_from-flat [] h = unfold lines_from in refl
lines_from-flat (l ∷ []) h = lines_from-line l [] (ground (arith, h)) ∙ unfold lines_from in refl
lines_from-flat (l ∷ k ∷ ls) h =
    let this : is_unbroken l ≡ true = ground (arith, h) in
    let others : are_lines (k ∷ ls) ≡ true = unfold are_lines in ground (arith, h) in
    lines_from-line l (flat (k ∷ ls)) this
    ∙ ap {A = List Text} (λ ms. l ∷ ms) (lines_from-flat (k ∷ ls) others)

join-flat : (l : Text) (ls : List Text) → join_lines (l ∷ ls) ++ (b'\n' ∷ []) ≡ flat (l ∷ ls)
unfolding join_lines flat
join-flat l [] = refl
join-flat l (k ∷ ls) =
    append_assoc l (b'\n' ∷ join_lines (k ∷ ls)) (b'\n' ∷ [])
    ∙ ap {A = Text} (λ s. l ++ (b'\n' ∷ s)) (join-flat k ls)

unended_after :
    (l s : Text)
    → (ends_with_newline s || is_empty s) ≡ false
    → (ends_with_newline (l ++ (b'\n' ∷ s)) || is_empty (l ++ (b'\n' ∷ s))) ≡ false
unfolding ends_with_newline
unended_after l [] h = cc h
unended_after l (c ∷ s) h =
    let same = ends_with_newline-append l b'\n' (c ∷ s) in
    let last : ends_with_newline (b'\n' ∷ c ∷ s) ≡ ends_with_newline (c ∷ s) =
      unfold ends_with_newline in refl in
    rw (same, last, full l) (ground (arith, h))
  where
    full : (l : Text) → is_empty (l ++ (b'\n' ∷ c ∷ s)) ≡ false
    full [] = refl
    full (d ∷ l) = refl

-- The last line ends in no line break.
join_unended :
    (l : Text) (ls : List Text)
    → are_lines (l ∷ ls) ≡ true
    → (ends_with_newline (join_lines (l ∷ ls)) || is_empty (join_lines (l ∷ ls))) ≡ false
unfolding join_lines are_lines
join_unended l [] h = let last = unended_line l (ground (arith, h)) in ground (arith, h, last)
join_unended l (k ∷ ls) h =
    let others : are_lines (k ∷ ls) ≡ true = unfold are_lines in ground (arith, h) in
    unended_after l (join_lines (k ∷ ls)) (join_unended k ls others)

-- A document whose lines have no line break in them, and whose last line is not empty, has the same lines
-- when it is read again from the text that it renders to, and the document read is not frozen.
pub of_text-render :
    (doc : Doc)
    → are_lines doc.lines ≡ true
    → of_text (render doc) ≡ record { lines = doc.lines; frozen = false }
unfolding of_text splitlines
of_text-render doc h =
    ap {A = List Text} (λ ls. record { lines = ls; frozen = false }) (saved doc.lines h)
  where
    saved :
        (ls : List Text)
        → are_lines ls ≡ true
        → lines_from false (render (record { lines = ls; frozen = doc.frozen })) ≡ ls
    saved [] h = unfold render join_lines lines_from ends_with_newline in refl
    saved (l ∷ ls) h =
        unfold render in rw (join_unended l ls h, join-flat l ls) (lines_from-flat (l ∷ ls) h)
