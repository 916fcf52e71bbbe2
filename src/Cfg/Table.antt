-- ===== src/Cfg/Table.antt =====
-- Association lists with a text for a key, in the order of their first entries.
use mathlib.Core.Option
use mcu_updater.Base.{
  ◌≡◌, refl, Bool, true, false, ◌||◌, Option, none, some, is_some, List, [], ◌∷◌, ◌++◌,
  if◌then◌else◌, arith, Bool-cases, inl, inr,
}
use mcu_updater.Base.Text.{Text, text_eq, text_eq_iff}
use mcu_updater.Cfg.Render.{lookup}

module _ {ℓ} {A : Type ℓ} where
  abbrev pub has : List (Text × A) → Text → Bool
  has xs k = is_some (lookup xs k)

  -- An entry is filed unless there is one of its name.
  unfoldable pub file_entry : Option (Text × A) → List (Text × A) → List (Text × A)
  file_entry none xs = xs
  file_entry (some e) xs = if has xs e.0 then xs else xs ++ (e ∷ [])

  -- The values of a key changed.
  unfoldable pub patch : Text → (A → A) → List (Text × A) → List (Text × A)
  patch k f [] = []
  patch k f ((j, a) ∷ xs) = (j, (if text_eq j k then f a else a)) ∷ patch k f xs

  pub lookup-patch :
      (k : Text) (f : A → A) (xs : List (Text × A)) (j : Text)
      → lookup (patch k f xs) j ≡ (if text_eq k j then Option.map f (lookup xs j) else lookup xs j)
  unfolding lookup patch
  lookup-patch k f [] j = ground arith
  lookup-patch k f ((i, a) ∷ xs) j =
      ground (arith, lookup-patch k f xs j, text_eq_iff i j, text_eq_iff i k, text_eq_iff k j)

  pub has-patch :
      (k : Text) (f : A → A) (xs : List (Text × A)) (j : Text) → has (patch k f xs) j ≡ has xs j
  unfolding lookup patch
  has-patch k f [] j = refl
  has-patch k f ((i, a) ∷ xs) j = ground (arith, has-patch k f xs j)

  pub patch-append :
      (k : Text) (f : A → A) (xs ys : List (Text × A))
      → patch k f (xs ++ ys) ≡ patch k f xs ++ patch k f ys
  unfolding patch
  patch-append k f [] ys = refl
  patch-append k f (x ∷ xs) ys = rw (patch-append k f xs ys) refl

  pub patch_absent :
      (k : Text) (f : A → A) (xs : List (Text × A)) → has xs k ≡ false → patch k f xs ≡ xs
  unfolding lookup patch
  patch_absent k f [] h = refl
  patch_absent k f ((i, a) ∷ xs) h =
      let later : has xs k ≡ false = ground (arith, h) in
      ground (arith, patch_absent k f xs later, h)

  -- Filing an entry and changing a key that is there already go in either order.
  pub file_entry-patch :
      (k : Text) (f : A → A) (e : Option (Text × A)) (xs : List (Text × A))
      → has xs k ≡ true
      → file_entry e (patch k f xs) ≡ patch k f (file_entry e xs)
  unfolding file_entry patch
  file_entry-patch k f none xs h = refl
  file_entry-patch k f (some (j, a)) xs h = elim (Bool-cases (has xs j)) [
    | inl there ↦ rw (has-patch k f xs j, there) refl
    | inr absent ↦
        let apart : text_eq j k ≡ false = ground (arith, text_eq_iff j k, h, absent) in
        rw (has-patch k f xs j, absent) (rw (patch-append k f xs ((j, a) ∷ []), apart) refl)
  ]

  pub has-append : (xs ys : List (Text × A)) (k : Text) → has (xs ++ ys) k ≡ (has xs k || has ys k)
  unfolding lookup
  has-append [] ys k = refl
  has-append ((j, a) ∷ xs) ys k = ground (arith, has-append xs ys k)

  pub has-file_entry :
      (e : Option (Text × A)) (xs : List (Text × A)) (k : Text)
      → has xs k ≡ true
      → has (file_entry e xs) k ≡ true
  unfolding file_entry
  has-file_entry none xs k h = h
  has-file_entry (some e) xs k h = let more = has-append xs (e ∷ []) k in ground (arith, more, h)
