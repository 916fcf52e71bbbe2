-- ===== src/Registry/Tracking.antt =====
-- What the registry of src/mcu_updater/config.py tracks after an edit.
use mathlib.Core.Path.{subst}
use mcu_updater.Base.{
  ◌≡◌, refl, sym, ap, ◌∙◌, Bool, true, false, Option, none, some, List, [], ◌∷◌, ◌++◌,
  if◌then◌else◌, arith, Bool-cases, inl, inr,
}
use mcu_updater.Base.Text.{Text, text_eq, text_eq_iff}
use mcu_updater.Base.Result.{Result, ok, err, >>=-eq-ok, ok-injective}
use mcu_updater.Cfg.Parse.{has_text}
use mcu_updater.Cfg.Render.{lookup}
use mcu_updater.Registry.Defs.{
  McuType, Registry, Identity, serial, uuid, tracked, retrack, RegistryError, unknown_type,
  get_type, resolve, replace, with_type, add_identity, remove_first, remove_identity,
}

lookup-replace :
    (name : Text) (k m : McuType) (ts : List (Text × McuType))
    → lookup ts name ≡ some k
    → lookup (replace name m ts) name ≡ some m
unfolding lookup replace
lookup-replace name k m [] h = cc h
lookup-replace name k m ((n, j) ∷ ts) h = elim (Bool-cases (text_eq n name)) [
  | inl e ↦ rw e (rw e refl)
  | inr e ↦
      let later : lookup ts name ≡ lookup ((n, j) ∷ ts) name = rw e refl in
      rw e (rw e (lookup-replace name k m ts (later ∙ h)))
]

replace-replace :
    (name : Text) (k m : McuType) (ts : List (Text × McuType))
    → lookup ts name ≡ some k
    → replace name k (replace name m ts) ≡ ts
unfolding lookup replace
replace-replace name k m [] h = refl
replace-replace name k m ((n, j) ∷ ts) h = elim (Bool-cases (text_eq n name)) [
  | inl e ↦
      let this : some j ≡ lookup ((n, j) ∷ ts) name = rw e refl in
      let same : j ≡ k = cc (this ∙ h) in rw e (rw (e, same) refl)
  | inr e ↦
      let later : lookup ts name ≡ lookup ((n, j) ∷ ts) name = rw e refl in
      rw e (rw (e, replace-replace name k m ts (later ∙ h)) refl)
]

tracked-retrack : (i : Identity) (xs : List Text) (m : McuType) → tracked i (retrack i xs m) ≡ xs
unfolding tracked retrack
tracked-retrack serial xs m = refl
tracked-retrack uuid xs m = refl

retrack-retrack :
    (i : Identity) (xs : List Text) (m : McuType) → retrack i (tracked i m) (retrack i xs m) ≡ m
unfolding tracked retrack
retrack-retrack serial xs m = refl
retrack-retrack uuid xs m = refl

has_text-append : (x : Text) (xs : List Text) → has_text x (xs ++ (x ∷ [])) ≡ true
unfolding has_text
has_text-append x [] = rw (text_eq_iff x x).1 refl
has_text-append x (y ∷ ys) = ground (arith, has_text-append x ys)

remove_first-append :
    (x : Text) (xs : List Text) → has_text x xs ≡ false → remove_first x (xs ++ (x ∷ [])) ≡ xs
unfolding has_text remove_first
remove_first-append x [] h = rw (text_eq_iff x x).1 refl
remove_first-append x (y ∷ ys) h =
    let apart : text_eq y x ≡ false = ground (arith, h) in
    let later : has_text x ys ≡ false = ground (arith, h) in
    rw (apart, remove_first-append x ys later) refl

get_type-ok :
    (reg : Registry) (name : Text) (m : McuType)
    → get_type reg name ≡ ok m
    → lookup reg.types name ≡ some m
unfolding get_type
get_type-ok reg name m h = found (lookup reg.types name) refl h
  where
    found :
        (o : Option McuType)
        → lookup reg.types name ≡ o
        → (elim o as (λ _. Result RegistryError McuType) [
          | none ↦ err (unknown_type name)
          | some m ↦ ok m
        ])
          ≡ ok m
        → lookup reg.types name ≡ some m
    found none e h = cc h
    found (some k) e h = e ∙ ap some (ok-injective h)

get_type-some :
    (reg : Registry) (name : Text) (m : McuType)
    → lookup reg.types name ≡ some m
    → get_type reg name ≡ ok m
unfolding get_type
get_type-some reg name m e = rw (e, get_type) refl

-- What an addition that added something did.
added :
    (i : Identity) (name x : Text) (reg after : Registry)
    → add_identity i name x reg ≡ ok (true, after)
    → (m : McuType) × (lookup reg.types name ≡ some m)
      × (has_text x (tracked i m) ≡ false)
      × (after ≡ with_type name (retrack i (tracked i m ++ (x ∷ [])) m) reg)
unfolding add_identity
added i name x reg after h =
    let (m, got, edited) = >>=-eq-ok (get_type reg name) _ h in
    let there = get_type-ok reg name m got in
    let grown = with_type name (retrack i (tracked i m ++ (x ∷ [])) m) reg in
    let unchanged : Bool × Registry = (false, reg) in
    let changed : Bool × Registry = (true, grown) in
    let answer : Bool × Registry = (true, after) in
    let Answer : Type 0 = Result RegistryError (Bool × Registry) in
    let stays : Answer = ok unchanged in
    let grows : Answer = ok changed in
    let answers : Answer = ok answer in
    elim (Bool-cases (has_text x (tracked i m))) [
      | inl k ↦
          let same : stays ≡ answers =
            subst (λ b. (if b then stays else grows) ≡ answers) k edited in
          cc (ap {B = Bool} (λ r. r.0) (ok-injective {E = RegistryError} same))
      | inr k ↦
          let same : grows ≡ answers =
            subst (λ b. (if b then stays else grows) ≡ answers) k edited in
          (m, there, k, sym (ap {B = Registry} (λ r. r.1) (ok-injective {E = RegistryError} same)))
    ]

module _ (i : Identity) (name x : Text) (reg : Registry) (m : McuType)
    (there : lookup reg.types name ≡ some m) (absent : has_text x (tracked i m) ≡ false) where
  abbrev grown_type : McuType
  grown_type = retrack i (tracked i m ++ (x ∷ [])) m

  abbrev grown : Registry
  grown = with_type name grown_type reg

  get_type-grown : get_type grown name ≡ ok grown_type
  get_type-grown =
      get_type-some grown name grown_type (lookup-replace name m grown_type reg.types there)

  tracked-grown : tracked i grown_type ≡ tracked i m ++ (x ∷ [])
  tracked-grown = tracked-retrack i (tracked i m ++ (x ∷ [])) m

  resolve-grown : resolve i grown x (some name) ≡ ok name
  unfolding resolve
  resolve-grown = rw (get_type-grown) (rw (tracked-grown, has_text-append x (tracked i m)) refl)

  remove-grown : remove_identity i name x grown ≡ ok (true, reg)
  unfolding remove_identity
  remove-grown = rw (get_type-grown) (
      rw
        (tracked-grown, has_text-append x (tracked i m), remove_first-append x (tracked i m) absent)
        (rw
          (
            retrack-retrack i (tracked i m ++ (x ∷ [])) m,
            replace-replace name m grown_type reg.types there,
          )
          refl))

-- When a serial or a CAN uuid is added to a type that the registry holds and was not there before, it then
-- resolves to that type when the type is asked for, and removing it again says that it was there and gives
-- back the very registry from before.
pub resolve-add_identity :
    (i : Identity) (name x : Text) (reg after : Registry)
    → add_identity i name x reg ≡ ok (true, after)
    → (resolve i after x (some name) ≡ ok name) × (remove_identity i name x after ≡ ok (true, reg))
resolve-add_identity i name x reg after h =
    let (m, there, absent, same) = added i name x reg after h in
    rw same (resolve-grown i name x reg m there absent, remove-grown i name x reg m there absent)
