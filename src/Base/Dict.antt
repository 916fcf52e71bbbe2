-- ===== src/Base/Dict.antt =====
-- Python's `dict` with string keys, in insertion order: a key that is there keeps its place.
use Prim.Native.String.{String}
use mathlib.Core.Path.{◌≡◌, refl}
use mathlib.Core.Option.{Option, none, some}
use mathlib.Core.List.{List, [], ◌∷◌}
use native.Mathlib.Omega.{arith}
use text.Mathlib.Text.{◌==◌}
use text.Mathlib.TextEquality.{eq_iff}
use mathlib.Core.Bool.{Bool, false, ◌||◌}
use mcu_updater.Base.Tests.{if◌then◌else◌}

-- k in ks
unfoldable pub contains : List String → String → Bool
contains [] k = false
contains (x ∷ xs) k = x == k || contains xs k

abbrev pub Dict {ℓ} : Type ℓ → Type ℓ
Dict V = List (String × V)

module _ {ℓ} {V : Type ℓ} where
  -- d.get(k)
  unfoldable pub get : Dict V → String → Option V
  get [] k = none
  get ((j, v) ∷ d) k = let rest = get d k in if j == k then some v else rest

  -- d[k] = v
  unfoldable pub put : Dict V → String → V → Dict V
  put [] k v = (k, v) ∷ []
  put ((j, w) ∷ d) k v = let rest = put d k v in if j == k then (j, v) ∷ d else (j, w) ∷ rest

  -- d.pop(k, None)
  unfoldable pub remove : Dict V → String → Dict V
  remove [] k = []
  remove ((j, w) ∷ d) k = let rest = remove d k in if j == k then rest else (j, w) ∷ rest

  pub get-put :
      (entries : Dict V) (key asked : String) (value : V)
      → get (put entries key value) asked ≡ (if key == asked then some value else get entries asked)
  unfolding get put
  get-put [] key asked value = refl
  get-put ((i, w) ∷ entries) key asked value =
      ground
        (arith, get-put entries key asked value, eq_iff i key, eq_iff i asked, eq_iff key asked)

  pub get-remove :
      (entries : Dict V) (key asked : String)
      → get (remove entries key) asked ≡ (if key == asked then none else get entries asked)
  unfolding get remove
  get-remove [] key asked = ground arith
  get-remove ((i, w) ∷ entries) key asked =
      ground (arith, get-remove entries key asked, eq_iff i key, eq_iff i asked, eq_iff key asked)

pub ruleset store_laws = (get-put, get-remove)
