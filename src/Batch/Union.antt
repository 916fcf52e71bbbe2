-- ===== src/Batch/Union.antt =====
-- `stop_services_union` of src/mcu_updater/flashers/registry.py: which units the outage names.
use mcu_updater.Base.{
  ◌≡◌, refl, Bool, false, ◌||◌, inl, inr, List, [], ◌∷◌, ◌++◌, String, str_eq, str_eq_iff, arith,
  Bool-cases,
}
use mcu_updater.Base.Dict.{contains}
use mcu_updater.Batch.Groups.{FlashTarget, add_units, union_from, stop_services_union}

-- Some target names the unit.
unfoldable pub asks_for : List FlashTarget → String → Bool
asks_for [] u = false
asks_for (t ∷ ts) u = let rest = asks_for ts u in contains t.stop_services u || rest

-- No unit stands twice.
unfoldable pub IsDistinct : List String → Type 0
IsDistinct [] = Unit
IsDistinct (u ∷ us) = (contains us u ≡ false) × IsDistinct us

contains-snoc :
    (us : List String) (v u : String) → contains (us ++ (v ∷ [])) u ≡ (contains us u || str_eq v u)
unfolding contains
contains-snoc [] v u = ground arith
contains-snoc (w ∷ us) v u = ground (arith, contains-snoc us v u)

IsDistinct-snoc :
    (us : List String) (v : String)
    → contains us v ≡ false
    → IsDistinct us
    → IsDistinct (us ++ (v ∷ []))
unfolding contains IsDistinct
IsDistinct-snoc [] v k d = (refl, tt)
IsDistinct-snoc (w ∷ us) v k d =
    let snoc = contains-snoc us v w in
    (
      ground (arith, snoc, k, d.0, str_eq_iff v w, str_eq_iff w v),
      IsDistinct-snoc us v (ground (arith, k)) d.1,
    )

contains-add_units :
    (seen us : List String) (u : String)
    → contains (add_units seen us) u ≡ (contains seen u || contains us u)
unfolding add_units contains
contains-add_units seen [] u = ground arith
contains-add_units seen (v ∷ us) u = elim (Bool-cases (contains seen v)) [
  | inl k ↦
      let rest = contains-add_units seen us u in rw k (ground (arith, rest, k, str_eq_iff v u))
  | inr k ↦
      let rest = contains-add_units (seen ++ (v ∷ [])) us u in
      let snoc = contains-snoc seen v u in rw k (ground (arith, rest, snoc))
]

IsDistinct-add_units : (seen us : List String) → IsDistinct seen → IsDistinct (add_units seen us)
unfolding add_units
IsDistinct-add_units seen [] d = d
IsDistinct-add_units seen (v ∷ us) d = elim (Bool-cases (contains seen v)) [
  | inl k ↦ rw k (IsDistinct-add_units seen us d)
  | inr k ↦ rw k (IsDistinct-add_units (seen ++ (v ∷ [])) us (IsDistinct-snoc seen v k d))
]

contains-union_from :
    (seen : List String) (ts : List FlashTarget) (u : String)
    → contains (union_from seen ts) u ≡ (contains seen u || asks_for ts u)
unfolding union_from asks_for
contains-union_from seen [] u = ground arith
contains-union_from seen (t ∷ ts) u =
    let rest = contains-union_from (add_units seen t.stop_services) ts u in
    let one = contains-add_units seen t.stop_services u in ground (arith, rest, one)

IsDistinct-union_from :
    (seen : List String) (ts : List FlashTarget) → IsDistinct seen → IsDistinct (union_from seen ts)
unfolding union_from
IsDistinct-union_from seen [] d = d
IsDistinct-union_from seen (t ∷ ts) d =
    IsDistinct-union_from (add_units seen t.stop_services) ts
      (IsDistinct-add_units seen t.stop_services d)

-- The outage of a group names exactly the units that some of its targets asks for, and each once.
pub stop_services_union-IsDistinct :
    (ts : List FlashTarget)
    → IsDistinct (stop_services_union ts)
      × ((u : String) → contains (stop_services_union ts) u ≡ asks_for ts u)
unfolding stop_services_union contains IsDistinct
stop_services_union-IsDistinct ts =
    (IsDistinct-union_from [] ts tt, λ u. contains-union_from [] ts u)
