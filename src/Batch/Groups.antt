-- ===== src/Batch/Groups.antt =====
-- FlashTarget of src/mcu_updater/flashers/spec.py, and the grouping of flashers/registry.py.
use mcu_updater.Base.{Bool, Option, none, some, List, [], ◌∷◌, ◌++◌, String, str_eq, if◌then◌else◌}
use mcu_updater.Base.Dict.{Dict, contains}

-- `detail` and `artifact` are the flasher's own and stay with it.
pub record FlashTarget : Type 0 where
  pub flasher : String
  pub mcu_type : String
  pub id : String
  pub stop_services : List String
  pub needs_stopped : Option Bool

-- needs_services_stopped; `own` is the flasher's answer, by its name
unfoldable pub needs_services_stopped : (String → Bool) → FlashTarget → Bool
needs_services_stopped own t = elim t.needs_stopped [ none ↦ own t.flasher | some b ↦ b ]

-- group_by_stop: those that need the services stopped, and those that do not
unfoldable pub group_by_stop :
    (String → Bool) → List FlashTarget → List FlashTarget × List FlashTarget
group_by_stop own [] = ([], [])
group_by_stop own (t ∷ ts) =
    let g = group_by_stop own ts in
    if needs_services_stopped own t then (t ∷ g.0, g.1) else (g.0, t ∷ g.1)

-- seen.setdefault(unit, None), for each unit
unfoldable pub add_units : List String → List String → List String
add_units seen [] = seen
add_units seen (u ∷ us) = add_units (if contains seen u then seen else seen ++ (u ∷ [])) us

unfoldable pub union_from : List String → List FlashTarget → List String
union_from seen [] = seen
union_from seen (t ∷ ts) = union_from (add_units seen t.stop_services) ts

unfoldable pub stop_services_union : List FlashTarget → List String
stop_services_union ts = union_from [] ts

-- groups[target.flasher].append(target): the list `order` and the dict `groups` are one dict, which
-- keeps the order of its first keys
unfoldable pub file_target : FlashTarget → Dict (List FlashTarget) → Dict (List FlashTarget)
file_target t [] = (t.flasher, t ∷ []) ∷ []
file_target t ((name, mine) ∷ groups) =
    let rest = file_target t groups in
    if str_eq name t.flasher then (name, mine ++ (t ∷ [])) ∷ groups else (name, mine) ∷ rest

unfoldable pub group_from : Dict (List FlashTarget) → List FlashTarget → Dict (List FlashTarget)
group_from groups [] = groups
group_from groups (t ∷ ts) = group_from (file_target t groups) ts

-- by_flasher, with the flashers' names
unfoldable pub by_flasher : List FlashTarget → Dict (List FlashTarget)
by_flasher ts = group_from [] ts
