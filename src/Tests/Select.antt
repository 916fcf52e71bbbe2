-- ===== src/Tests/Select.antt =====
-- A family with two flashers: only the second takes the kind that was staged.
use mcu_updater.Base.{
  ◌≡◌, refl, true, Option, none, some, List, [], ◌∷◌, String, str_eq, if◌then◌else◌,
}
use mcu_updater.Base.Result.{ok}
use mcu_updater.Select.Defs.{
  Artifact, Staged, Candidate, resolve, first_of, first_kind, of_kind, resolve_stop_services,
}
use mcu_updater.Select.First.{Answers, resolve-Answers}

abbrev image : Artifact
image = record { kind = "uf2"; path = "fw.uf2"; sha256 = none }

abbrev staged : Staged
staged = record { fw = "klipper"; artifacts = image ∷ []; fw_sha = none; version = none }

abbrev flasher : String → Option Candidate
flasher name =
    if str_eq name "flashtool"
    then some (record { supports = true; accepts = "bin" ∷ [] })
    else some (record { supports = true; accepts = "bin" ∷ "uf2" ∷ [] })

abbrev names : List String
names = "flashtool" ∷ "bootsel" ∷ []

second : resolve flasher staged names ≡ ok (some ("bootsel", image))
unfolding resolve first_of first_kind of_kind
second = refl

type_level :
    resolve_stop_services {A = String}
      (none ∷ some [] ∷ some ("klipper" ∷ []) ∷ [])
      ("klipper" ∷ [])
    ≡ []
unfolding resolve_stop_services
type_level = refl

resolve-Answers_example : Answers flasher staged names (resolve flasher staged names)
resolve-Answers_example = resolve-Answers flasher staged names
