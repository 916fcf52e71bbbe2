-- ===== src/Tracking/Defs.antt =====
-- `add_serial`, `remove_serial` and `remove_type` of src/mcu_updater/tracking.py. A helper's capabilities,
-- the lock and the saving of the registry are parameters.
use mcu_updater.Base.{
  Bool, true, false, not, ◌||◌, Option, none, some, List, [], ◌∷◌, is_empty, if◌then◌else◌,
}
use mcu_updater.Base.Text.{Text, text_eq}
use mcu_updater.Base.Result.{Result, ok, err, ◌>>=◌}
use mcu_updater.Types.Defs.{FirmwareFamily, TypeEntry, Families, family_of}
use mcu_updater.Registry.Defs.{
  Registry, serial, RegistryError, declared, find_declared, get_declared_chipset,
}
use mcu_updater.Registry.Edits.{add_declared, remove_declared, remove_declared_type}

-- TrackVerdict: whether the serial is durable, and whether the remedy is to provision
pub record TrackVerdict : Type 0 where
  pub fine : Bool
  pub remedy : Bool

pub data TrackError : Type 0 where
  undeclared_helper_family unknown_helper : Text → TrackError
  unprovisioned : Text → TrackError
  elsewhere_tracked : Text → Text → List Text → TrackError
  busy not_provisioned : TrackError
  in_registry : RegistryError → TrackError
  not_saved : TrackError
  -- an error after the board was given the serial
  provisioned_but : Text → TrackError → TrackError

-- A helper's Trackable and Provisioner, where it is one
pub record Capabilities : Type 0 where
  pub is_trackable : Option (Text → TrackVerdict)
  pub provision : Option (Text → Result TrackError Text)

abbrev pub no_helper : Capabilities
no_helper = record { is_trackable = none; provision = none }

unfoldable pub declared_entry : List TypeEntry → Text → Option TypeEntry
declared_entry [] name = none
declared_entry (e ∷ es) name =
    let rest = declared_entry es name in if text_eq e.name name then some e else rest

-- _helper_for: the helper of the first family of the type
unfoldable pub helper_for :
    (FirmwareFamily → Result TrackError Capabilities)
    → List TypeEntry
    → Families
    → Text
    → Result TrackError Capabilities
helper_for for_name entries families name = elim (declared_entry entries name) [
  | none ↦ ok no_helper
  | some e ↦ elim e.firmwares [
    | [] ↦ ok no_helper
    | fw ∷ _ ↦ elim (family_of families fw) [
      | none ↦ err (undeclared_helper_family fw)
      | some f ↦ for_name f
    ]
  ]
]

-- [t for t in types if t != name]
unfoldable pub others : Text → List Text → List Text
others name [] = []
others name (t ∷ ts) = let rest = others name ts in if text_eq t name then rest else t ∷ rest

-- _elsewhere_error
unfoldable pub elsewhere : Registry → Text → Text → List Text
elsewhere reg s name = others name (find_declared serial reg.doc (declared reg.doc) s)

pub record Tracked : Type 0 where
  pub added : Bool
  pub chipset : Text
  pub tracked_serial : Text
  pub provisioned_from : Option Text

-- What a call did to boards, and how it ended.
pub record Call : Type 0 where
  pub writes : List Text
  pub outcome : Result TrackError (Tracked × Registry)

abbrev pub lifted : {A : Type 0} → Result RegistryError A → Result TrackError A
lifted (err e) = err (in_registry e)
lifted (ok a) = ok a

-- every serial is durable where nobody judges it
unfoldable pub judge_of : Capabilities → Text → TrackVerdict
judge_of h s = elim h.is_trackable [
  | none ↦ record { fine = true; remedy = false }
  | some judge ↦ judge s
]

abbrev pub refused : Text → Call
refused s = record { writes = []; outcome = err (unprovisioned s) }

module _ (save : Registry → Bool) where
  abbrev pub saved : {A : Type 0} → A × Registry → Result TrackError (A × Registry)
  saved (a, reg) = if save reg then ok (a, reg) else err not_saved

  -- _record
  unfoldable pub record_serial :
      Registry → Text → Text → Result TrackError ((Bool × Text) × Registry)
  record_serial reg name s = do
    chipset ← lifted (get_declared_chipset reg name)
    (if not (is_empty (elsewhere reg s name))
        then err (elsewhere_tracked s name (elsewhere reg s name))
        else do
          added ← lifted (add_declared serial name s reg)
          saved ((added.0, chipset), added.1))

  abbrev pub annotated :
      Option Text
      → Text
      → Result TrackError ((Bool × Text) × Registry)
      → Result TrackError (Tracked × Registry)
  annotated from s (ok ((added, chipset), reg)) = ok (
    record { added = added; chipset = chipset; tracked_serial = s; provisioned_from = from },
    reg,
  )
  annotated none s (err e) = err e
  annotated (some old) s (err e) = err (provisioned_but s e)

  -- the write, once nothing refuses it; `now` is the registry as it is read again to be changed
  unfoldable pub provision_first :
      (Text → Result TrackError Text) → Bool → Registry → Registry → Text → Text → Call
  provision_first provision free before now name s =
      if not (is_empty (elsewhere before s name))
      then record {
        writes = [];
        outcome = err (elsewhere_tracked s name (elsewhere before s name));
      }
      else if not free
      then record { writes = []; outcome = err busy }
      else record {
        writes = s ∷ [];
        outcome = elim (provision s) [
          | err e ↦ err e
          | ok new ↦ annotated (some s) new (record_serial now name new)
        ];
      }

  unfoldable pub add_with : Capabilities → Bool → Bool → Registry → Registry → Text → Text → Call
  add_with h may free before now name s =
      let v = judge_of h s in
      if v.fine
      then record { writes = []; outcome = annotated none s (record_serial now name s) }
      else if not v.remedy || not may
      then refused s
      else elim h.provision [
        | none ↦ refused s
        | some provision ↦ provision_first provision free before now name s
      ]

  unfoldable pub add_serial :
      Result TrackError Capabilities → Bool → Bool → Registry → Registry → Text → Text → Call
  add_serial (err e) may free before now name s = record { writes = []; outcome = err e }
  add_serial (ok h) may free before now name s = add_with h may free before now name s

  unfoldable pub remove_serial : Registry → Text → Text → Result TrackError (Bool × Registry)
  remove_serial reg name s = do
    _ ← lifted (get_declared_chipset reg name)
    removed ← lifted (remove_declared serial name s reg)
    saved removed

  unfoldable pub remove_tracked_type : Registry → Text → Result TrackError (List Text × Registry)
  remove_tracked_type reg name = do removed ← lifted (remove_declared_type name reg); saved removed
