-- ===== src/Tracking/Writes.antt =====
-- When `add_serial` of src/mcu_updater/tracking.py writes to a board.
use mcu_updater.Base.{
  ◌≡◌, refl, Bool, true, false, not, ◌||◌, Option, none, some, [], ◌∷◌, is_empty, ◌⊎◌, inl, inr,
  arith, Bool-cases,
}
use mcu_updater.Base.Text.{Text}
use mcu_updater.Base.Result.{Result, ok}
use mcu_updater.Registry.Defs.{Registry}
use mcu_updater.Tracking.Defs.{
  TrackError, Capabilities, Call, judge_of, elsewhere, refused, provision_first, add_with,
  add_serial,
}

-- The helper refuses the serial and would have it provisioned, the caller allows it, the operation lock is
-- free, and no other type tracks the serial.
unfoldable pub MayWrite : Capabilities → Bool → Bool → Registry → Text → Text → Type 0
MayWrite h may free before name s =
    ((judge_of h s).fine ≡ false)
    × ((judge_of h s).remedy ≡ true)
    × (may ≡ true)
    × (free ≡ true)
    × (is_empty (elsewhere before s name) ≡ true)

unfoldable pub Spared : Text → Type 0 → Call → Type 0
Spared s allowed c = (c.writes ≡ []) ⊎ ((c.writes ≡ s ∷ []) × allowed)

module _ (save : Registry → Bool) (may free : Bool) (before now : Registry) (name s : Text) where
  provision_first-writes :
      (provision : Text → Result TrackError Text)
      → Spared s
          ((is_empty (elsewhere before s name) ≡ true) × (free ≡ true))
          (provision_first save provision free before now name s)
  unfolding Spared provision_first
  provision_first-writes provision = elim (Bool-cases (not (is_empty (elsewhere before s name)))) [
    | inl h ↦ rw h (inl refl)
    | inr h ↦ elim (Bool-cases (not free)) [
      | inl k ↦ rw h (rw k (inl refl))
      | inr k ↦ rw h (rw k (inr (refl, (ground (arith, h), ground (arith, k)))))
    ]
  ]

  provision-writes :
      (o : Option (Text → Result TrackError Text))
      → Spared s
          ((is_empty (elsewhere before s name) ≡ true) × (free ≡ true))
          (elim o as (λ _. Call) [
            | none ↦ refused s
            | some provision ↦ provision_first save provision free before now name s
          ])
  provision-writes none = unfold Spared in inl refl
  provision-writes (some provision) = provision_first-writes provision

  add_with-writes :
      (h : Capabilities)
      → Spared s (MayWrite h may free before name s) (add_with save h may free before now name s)
  unfolding Spared add_with MayWrite
  add_with-writes h = elim (Bool-cases (judge_of h s).fine) [
    | inl f ↦ rw f (inl refl)
    | inr f ↦ elim (Bool-cases (not (judge_of h s).remedy || not may)) [
      | inl r ↦ rw f (rw r (inl refl))
      | inr r ↦
          let remedy : (judge_of h s).remedy ≡ true = ground (arith, r) in
          let allowed : may ≡ true = ground (arith, r) in
          elim (provision-writes h.provision) [
            | inl e ↦ rw f (rw r (inl e))
            | inr (e, (alone, open_lock)) ↦
                rw f (rw r (inr (e, (refl, remedy, allowed, open_lock, alone))))
          ]
    ]
  ]

-- Tracking a serial writes to no board, or to the board of that serial alone; and to that only where its
-- helper refuses the serial and names provisioning as the remedy, the caller allows it, the operation lock
-- is free, and no type but the one it is to be tracked under tracks it already.
pub add_serial-writes :
    (save : Registry → Bool) (h : Capabilities) (may free : Bool) (before now : Registry)
    (name s : Text)
    → let c = add_serial save (ok h) may free before now name s in
      (c.writes ≡ []) ⊎ ((c.writes ≡ s ∷ []) × MayWrite h may free before name s)
unfolding add_serial
add_serial-writes save h may free before now name s =
    unfold Spared in add_with-writes save may free before now name s h
