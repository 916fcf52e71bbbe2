-- ===== src/Service/Crash.antt =====
-- What the journal of src/mcu_updater/service.py is for: the run may be killed after any event.
use mcu_updater.Base.{
  ℕ, zero, suc, ◌≡◌, refl, ap, Bool, true, false, not, ◌&&◌, inl, inr, some, List, [], ◌∷◌, ◌++◌,
  map, is_empty, String, str_eq_iff, arith, Bool-cases,
}
use mcu_updater.Base.Dict.{contains}
use mcu_updater.Service.Defs.{
  Event, journaled, stopped, started, slept, inside, Host, Outcome, pending, read_journal,
  active_units, start_reversed, restart_all, record_stop, confirm, stop_verify_sleeps, stop_unit,
  stop_each, around, services_stopped,
}
use mcu_updater.Service.Orders.{orders, latest, down, down-start_reversed, orders-inside, IsInside}
use mcu_updater.Service.Outage.{around-history}

abbrev Within : List String → List String → Type 0
Within vs us = (v : String) → contains vs v ≡ true → contains us v ≡ true

module _ {E : Type 0} where
  -- Each unit that is down is named in the journal.
  abbrev pub Safe : List (Event E) → Type 0
  Safe h =
      (u : String)
      → down u h ≡ true
      → (us : List String) × (pending h ≡ some us) × (contains us u ≡ true)

  -- And it was so after every event.
  unfoldable pub Recoverable : List (Event E) → Type 0
  Recoverable [] = Unit
  Recoverable (e ∷ h) = Safe (e ∷ h) × Recoverable h

  -- Nothing is down but units of the journal that is pending.
  abbrev Covered : List String → List (Event E) → Type 0
  Covered us h = (pending h ≡ some us) × ((u : String) → down u h ≡ true → contains us u ≡ true)

  -- The run so far could be recovered at any moment, and still can.
  abbrev Guarded : List String → List (Event E) → Type 0
  Guarded us h = Covered us h × Recoverable h

  Covered-Safe : (us : List String) (h : List (Event E)) → Covered us h → Safe h
  Covered-Safe us h c u d = (us, c.0, c.1 u d)

  guard :
      (us : List String) (e : Event E) (h : List (Event E))
      → Covered us (e ∷ h)
      → Recoverable h
      → Guarded us (e ∷ h)
  unfolding Recoverable
  guard us e h c r = (c, (Covered-Safe us (e ∷ h) c, r))

  module _ (us : List String) (h : List (Event E)) (g : Guarded us h) where
    Guarded-stopped : (v : String) → contains us v ≡ true → Guarded us (stopped v ∷ h)
    unfolding orders pending
    Guarded-stopped v k =
        guard us (stopped v) h
          (g.0.0, λ u d. let before = g.0.1 u in ground (arith, before, k, d, str_eq_iff v u)) g.1

    Guarded-started : (v : String) → Guarded us (started v ∷ h)
    unfolding orders pending
    Guarded-started v =
        guard us (started v) h (g.0.0, λ u d. let before = g.0.1 u in ground (arith, before, d)) g.1

    Guarded-slept : Guarded us (slept ∷ h)
    unfolding orders pending
    Guarded-slept = guard us slept h g.0 g.1

    Guarded-inside : (e : E) → Guarded us (inside e ∷ h)
    unfolding orders pending
    Guarded-inside e = guard us (inside e) h g.0 g.1

  Guarded-confirm :
      (us : List String) (host : Host E) (n : ℕ) (v : String) (h : List (Event E))
      → Guarded us h
      → Guarded us (confirm host n v h).1
  unfolding confirm
  Guarded-confirm us host zero v h g = g
  Guarded-confirm us host (suc n) v h g =
      let later = Guarded-confirm us host n v (slept ∷ h) (Guarded-slept us h g) in
      elim (Bool-cases (host.active h v)) [ inl a ↦ rw a later | inr a ↦ rw a g ]

  Guarded-stop_unit :
      (us : List String) (host : Host E) (verify : Bool) (v : String) (h : List (Event E))
      → contains us v ≡ true
      → Guarded us h
      → Guarded us (stop_unit host verify v h).1
  unfolding stop_unit
  Guarded-stop_unit us host true v h k g =
      Guarded-confirm us host stop_verify_sleeps v (stopped v ∷ h) (Guarded-stopped us h g v k)
  Guarded-stop_unit us host false v h k g = Guarded-stopped us h g v k

  Guarded-stop_each :
      (us : List String) (host : Host E) (verify : Bool) (vs : List String) (h : List (Event E))
      → Within vs us
      → Guarded us h
      → Guarded us (stop_each host verify vs h).1
  unfolding stop_each contains
  Guarded-stop_each us host verify [] h w g = g
  Guarded-stop_each us host verify (v ∷ vs) h w g =
      let own : contains us v ≡ true = w v (ground (arith, str_eq_iff v v)) in
      let one = Guarded-stop_unit us host verify v h own g in
      let later : Within vs us = λ u k. w u (ground (arith, k)) in
      let rest = Guarded-stop_each us host verify vs (stop_unit host verify v h).1 later one in
      elim (Bool-cases (stop_unit host verify v h).0) [ inl a ↦ rw a rest | inr a ↦ rw a one ]

  Guarded-insides :
      (us : List String) (es : List E) (h : List (Event E))
      → Guarded us h
      → Guarded us (map inside es ++ h)
  Guarded-insides us [] h g = g
  Guarded-insides us (e ∷ es) h g =
      Guarded-inside us (map inside es ++ h) (Guarded-insides us es h g) e

  Guarded-start_reversed :
      (us vs : List String) (h : List (Event E)) → Guarded us h → Guarded us (start_reversed vs h)
  unfolding start_reversed
  Guarded-start_reversed us [] h g = g
  Guarded-start_reversed us (v ∷ vs) h g =
      Guarded-started us (start_reversed vs h) (Guarded-start_reversed us vs h g) v

  Guarded-restart_all :
      (us : List String) (h : List (Event E)) → Guarded us h → Recoverable (restart_all us h)
  unfolding restart_all Recoverable orders
  Guarded-restart_all us h g = (
    λ u d.
        let up = down-start_reversed u us h in
        let named = g.0.1 u in absurd (ground (arith, up, named, d)),
    (Guarded-start_reversed us us h g).1,
  )

  -- With nothing to stop, the block runs and a journal is cleared that names nothing.
  pub insides-Recoverable :
      (es : List E) (h : List (Event E))
      → ((u : String) → down u h ≡ false)
      → Recoverable h
      → Recoverable (map inside es ++ h)
  unfolding Recoverable orders
  insides-Recoverable [] h up r = r
  insides-Recoverable (e ∷ es) h up r = (
    λ u d. let p = orders-inside es u h in absurd (cc (ap latest p, d, up u)),
    insides-Recoverable es h up r,
  )

module _ {E A : Type 0} (host : Host E) (verify : Bool) (block : List (Event E) → Outcome E A)
    (inside_only : IsInside block) where
  around-Recoverable :
      (us : List String) (h : List (Event E))
      → ((u : String) → down u h ≡ false)
      → Recoverable h
      → Recoverable (around host verify us block (record_stop us h)).history
  unfolding orders pending read_journal Recoverable stop_each restart_all start_reversed
  around-Recoverable [] h up r =
      let (es, e) = around-history host verify block inside_only [] h in
      rw e (
        λ u d. let p = orders-inside es u h in absurd (cc (ap latest p, d, up u)),
        insides-Recoverable es h up r,
      )
  around-Recoverable (v ∷ vs) h up r =
      let us = v ∷ vs in
      let (es, e) = around-history host verify block inside_only us (journaled us ∷ h) in
      let begun : Guarded us (journaled us ∷ h) =
        guard us (journaled us) h (refl, λ u d. absurd (cc (d, up u))) r in
      let stops = Guarded-stop_each us host verify us (journaled us ∷ h) (λ u k. k) begun in
      rw e (Guarded-restart_all us _ (Guarded-insides us es _ stops))

  pub services_stopped-Recoverable :
      (units : List String) (h : List (Event E))
      → ((u : String) → down u h ≡ false)
      → Recoverable h
      → Recoverable (services_stopped host verify units block h).history
  unfolding services_stopped
  services_stopped-Recoverable units h up r =
      let us = active_units host h units in
      elim (Bool-cases (not (is_empty us) && not (host.writable h))) [
        | inl e ↦ rw e r
        | inr e ↦ rw e (around-Recoverable us h up r)
      ]
