-- ===== src/Service/Reconcile.antt =====
-- `reconcile` of src/mcu_updater/service.py, on the journal that a killed run left.
use mcu_updater.Base.{
  ℕ, zero, suc, ◌≡◌, refl, Bool, true, false, ◌⊎◌, ◌+◌, ◌≤◌, length, inl, inr, some, List, [], ◌∷◌,
  drop, String, str_eq, str_eq_iff, arith, Bool-cases,
}
use mcu_updater.Base.Dict.{contains}
use mcu_updater.Service.Defs.{
  Event, started, cleared, Host, Outcome, pending, services_stopped, start_inactive, reconcile,
}
use mcu_updater.Service.Orders.{orders, down, IsInside}
use mcu_updater.Service.Crash.{Safe, Recoverable, services_stopped-Recoverable}

module _ {E : Type 0} (host : Host E) where
  -- The unit was last told to start, or was found running at some moment since.
  abbrev pub IsBack : List (Event E) → String → List (Event E) → Type 0
  IsBack since u h =
      (down u h ≡ false)
      ⊎ ((n : ℕ) × (length since + n ≤ length h) × (host.active (drop n h) u ≡ true))

  IsBack-start :
      (since : List (Event E)) (u v : String) (h : List (Event E))
      → IsBack since u h
      → IsBack since u (started v ∷ h)
  unfolding orders
  IsBack-start since u v h (inl e) = inl (ground (arith, e))
  IsBack-start since u v h (inr (n, le, a)) = inr (suc n, omega arith, a)

  le-start_inactive :
      (us : List String) (h : List (Event E)) → length h ≤ length (start_inactive host us h)
  unfolding start_inactive
  le-start_inactive [] h = omega arith
  le-start_inactive (v ∷ us) h =
      let le = le-start_inactive us h in
      elim (Bool-cases (host.active (start_inactive host us h) v)) [
        | inl a ↦ rw a le
        | inr a ↦ rw a (omega arith)
      ]

  start_inactive-IsBack :
      (us : List String) (u : String) (h : List (Event E))
      → contains us u ≡ true
      → IsBack h u (start_inactive host us h)
  unfolding start_inactive contains orders
  start_inactive-IsBack [] u h k = cc
  start_inactive-IsBack (v ∷ us) u h k =
      let g = start_inactive host us h in
      let le = le-start_inactive us h in
      elim (Bool-cases (str_eq v u)) [
        | inl same ↦
            let e : v ≡ u = (str_eq_iff v u).0 same in
            elim (Bool-cases (host.active g v)) [
              | inl a ↦ rw a (inr (0, omega arith, cc (a, e)))
              | inr a ↦ rw a (inl (ground (arith, same)))
            ]
        | inr other ↦
            let before = start_inactive-IsBack us u h (ground (arith, k, other)) in
            elim (Bool-cases (host.active g v)) [
              | inl a ↦ rw a before
              | inr a ↦ rw a (IsBack-start h u v g before)
            ]
      ]

  reconcile-pending :
      (h : List (Event E)) (us : List String)
      → pending h ≡ some us
      → (reconcile host h).1 ≡ cleared ∷ start_inactive host us h
  unfolding reconcile
  reconcile-pending h us p = rw (p, reconcile) refl

  reconcile-IsBack :
      (h : List (Event E)) (us : List String) (u : String)
      → pending h ≡ some us
      → contains us u ≡ true
      → IsBack h u (reconcile host h).1
  unfolding orders
  reconcile-IsBack h us u p k =
      rw (reconcile-pending h us p) (elim (start_inactive-IsBack us u h k) [
        | inl e ↦ inl e
        | inr (n, le, a) ↦ inr (suc n, omega arith, a)
      ])

Recoverable-drop : {E : Type 0} → (n : ℕ) (h : List (Event E)) → Recoverable h → Safe (drop n h)
unfolding Recoverable orders
Recoverable-drop zero [] r = λ u d. cc
Recoverable-drop zero (e ∷ h) r = r.0
Recoverable-drop (suc n) [] r = λ u d. cc
Recoverable-drop (suc n) (e ∷ h) r = Recoverable-drop n h r.1

-- After any event of a history that could be made good at each moment.
pub reconcile-Recoverable :
    {E : Type 0}
    → (host : Host E) (h : List (Event E)) (n : ℕ) (u : String) → Recoverable h
    → down u (drop n h) ≡ true
    → IsBack host (drop n h) u (reconcile host (drop n h)).1
reconcile-Recoverable host h n u all d =
    let (us, p, k) = Recoverable-drop n h all u d in reconcile-IsBack host (drop n h) us u p k

module _ {E A : Type 0} (host : Host E) (verify : Bool) (block : List (Event E) → Outcome E A)
    (inside_only : IsInside block) where
  -- An outage that is killed after any of its events is made good at the next start: each unit that was
  -- down at that moment is started by `reconcile`, or `reconcile` found it running. The block may do
  -- anything but give orders to units or touch the journal, so that an outage within it is not covered; the
  -- outage has to begin with no unit down by earlier orders, and with a history that could be made good at
  -- each moment.
  pub reconcile-services_stopped :
      (units : List String) (h : List (Event E)) (n : ℕ) (u : String)
      → ((v : String) → down v h ≡ false)
      → Recoverable h
      → let killed = drop n (services_stopped host verify units block h).history in
        down u killed ≡ true → IsBack host killed u (reconcile host killed).1
  reconcile-services_stopped units h n u up r d =
      reconcile-Recoverable host _ n u
        (services_stopped-Recoverable host verify block inside_only units h up r) d
