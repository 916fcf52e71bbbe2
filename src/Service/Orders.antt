-- ===== src/Service/Orders.antt =====
-- What a history says of a unit: whether the last order it was given was to stop.
use mcu_updater.Base.{
  ℕ, zero, suc, ◌≡◌, refl, Bool, true, false, ◌&&◌, List, [], ◌∷◌, ◌++◌, map, String, str_eq,
  str_eq_iff, if◌then◌else◌, arith,
}
use mcu_updater.Base.Dict.{contains}
use mcu_updater.Service.Defs.{
  Event, left, journaled, cleared, stopped, started, slept, inside, Host, Outcome, pending,
  active_units, start_reversed, confirm, stop_unit, stop_each, stop_verify_sleeps,
}

abbrev pub latest : List Bool → Bool
latest [] = false
latest (b ∷ bs) = b

module _ {E : Type 0} where
  -- The orders that a unit was given, the latest first; true for a stop.
  unfoldable pub orders : String → List (Event E) → List Bool
  orders u [] = []
  orders u (stopped v ∷ h) = let before = orders u h in if str_eq v u then true ∷ before else before
  orders u (started v ∷ h) =
      let before = orders u h in if str_eq v u then false ∷ before else before
  orders u (left file ∷ h) = orders u h
  orders u (journaled us ∷ h) = orders u h
  orders u (cleared ∷ h) = orders u h
  orders u (slept ∷ h) = orders u h
  orders u (inside e ∷ h) = orders u h

  -- The last order was to stop.
  abbrev pub down : String → List (Event E) → Bool
  down u h = latest (orders u h)

  -- A restart of units brings each of them up, and gives no order to another.
  pub down-start_reversed :
      (u : String) (us : List String) (h : List (Event E))
      → down u (start_reversed us h) ≡ (if contains us u then false else down u h)
  unfolding orders start_reversed contains
  down-start_reversed u [] h = refl
  down-start_reversed u (v ∷ us) h = ground (arith, down-start_reversed u us h)

  pub orders-start_reversed :
      (u : String) (us : List String) (h : List (Event E))
      → contains us u ≡ false
      → orders u (start_reversed us h) ≡ orders u h
  unfolding orders start_reversed contains
  orders-start_reversed u [] h k = refl
  orders-start_reversed u (v ∷ us) h k =
      let later : contains us u ≡ false = ground arith in
      ground (arith, orders-start_reversed u us h later)

  pub orders-confirm :
      (host : Host E) (n : ℕ) (v u : String) (h : List (Event E))
      → orders u (confirm host n v h).1 ≡ orders u h
  unfolding orders confirm
  orders-confirm host zero v u h = refl
  orders-confirm host (suc n) v u h = ground (arith, orders-confirm host n v u (slept ∷ h))

  pub orders-stop_unit :
      (host : Host E) (verify : Bool) (v u : String) (h : List (Event E))
      → orders u (stop_unit host verify v h).1
        ≡ (if str_eq v u then true ∷ orders u h else orders u h)
  unfolding orders stop_unit
  orders-stop_unit host true v u h = orders-confirm host stop_verify_sleeps v u (stopped v ∷ h)
  orders-stop_unit host false v u h = refl

  pub orders-stop_each :
      (host : Host E) (verify : Bool) (us : List String) (u : String) (h : List (Event E))
      → contains us u ≡ false
      → orders u (stop_each host verify us h).1 ≡ orders u h
  unfolding stop_each contains
  orders-stop_each host verify [] u h k = refl
  orders-stop_each host verify (v ∷ us) u h k =
      let other : str_eq v u ≡ false = ground arith in
      let later : contains us u ≡ false = ground arith in
      let one = orders-stop_unit host verify v u h in
      let rest = orders-stop_each host verify us u (stop_unit host verify v h).1 later in
      ground (arith, one, rest)

  pub orders-inside :
      (es : List E) (u : String) (h : List (Event E)) → orders u (map inside es ++ h) ≡ orders u h
  unfolding orders
  orders-inside [] u h = refl
  orders-inside (e ∷ es) u h = orders-inside es u h

  pub pending-inside : (es : List E) (h : List (Event E)) → pending (map inside es ++ h) ≡ pending h
  unfolding pending
  pending-inside [] h = refl
  pending-inside (e ∷ es) h = pending-inside es h

  -- The units that are to be stopped are those of the list that are active.
  pub contains-active_units :
      (host : Host E) (h : List (Event E)) (us : List String) (u : String)
      → contains (active_units host h us) u ≡ (contains us u && host.active h u)
  unfolding active_units contains
  contains-active_units host h [] u = refl
  contains-active_units host h (v ∷ us) u =
      ground (arith, contains-active_units host h us u, str_eq_iff v u)

  -- A block that gives no order of its own, and leaves the journal alone.
  unfoldable pub IsInside : {A : Type 0} → (List (Event E) → Outcome E A) → Type 0
  IsInside block = (g : List (Event E)) → (es : List E) × ((block g).history ≡ map inside es ++ g)
