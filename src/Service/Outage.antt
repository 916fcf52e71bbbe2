-- ===== src/Service/Outage.antt =====
-- What `services_stopped` leaves behind, whatever happened in the block.
use mcu_updater.Base.{
  ◌≡◌, refl, ◌∙◌, ap, ◌⊎◌, Bool, true, false, not, ◌&&◌, inl, inr, List, [], ◌∷◌, ◌++◌, map,
  is_empty, String, arith, Bool-cases, Option-cases,
}
use mcu_updater.Base.Dict.{contains}
use mcu_updater.Base.Result.{ok}
use mcu_updater.Service.Defs.{
  Event, inside, Host, Outcome, active_units, restart_all, record_stop, stop_each, around,
  services_stopped,
}
use mcu_updater.Service.Orders.{
  orders, latest, down, down-start_reversed, orders-start_reversed, orders-stop_each,
  contains-active_units, IsInside,
}

module _ {E A : Type 0} (host : Host E) (verify : Bool) (block : List (Event E) → Outcome E A) where
  -- The restart is the last of it in any case, of what the block has left or of the stops alone.
  around-ending :
      (us : List String) (h : List (Event E))
      → let g = (stop_each host verify us h).1 in
        ((around host verify us block h).history ≡ restart_all us (block g).history)
        ⊎ ((around host verify us block h).history ≡ restart_all us g)
  unfolding around
  around-ending us h = elim (Option-cases (stop_each host verify us h).0) [
    | inl e ↦ inl (rw (e, around) refl)
    | inr (u, e) ↦ inr (rw (e, around) refl)
  ]

  -- What the restart finds, where the block gives no order: the stops, and what the block did.
  pub around-history :
      IsInside block
      → (us : List String) (h : List (Event E))
      → (es : List E) × ((around host verify us block h).history
          ≡ restart_all us (map inside es ++ (stop_each host verify us h).1))
  unfolding IsInside
  around-history inside_only us h = elim (around-ending us h) [
    | inl e ↦
        let (es, p) = inside_only (stop_each host verify us h).1 in (es, e ∙ ap (restart_all us) p)
    | inr e ↦ ([], e)
  ]

  orders-record_stop :
      (us : List String) (u : String) (h : List (Event E))
      → orders u (record_stop us h) ≡ orders u h
  unfolding orders
  orders-record_stop [] u h = refl
  orders-record_stop (v ∷ us) u h = refl

  orders-restart_all :
      (us : List String) (u : String) (h : List (Event E))
      → contains us u ≡ false
      → orders u (restart_all us h) ≡ orders u h
  unfolding restart_all orders
  orders-restart_all us u h k = orders-start_reversed u us h k

  orders-around :
      (us : List String) (u : String) (h : List (Event E))
      → ((g : List (Event E)) → orders u (block g).history ≡ orders u g)
      → contains us u ≡ false
      → orders u (around host verify us block h).history ≡ orders u h
  orders-around us u h none_given k =
      let s = stop_each host verify us h in
      let stops = orders-stop_each host verify us u h k in
      elim (around-ending us h) [
        | inl e ↦ ap (orders u) e ∙ orders-restart_all us u _ k ∙ none_given s.1 ∙ stops
        | inr e ↦ ap (orders u) e ∙ orders-restart_all us u _ k ∙ stops
      ]

  -- A unit that the outage does not stop stays up, if the block keeps it up.
  down-around_other :
      (us : List String) (u : String) (h : List (Event E))
      → ((g : List (Event E)) → down u g ≡ false → down u (block g).history ≡ false)
      → contains us u ≡ false
      → down u h ≡ false
      → down u (around host verify us block h).history ≡ false
  down-around_other us u h keeps k up =
      let s = stop_each host verify us h in
      let stops = ap latest (orders-stop_each host verify us u h k) ∙ up in
      elim (around-ending us h) [
        | inl e ↦ ap (down u) e ∙ ap latest (orders-restart_all us u _ k) ∙ keeps s.1 stops
        | inr e ↦ ap (down u) e ∙ ap latest (orders-restart_all us u _ k) ∙ stops
      ]

  -- A unit that it stops is up in the end, whatever the block did with it.
  down-around :
      (us : List String) (u : String) (h : List (Event E))
      → contains us u ≡ true
      → down u (around host verify us block h).history ≡ false
  unfolding restart_all orders
  down-around us u h k = elim (around-ending us h) [
    | inl e ↦ rw e (rw (down-start_reversed u us _, k) refl)
    | inr e ↦ rw e (rw (down-start_reversed u us _, k) refl)
  ]

  -- A unit that was stopped already, or that the outage does not name, is given no order at all, if the
  -- block gives it none.
  pub services_stopped_leaves :
      (units : List String) (u : String) (h : List (Event E))
      → ((g : List (Event E)) → orders u (block g).history ≡ orders u g)
      → (contains units u && host.active h u) ≡ false
      → orders u (services_stopped host verify units block h).history ≡ orders u h
  unfolding services_stopped
  services_stopped_leaves units u h none_given k =
      let us = active_units host h units in
      let out : contains us u ≡ false = contains-active_units host h units u ∙ k in
      let run = orders-around us u (record_stop us h) none_given out ∙ orders-record_stop us u h in
      ground (arith, run)

  -- No unit is left down that was up before, around a block that does not itself leave the unit down where
  -- it finds it up, as an outage within this one does not: whether the block returns or raises, whether a
  -- unit would not stop or the journal could not be written, the last order to the unit is not a stop, if
  -- it was none when the outage began.
  pub services_stopped-down :
      (units : List String) (u : String) (h : List (Event E))
      → ((g : List (Event E)) → down u g ≡ false → down u (block g).history ≡ false)
      → down u h ≡ false
      → down u (services_stopped host verify units block h).history ≡ false
  unfolding services_stopped
  services_stopped-down units u h keeps up =
      let us = active_units host h units in
      let g = record_stop us h in
      elim (Bool-cases (contains us u)) [
        | inl k ↦ let run = down-around us u g k in ground (arith, run)
        | inr k ↦
            let begun = ap latest (orders-record_stop us u h) ∙ up in
            let run = down-around_other us u g keeps k begun in ground (arith, run)
      ]

-- An outage returns what its block returned.
pub services_stopped_ok :
    {E A : Type 0}
    → (host : Host E) (verify : Bool) (block : List (Event E) → Outcome E A) (units : List String)
      (h : List (Event E)) (a : A)
    → (services_stopped host verify units block h).result ≡ ok a
    → (g : List (Event E)) × ((block g).result ≡ ok a)
unfolding services_stopped around
services_stopped_ok {E = E} host verify block units h a e =
    let us = active_units host h units in
    elim (Bool-cases (not (is_empty us) && not (host.writable h))) [
      | inl w ↦ let k = rw w at e in absurd (cc k)
      | inr w ↦ around_ok us (record_stop us h) (rw w at e)
    ]
  where
    around_ok :
        (us : List String) (g : List (Event E))
        → (around host verify us block g).result ≡ ok a
        → (g' : List (Event E)) × ((block g').result ≡ ok a)
    around_ok us g e = elim (Option-cases (stop_each host verify us g).0) [
      | inl n ↦ ((stop_each host verify us g).1, rw (n, around) at e)
      | inr (u, n) ↦ let k = rw (n, around) at e in absurd (cc k)
    ]
