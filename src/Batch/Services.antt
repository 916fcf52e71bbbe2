-- ===== src/Batch/Services.antt =====
-- The services, after a batch of src/mcu_updater/flashers/batch.py.
use mcu_updater.Base.{
  ◌≡◌, ap, ◌∙◌, true, false, not, ℕ, drop, List, is_empty, String, Bool-cases, inl, inr,
}
use mcu_updater.Base.Result.{Result-cases}
use mcu_updater.Service.Defs.{reconcile}
use mcu_updater.Service.Orders.{latest, down, orders-inside, IsInside}
use mcu_updater.Service.Outage.{services_stopped-down}
use mcu_updater.Service.Crash.{Recoverable, insides-Recoverable, services_stopped-Recoverable}
use mcu_updater.Service.Reconcile.{IsBack, reconcile-Recoverable}
use mcu_updater.Batch.Prog.{Prog, pure, raise, ◌>>=◌}
use mcu_updater.Batch.Groups.{FlashTarget, group_by_stop, stop_services_union}
use mcu_updater.Batch.Defs.{
  Bench, Report, History, BatchEvent, write_group, write_stopped, write_all, begin, own_stops,
  all_answered,
}
use mcu_updater.Batch.Trace.{write_group-IsInside}

IsInside-down :
    {A : Type 0}
    → (p : Prog BatchEvent A) (u : String) (h : History) → IsInside p
    → down u (p h).history ≡ down u h
unfolding IsInside
IsInside-down p u h i = let (es, e) = i h in rw e (ap latest (orders-inside es u h))

module _ (bench : Bench) (u : String) where
  write_stopped-down :
      (stopped : List FlashTarget) (r : Report) (h : History)
      → down u h ≡ false
      → down u (write_stopped bench stopped r h).history ≡ false
  unfolding write_stopped pure
  write_stopped-down stopped r h up = elim (Bool-cases (is_empty stopped)) [
    | inl e ↦ rw e up
    | inr e ↦ rw e (
        services_stopped-down bench.host true (write_group bench stopped r)
          (stop_services_union stopped) u h
          (λ g k.
            IsInside-down (write_group bench stopped r) u g (write_group-IsInside bench stopped r)
            ∙ k)
          up)
  ]

  >>=-down :
      {A B : Type 0}
      → (p : Prog BatchEvent A) (f : A → Prog BatchEvent B) (h : History)
      → down u (p h).history ≡ false
      → ((a : A) (g : History) → down u g ≡ false → down u (f a g).history ≡ false)
      → down u ((p >>= f) h).history ≡ false
  unfolding ◌>>=◌
  >>=-down p f h up later = elim (Result-cases (p h).result) [
    | inl (e, r) ↦ rw (r, ◌>>=◌) up
    | inr (a, r) ↦ rw (r, ◌>>=◌) (later a (p h).history up)
  ]

  -- No batch leaves a unit down that was up before it, however it ends: cancelled between two devices,
  -- after failed writes, with a unit that would not stop, or by an exception of a flasher.
  pub write_all-down :
      (targets : List FlashTarget) (refused : List String) (h : History)
      → down u h ≡ false
      → down u (write_all bench targets refused h).history ≡ false
  unfolding write_all raise
  write_all-down targets refused h up =
      let groups = group_by_stop (own_stops bench) targets in
      elim (Bool-cases (not (all_answered bench targets))) [
        | inl e ↦ rw e up
        | inr e ↦ rw e (
            >>=-down (write_group bench groups.1 (begin refused)) (write_stopped bench groups.0) h
              (IsInside-down (write_group bench groups.1 (begin refused)) u h
                  (write_group-IsInside bench groups.1 (begin refused))
                ∙ up)
              (write_stopped-down groups.0))
      ]

-- No unit is down, and the history could be made good at each moment.
abbrev pub IsSettled : History → Type 0
IsSettled h = ((u : String) → down u h ≡ false) × Recoverable h

module _ (bench : Bench) where
  IsInside-IsSettled :
      {A : Type 0}
      → (p : Prog BatchEvent A) (h : History) → IsInside p
      → IsSettled h
      → IsSettled (p h).history
  unfolding IsInside
  IsInside-IsSettled p h i (up, r) =
      let (es, e) = i h in (λ u. IsInside-down p u h i ∙ up u, rw e (insides-Recoverable es h up r))

  write_stopped-Recoverable :
      (stopped : List FlashTarget) (r : Report) (h : History)
      → IsSettled h
      → Recoverable (write_stopped bench stopped r h).history
  unfolding write_stopped pure
  write_stopped-Recoverable stopped r h s = elim (Bool-cases (is_empty stopped)) [
    | inl e ↦ rw e s.1
    | inr e ↦ rw e (
        services_stopped-Recoverable bench.host true (write_group bench stopped r)
          (write_group-IsInside bench stopped r) (stop_services_union stopped) h s.0 s.1)
  ]

  write_all-Recoverable :
      (targets : List FlashTarget) (refused : List String) (h : History)
      → IsSettled h
      → Recoverable (write_all bench targets refused h).history
  unfolding write_all raise ◌>>=◌
  write_all-Recoverable targets refused h s =
      let groups = group_by_stop (own_stops bench) targets in
      let p = write_group bench groups.1 (begin refused) in
      let t = IsInside-IsSettled p h (write_group-IsInside bench groups.1 (begin refused)) s in
      elim (Bool-cases (not (all_answered bench targets))) [
        | inl e ↦ rw e s.1
        | inr e ↦ elim (Result-cases (p h).result) [
          | inl (x, q) ↦ rw (e, q) t.1
          | inr (a, q) ↦ rw (e, q) (write_stopped-Recoverable groups.0 a (p h).history t)
        ]
      ]

  -- A batch that is killed after any of its events is made good at the next start: each unit that it has
  -- left down is started by `reconcile`, or `reconcile` found it running. The batch has to begin with no
  -- unit down and with a history that could be made good at each moment.
  pub reconcile-write_all :
      (targets : List FlashTarget) (refused : List String) (h : History) (n : ℕ) (u : String)
      → IsSettled h
      → let killed = drop n (write_all bench targets refused h).history in
        down u killed ≡ true → IsBack bench.host killed u (reconcile bench.host killed).1
  reconcile-write_all targets refused h n u s d =
      reconcile-Recoverable bench.host _ n u (write_all-Recoverable targets refused h s) d
