-- ===== src/Batch/Accounts.antt =====
-- Every device of a batch is accounted for.
use mathlib.Core.Path.{subst}
use mathlib.Core.List.{Perm, perm_append_comm, append_assoc, append-nil, map-append}
use mathlib.Core.List.Perm
use mcu_updater.Base.{
  suc, ◌+◌, ◌≡◌, refl, ap, sym, ◌∙◌, List, [], ◌∷◌, ◌++◌, map, length, length-append, String,
  Bool-cases, inl, inr, arith,
}
use mcu_updater.Base.Dict.{Dict, remove}
use mcu_updater.Base.Result.{Result, ok, err, Result-cases, ok-injective}
use mcu_updater.Service.Defs.{Exc}
use mcu_updater.Batch.Prog.{Prog, pure, raise, tell, ◌>>=◌}
use mcu_updater.Batch.Groups.{FlashTarget}
use mcu_updater.Batch.Defs.{
  Bench, Flasher, Report, History, BatchEvent, Failure, failure, is_updater_error, keep, give_up,
  write_target, write_targets,
}

abbrev pub devices {ℓ} : {A : Type ℓ} → List (FlashTarget × A) → List FlashTarget
devices = map (λ p. p.0)

abbrev pub write_failures : List (FlashTarget × Exc) → List Failure
write_failures = map (λ p. failure p.0 p.1)

-- A report that extends another one by the devices of a list, each once: written, or failed.
pub record Accounts (before : Report) (ts : List FlashTarget) (after : Report) : Type 0 where
  pub written : List (FlashTarget × Dict String)
  pub broken : List (FlashTarget × Exc)
  pub flashed : after.flashed ≡ before.flashed ++ written
  pub failures : after.failures ≡ before.failures ++ write_failures broken
  pub each : Perm (devices written ++ devices broken) ts
  pub counted : after.done ≡ before.done + length written + length broken

-- A step that accounts for the devices of a list, whenever it returns.
abbrev pub Does : List FlashTarget → (Report → Prog BatchEvent Report) → Type 0
Does ts step = (r r' : Report) (h : History) → (step r h).result ≡ ok r' → Accounts r ts r'

pub >>=-ok :
    {A B : Type 0}
    → (p : Prog BatchEvent A) (f : A → Prog BatchEvent B) (h : History) (b : B)
    → ((p >>= f) h).result ≡ ok b
    → (a : A) × ((p h).result ≡ ok a) × ((f a (p h).history).result ≡ ok b)
unfolding ◌>>=◌
>>=-ok p f h b e = elim (Result-cases (p h).result) [
  | inl (x, r) ↦ absurd (let k = rw (r, ◌>>=◌) at e in cc k)
  | inr (a, r) ↦ (a, r, rw (r, ◌>>=◌) at e)
]

swap_middle :
    {A : Type 0}
    → (xs bs cs ds : List A) → Perm ((xs ++ bs) ++ (cs ++ ds)) ((xs ++ cs) ++ (bs ++ ds))
swap_middle xs bs cs ds =
    let inner : Perm (bs ++ (cs ++ ds)) (cs ++ (bs ++ ds)) =
      rw (← append_assoc bs cs ds, ← append_assoc cs bs ds)
        (Perm.append_right ds (perm_append_comm bs cs)) in
    rw (append_assoc xs bs (cs ++ ds), append_assoc xs cs (bs ++ ds)) (Perm.append_left xs inner)

pub Accounts-join :
    (r r' r'' : Report) (ts us : List FlashTarget)
    → Accounts r ts r'
    → Accounts r' us r''
    → Accounts r (ts ++ us) r''
Accounts-join r r' r'' ts us a b = record {
  written = a.written ++ b.written;
  broken = a.broken ++ b.broken;
  flashed =
      b.flashed ∙ ap (λ l. l ++ b.written) a.flashed ∙ append_assoc r.flashed a.written b.written;
  failures = rw (map-append (λ p. failure p.0 p.1) a.broken b.broken) (
      b.failures
      ∙ ap (λ l. l ++ write_failures b.broken) a.failures
      ∙ append_assoc r.failures (write_failures a.broken) (write_failures b.broken));
  each =
      rw (map-append (λ p. p.0) a.written b.written, map-append (λ p. p.0) a.broken b.broken)
        (Perm.trans
          (swap_middle (devices a.written) (devices b.written) (devices a.broken)
            (devices b.broken))
          (Perm.append a.each b.each));
  counted = omega (
    arith,
    length-append a.written b.written,
    length-append a.broken b.broken,
    a.counted,
    b.counted,
  );
}

pub Accounts-nothing : (r : Report) → Accounts r [] r
Accounts-nothing r = record {
  written = [];
  broken = [];
  flashed = sym (append-nil r.flashed);
  failures = sym (append-nil r.failures);
  each = Perm.refl [];
  counted = omega arith;
}

Accounts-written :
    (r : Report) (t : FlashTarget) (extra : Dict String)
    → Accounts r (t ∷ []) (record {
      flashed = r.flashed ++ ((t, extra) ∷ []);
      failures = r.failures;
      done = suc r.done;
    })
Accounts-written r t extra = record {
  written = (t, extra) ∷ [];
  broken = [];
  flashed = refl;
  failures = sym (append-nil r.failures);
  each = Perm.refl (t ∷ []);
  counted = omega arith;
}

Accounts-broken :
    (r : Report) (t : FlashTarget) (x : Exc)
    → Accounts r (t ∷ []) (record {
      flashed = r.flashed;
      failures = r.failures ++ (failure t x ∷ []);
      done = suc r.done;
    })
Accounts-broken r t x = record {
  written = [];
  broken = (t, x) ∷ [];
  flashed = sym (append-nil r.flashed);
  failures = refl;
  each = Perm.refl (t ∷ []);
  counted = omega arith;
}

module _ (bench : Bench) (flasher : Flasher) where
  keep-Accounts :
      (t : FlashTarget) (extra : Dict String) → Does (t ∷ []) (λ r. keep bench flasher t r extra)
  unfolding keep pure
  keep-Accounts t extra r r' h e =
      let (_, _, e1) = >>=-ok (tell _) _ h r' e in
      let (_, _, e2) = >>=-ok _ _ _ r' e1 in
      let (_, _, e3) = >>=-ok _ _ _ r' e2 in
      subst (Accounts r (t ∷ [])) (ok-injective e3)
        (Accounts-written r t (remove extra "confidence"))

  give_up-Accounts : (t : FlashTarget) (x : Exc) → Does (t ∷ []) (λ r. give_up t r x)
  unfolding give_up pure raise
  give_up-Accounts t x r r' h e = elim (Bool-cases (is_updater_error x)) [
    | inl u ↦
        let (_, _, e1) = >>=-ok (tell _) _ h r' (rw u at e) in
        subst (Accounts r (t ∷ [])) (ok-injective e1) (Accounts-broken r t x)
    | inr u ↦ let k = rw u at e in absurd (cc k)
  ]

  write_target-Accounts : (t : FlashTarget) → Does (t ∷ []) (write_target bench flasher t)
  unfolding write_target
  write_target-Accounts t r r' h e =
      let (_, _, e1) = >>=-ok _ _ h r' e in
      let (_, _, e2) = >>=-ok (tell _) _ _ r' e1 in
      let (answer, _, e3) = >>=-ok _ _ _ r' e2 in answered answer _ e3
    where
      answered :
          (answer : Result Exc (Dict String)) (g : History)
          → (elim answer as (λ _. Prog BatchEvent Report) [
            | ok extra ↦ keep bench flasher t r extra
            | err x ↦ give_up t r x
          ]
              g).result
            ≡ ok r'
          → Accounts r (t ∷ []) r'
      answered (ok extra) g k = keep-Accounts t extra r r' g k
      answered (err x) g k = give_up-Accounts t x r r' g k

  pub write_targets-Accounts : (ts : List FlashTarget) → Does ts (write_targets bench flasher ts)
  unfolding write_targets pure
  write_targets-Accounts [] r r' h e = subst (Accounts r []) (ok-injective e) (Accounts-nothing r)
  write_targets-Accounts (t ∷ ts) r r' h e =
      let (m, e1, e2) =
        >>=-ok (write_target bench flasher t r) (write_targets bench flasher ts) h r' e in
      Accounts-join r m r' (t ∷ []) ts (write_target-Accounts t r m h e1)
        (write_targets-Accounts ts m r' _ e2)
