-- ===== src/Batch/Prog.antt =====
-- A step of a run: it answers or raises, and leaves a history.
use mcu_updater.Base.{List, ◌∷◌}
use mcu_updater.Base.Result.{Result, ok, err}
use mcu_updater.Service.Defs.{Event, inside, Exc, Outcome}

abbrev pub Prog : Type 0 → Type 0 → Type 0
Prog E A = List (Event E) → Outcome E A

module _ {E : Type 0} where
  unfoldable pub pure : {A : Type 0} → A → Prog E A
  pure a h = record { result = ok a; history = h }

  unfoldable pub raise : {A : Type 0} → Exc → Prog E A
  raise e h = record { result = err e; history = h }

  -- What was done is noted.
  unfoldable pub tell : E → Prog E (Unit {0})
  tell e h = record { result = ok tt; history = inside e ∷ h }

  -- Code outside the model answers.
  unfoldable pub ask : {A : Type 0} → (List (Event E) → Result Exc A) → Prog E A
  ask f h = record { result = f h; history = h }

  abbrev after : {A B : Type 0} → Outcome E A → (A → Prog E B) → Outcome E B
  after o f = elim o.result [
    | ok a ↦ f a o.history
    | err e ↦ record { result = err e; history = o.history }
  ]

  infixl 5 ◌>>=◌
  unfoldable pub ◌>>=◌ : {A B : Type 0} → Prog E A → (A → Prog E B) → Prog E B
  p >>= f = λ h. after (p h) f

  -- A context manager around a block: its exit runs whatever happened, and what the exit raises
  -- takes the place of what the block did.
  unfoldable pub ending :
      {A : Type 0} → (List (Event E) → Result Exc (Unit {0})) → Prog E A → Prog E A
  ending exit p = λ h.
      let o = p h in
      elim (exit o.history) [ ok _ ↦ o | err e ↦ record { result = err e; history = o.history } ]
