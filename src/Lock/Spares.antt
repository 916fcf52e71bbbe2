-- ===== src/Lock/Spares.antt =====
-- What a step of one actor of src/mcu_updater/lock.py leaves of the file to another.
use mcu_updater.Base.{
  ℕ, ◌≡◌, refl, sym, true, false, Option, none, some, ◌==◌, arith, ◌⊎◌, inl, inr,
}
use mcu_updater.Lock.Defs.{
  LockFile, Phase, idle, trying, trying_again, locked, emptied, holding, retrying, retrying_again,
  busy, probing, told, again, refused, leaving, looking, clearing, cleared, answered, dead, Call,
  acquire, release, holder, Command, call, next, kill, attempt, unlock, begin, proceed, advance,
}
use mcu_updater.Lock.Kept.{owns, is_owner}

-- What a step of one actor leaves of the file to another.
unfoldable pub Spares : ℕ → ℕ → LockFile → LockFile → Type 0
Spares p q f g =
    (is_owner q g.flock ≡ is_owner q f.flock) × ((g.owner ≡ f.owner) ⊎ (is_owner p f.flock ≡ true))

owner-unlock : (p : ℕ) (f : LockFile) → (unlock p f).owner ≡ f.owner
unfolding unlock
owner-unlock p f = ground arith

module _ (p q : ℕ) (f : LockFile) (apart : (p == q) ≡ false) where
  Spares-unchanged : Spares p q f f
  unfolding Spares
  Spares-unchanged = (refl, inl refl)

  Spares-attempt : (won lost : Phase) → Spares p q f (attempt p f won lost).0
  unfolding Spares attempt is_owner
  Spares-attempt won lost = taken f.flock refl
    where
      taken :
          (o : Option ℕ)
          → f.flock ≡ o
          → Spares p q f
              (elim o as (λ _. LockFile × Phase) [
                | none ↦ (record f { flock = some p }, won)
                | some q ↦ (f, lost)
              ]).0
      taken none e = unfold Spares is_owner in (rw e apart, inl refl)
      taken (some r) e = unfold Spares in (refl, inl refl)

  Spares-unlock : Spares p q f (unlock p f)
  unfolding Spares unlock is_owner
  Spares-unlock = (ground (arith, apart), inl (owner-unlock p f))

  Spares-proceed : (ph : Phase) → owns ph ≡ is_owner p f.flock → Spares p q f (proceed p ph f).0
  unfolding proceed owns Spares
  Spares-proceed idle k = Spares-unchanged
  Spares-proceed (trying l) k = Spares-attempt (locked l) (trying_again l)
  Spares-proceed (trying_again l) k = Spares-attempt (locked l) (refused f.owner)
  Spares-proceed (locked l) k = (refl, inr (sym k))
  Spares-proceed (emptied l) k = (refl, inr (sym k))
  Spares-proceed (holding l) k = Spares-unchanged
  Spares-proceed (again l (retrying m)) k = Spares-attempt (locked m) (again l (retrying_again m))
  Spares-proceed (again l (retrying_again m)) k = Spares-attempt (locked m) (again l (busy f.owner))
  Spares-proceed (again l (busy d)) k = Spares-unchanged
  Spares-proceed (again l (probing d)) k = Spares-attempt clearing (again l (told (some d)))
  Spares-proceed (again l (told d)) k = Spares-unchanged
  Spares-proceed (refused d) k = Spares-unchanged
  Spares-proceed leaving k = Spares-unlock
  Spares-proceed (looking d) k = Spares-attempt clearing (answered (some d))
  Spares-proceed clearing k = (refl, inr (sym k))
  Spares-proceed cleared k = Spares-unlock
  Spares-proceed (answered d) k = Spares-unchanged
  Spares-proceed dead k = Spares-unchanged

  Spares-begin :
      (ph : Phase) (c : Call) → owns ph ≡ is_owner p f.flock → Spares p q f (begin ph c f).0
  unfolding begin owns Spares
  Spares-begin idle (acquire l) k = Spares-unchanged
  Spares-begin idle holder k = Spares-unchanged
  Spares-begin idle release k = Spares-unchanged
  Spares-begin (holding l) release k = (refl, inr (sym k))
  Spares-begin (holding l) (acquire m) k = Spares-unchanged
  Spares-begin (holding l) holder k = Spares-unchanged
  Spares-begin (again l a) c k = Spares-unchanged
  Spares-begin (trying l) c k = Spares-unchanged
  Spares-begin (trying_again l) c k = Spares-unchanged
  Spares-begin (locked l) c k = Spares-unchanged
  Spares-begin (emptied l) c k = Spares-unchanged
  Spares-begin (refused d) c k = Spares-unchanged
  Spares-begin leaving c k = Spares-unchanged
  Spares-begin (looking d) c k = Spares-unchanged
  Spares-begin clearing c k = Spares-unchanged
  Spares-begin cleared c k = Spares-unchanged
  Spares-begin (answered d) c k = Spares-unchanged
  Spares-begin dead c k = Spares-unchanged

  pub Spares-advance :
      (ph : Phase) (c : Command) → owns ph ≡ is_owner p f.flock → Spares p q f (advance p ph c f).0
  unfolding advance
  Spares-advance ph (call c) k = Spares-begin ph c k
  Spares-advance ph next k = Spares-proceed ph k
  Spares-advance ph kill k = Spares-unlock
