-- ===== src/Lock/Kept.antt =====
-- What every step of src/mcu_updater/lock.py keeps: who is past its flock has it, and who holds the lock
-- is named in the file.
use mcu_updater.Base.{
  ℕ, ◌≡◌, refl, sym, ◌∙◌, Bool, true, false, Option, none, some, ◌==◌, ==_iff, arith,
}
use mcu_updater.Base.Text.{Text}
use mcu_updater.Lock.Defs.{
  Owner, LockFile, Phase, idle, trying, trying_again, locked, emptied, holding, Again, retrying,
  retrying_again, busy, probing, told, again, refused, leaving, looking, clearing, cleared,
  answered, dead, Call, acquire, release, holder, Command, call, next, kill, attempt, unlock, look,
  begin, proceed, advance,
}

-- Where the flock is taken.
unfoldable pub owns : Phase → Bool
owns (locked l) = true
owns (emptied l) = true
owns (holding l) = true
owns (again l a) = true
owns leaving = true
owns clearing = true
owns cleared = true
owns _ = false

unfoldable pub is_owner : ℕ → Option ℕ → Bool
is_owner p none = false
is_owner p (some q) = q == p

unfoldable pub Said : ℕ → Phase → Option Owner → Type 0
Said p (holding l) r = r ≡ some (record { pid = p; label = l })
Said p (again l a) r = r ≡ some (record { pid = p; label = l })
Said p _ r = Unit

unfoldable pub Fits : ℕ → LockFile → Phase → Type 0
Fits p f ph = (owns ph ≡ is_owner p f.flock) × Said p ph f.owner

pub Said-unowned : (p : ℕ) (ph : Phase) (r : Option Owner) → owns ph ≡ false → Said p ph r
unfolding owns Said
Said-unowned p (holding l) r h = cc h
Said-unowned p (again l a) r h = cc h
Said-unowned p idle r h = tt
Said-unowned p (trying l) r h = tt
Said-unowned p (trying_again l) r h = tt
Said-unowned p (locked l) r h = tt
Said-unowned p (emptied l) r h = tt
Said-unowned p (refused d) r h = tt
Said-unowned p leaving r h = tt
Said-unowned p (looking d) r h = tt
Said-unowned p clearing r h = tt
Said-unowned p cleared r h = tt
Said-unowned p (answered d) r h = tt
Said-unowned p dead r h = tt

-- The flock after an attempt and after an unlock.
Fits-attempt :
    (p : ℕ) (f : LockFile) (won lost : Phase)
    → is_owner p f.flock ≡ false
    → owns won ≡ true
    → owns lost ≡ false
    → ((r : Option Owner) → Said p won r)
    → Fits p (attempt p f won lost).0 (attempt p f won lost).1
unfolding Fits attempt is_owner
Fits-attempt p f won lost free mine other said = taken f.flock refl
  where
    taken :
        (o : Option ℕ)
        → f.flock ≡ o
        → Fits p
            (elim o as (λ _. LockFile × Phase) [
              | none ↦ (record f { flock = some p }, won)
              | some q ↦ (f, lost)
            ]).0
            (elim o as (λ _. LockFile × Phase) [
              | none ↦ (record f { flock = some p }, won)
              | some q ↦ (f, lost)
            ]).1
    taken none e = (mine ∙ sym ((==_iff p p).1 refl), said f.owner)
    taken (some q) e = (other ∙ sym free, Said-unowned p lost f.owner other)

-- No attempt is granted while the flock is taken, though it be by the very actor.
pub attempt_taken :
    (p : ℕ) (f : LockFile) (won lost : Phase)
    → is_owner p f.flock ≡ true
    → attempt p f won lost ≡ (f, lost)
unfolding attempt is_owner
attempt_taken p f won lost mine = taken f.flock mine
  where
    taken :
        (o : Option ℕ)
        → is_owner p o ≡ true
        → (elim o as (λ _. LockFile × Phase) [
          | none ↦ (record f { flock = some p }, won)
          | some q ↦ (f, lost)
        ])
          ≡ (f, lost)
    taken none h = cc h
    taken (some q) h = refl

-- A second call leaves the lock as it is, and whose it is.
Fits-again :
    (p : ℕ) (l : Text) (a b : Again) (f : LockFile) (won : Phase)
    → Fits p f (again l a)
    → Fits p (attempt p f won (again l b)).0 (attempt p f won (again l b)).1
unfolding Fits owns Said
Fits-again p l a b f won (mine, said) =
    rw (attempt_taken p f won (again l b) (sym mine)) (mine, said)

unlocked : (p : ℕ) (f : LockFile) → is_owner p (unlock p f).flock ≡ false
unfolding unlock is_owner
unlocked p f = ground arith

Fits-unlock : (p : ℕ) (f : LockFile) (ph : Phase) → owns ph ≡ false → Fits p (unlock p f) ph
unfolding Fits
Fits-unlock p f ph h = (h ∙ sym (unlocked p f), Said-unowned p ph (unlock p f).owner h)

Fits-proceed :
    (p : ℕ) (ph : Phase) (f : LockFile) → Fits p f ph → Fits p (proceed p ph f).0 (proceed p ph f).1
unfolding proceed Fits owns Said
Fits-proceed p idle f k = k
Fits-proceed p (trying l) f (mine, _) =
    unfold Fits owns Said in
    Fits-attempt p f (locked l) (trying_again l) (sym mine) refl refl (λ r. tt)
Fits-proceed p (trying_again l) f (mine, _) =
    Fits-attempt p f (locked l) (refused f.owner) (sym mine) refl refl (λ r. tt)
Fits-proceed p (locked l) f (mine, _) = (mine, tt)
Fits-proceed p (emptied l) f (mine, _) = (mine, refl)
Fits-proceed p (holding l) f k = k
Fits-proceed p (again l (retrying m)) f k =
    Fits-again p l (retrying m) (retrying_again m) f (locked m) k
Fits-proceed p (again l (retrying_again m)) f k =
    Fits-again p l (retrying_again m) (busy f.owner) f (locked m) k
Fits-proceed p (again l (busy d)) f k = k
Fits-proceed p (again l (probing d)) f k = Fits-again p l (probing d) (told (some d)) f clearing k
Fits-proceed p (again l (told d)) f k = k
Fits-proceed p (refused d) f k = k
Fits-proceed p leaving f k = Fits-unlock p f idle refl
Fits-proceed p (looking d) f (mine, _) =
    Fits-attempt p f clearing (answered (some d)) (sym mine) refl refl (λ r. tt)
Fits-proceed p clearing f (mine, _) = (mine, tt)
Fits-proceed p cleared f k = Fits-unlock p f (answered none) refl
Fits-proceed p (answered d) f k = k
Fits-proceed p dead f k = k

Fits-look : (p : ℕ) (f : LockFile) → is_owner p f.flock ≡ false → Fits p f (look f.owner)
unfolding Fits owns Said
Fits-look p f free = read f.owner
  where
    read :
        (r : Option Owner)
        → Fits p f (elim r as (λ _. Phase) [ none ↦ answered none | some d ↦ looking d ])
    read none = (sym free, tt)
    read (some d) = (sym free, tt)

Fits-begin :
    (p : ℕ) (ph : Phase) (c : Call) (f : LockFile)
    → Fits p f ph
    → Fits p (begin ph c f).0 (begin ph c f).1
unfolding begin Fits owns Said
Fits-begin p idle (acquire l) f k = k
Fits-begin p idle holder f (mine, _) = unfold Fits owns Said in Fits-look p f (sym mine)
Fits-begin p idle release f k = k
Fits-begin p (holding l) release f (mine, _) = (mine, tt)
Fits-begin p (holding l) (acquire m) f k = k
Fits-begin p (holding l) holder f k = k
Fits-begin p (again l a) c f k = k
Fits-begin p (trying l) c f k = k
Fits-begin p (trying_again l) c f k = k
Fits-begin p (locked l) c f k = k
Fits-begin p (emptied l) c f k = k
Fits-begin p (refused d) c f k = k
Fits-begin p leaving c f k = k
Fits-begin p (looking d) c f k = k
Fits-begin p clearing c f k = k
Fits-begin p cleared c f k = k
Fits-begin p (answered d) c f k = k
Fits-begin p dead c f k = k

pub Fits-advance :
    (p : ℕ) (ph : Phase) (c : Command) (f : LockFile)
    → Fits p f ph
    → Fits p (advance p ph c f).0 (advance p ph c f).1
unfolding advance
Fits-advance p ph (call c) f k = Fits-begin p ph c f k
Fits-advance p ph next f k = Fits-proceed p ph f k
Fits-advance p ph kill f k = Fits-unlock p f dead (unfold owns in refl)
