-- ===== src/Jobs/Ring.antt =====
-- The log keeps its last lines, numbered without a gap, and `log_since` says what it could not serve.
use mathlib.Core.Path.{subst}
use mcu_updater.Base.{
  ℕ, zero, suc, ◌+◌, ◌-◌, ◌≤◌, ◌≡◌, refl, sym, ap, ◌∙◌, max, true, List, [], ◌∷◌, ◌++◌, length,
  drop, String, leb, arith, Bool-cases, inl, inr, length-append, length-drop,
}
use mcu_updater.Jobs.Log.{
  LogLine, Log, empty_log, deque_append, append, lines_from, since_from, log_since,
}

-- The lines are numbered from a number on.
abbrev pub IsNumberedFrom : ℕ → List LogLine → Type 0
IsNumberedFrom n [] = Unit
IsNumberedFrom n (l ∷ ls) = (l.seq ≡ n) × IsNumberedFrom (suc n) ls

pub record IsRing (log : Log) : Type 0 where
  pub numbered : IsNumberedFrom log.dropped log.lines
  pub count : log.dropped + length log.lines ≡ log.next_seq
  pub bounded : length log.lines ≤ log.maxlen

IsNumberedFrom-snoc :
    (n : ℕ) (ls : List LogLine) (l : LogLine)
    → IsNumberedFrom n ls
    → l.seq ≡ n + length ls
    → IsNumberedFrom n (ls ++ (l ∷ []))
IsNumberedFrom-snoc n [] l h e = (omega arith, tt)
IsNumberedFrom-snoc n (k ∷ ls) l h e = (h.0, IsNumberedFrom-snoc (suc n) ls l h.1 (omega arith))

IsNumberedFrom-drop :
    (n k : ℕ) (ls : List LogLine)
    → IsNumberedFrom n ls
    → k ≤ length ls
    → IsNumberedFrom (n + k) (drop k ls)
IsNumberedFrom-drop n zero ls h le =
    let e : n ≡ n + 0 = omega arith in subst (λ m. IsNumberedFrom m ls) e h
IsNumberedFrom-drop n (suc k) [] h le = tt
IsNumberedFrom-drop n (suc k) (l ∷ ls) h le =
    let e : suc n + k ≡ n + suc k = omega arith in
    subst (λ m. IsNumberedFrom m (drop k ls)) e (IsNumberedFrom-drop (suc n) k ls h.1 (omega arith))

-- The lines that are evicted are as many as `_dropped` grows by.
dropped-append :
    (log : Log) (stream text : String)
    → IsRing log
    → (append log stream text).dropped ≡ log.dropped + (suc (length log.lines) - log.maxlen)
unfolding append
dropped-append log stream text r = let b = r.bounded in ground (arith, b)

append-IsRing : (log : Log) (stream text : String) → IsRing log → IsRing (append log stream text)
unfolding append deque_append
append-IsRing log stream text r =
    let line : LogLine = record { seq = log.next_seq; stream = stream; text = text } in
    let all = log.lines ++ (line ∷ []) in
    let size : length all ≡ suc (length log.lines) =
      omega (arith, length-append log.lines (line ∷ [])) in
    let numbered : IsNumberedFrom log.dropped all =
      IsNumberedFrom-snoc log.dropped log.lines line r.numbered (omega (arith, r.count)) in
    let more = dropped-append log stream text r in
    let kept = length-drop (length all - log.maxlen) all in
    record {
      numbered =
          subst (λ m. IsNumberedFrom m (deque_append log.maxlen log.lines line))
            (omega (arith, more, size))
            (IsNumberedFrom-drop log.dropped (length all - log.maxlen) all numbered (omega arith));
      count = omega (arith, more, size, kept, r.count, r.bounded);
      bounded = omega (arith, size, kept, r.bounded);
    }

-- A log that lines were appended to, the last line first.
abbrev pub append_all : ℕ → List (String × String) → Log
append_all size [] = empty_log size
append_all size ((stream, text) ∷ ls) = append (append_all size ls) stream text

append_all-IsRing : (size : ℕ) (ls : List (String × String)) → IsRing (append_all size ls)
append_all-IsRing size [] = record { numbered = tt; count = refl; bounded = omega arith }
append_all-IsRing size ((stream, text) ∷ ls) =
    append-IsRing (append_all size ls) stream text (append_all-IsRing size ls)

lines_from_all :
    (start n : ℕ) (ls : List LogLine) → IsNumberedFrom n ls → start ≤ n → lines_from start ls ≡ ls
unfolding lines_from
lines_from_all start n [] h le = refl
lines_from_all start n (l ∷ ls) h le =
    let later = lines_from_all start (suc n) ls h.1 (omega arith) in
    let keep : leb start l.seq ≡ true = ground (arith, h.0) in rw (keep, later) refl

-- Selecting the lines from a number on leaves a run of consecutive numbers that ends where the log does.
lines_from-IsNumberedFrom :
    (n start : ℕ) (ls : List LogLine)
    → IsNumberedFrom n ls
    → n ≤ start
    → IsNumberedFrom start (lines_from start ls)
      × (length (lines_from start ls) ≡ n + length ls - start)
unfolding lines_from
lines_from-IsNumberedFrom n start [] h le = (tt, omega arith)
lines_from-IsNumberedFrom n start (l ∷ ls) h le = elim (Bool-cases (leb start l.seq)) [
  | inl t ↦
      let same : start ≡ n = ground (arith, h.0) in
      let rest = lines_from_all start (suc n) ls h.1 (omega arith) in
      rw (t, rest)
        (
          (ground (arith, h.0, same), subst (λ m. IsNumberedFrom (suc m) ls) (sym same) h.1),
          omega arith,
        )
  | inr f ↦
      let later = lines_from-IsNumberedFrom (suc n) start ls h.1 (ground (arith, h.0)) in
      rw f (later.0, omega (arith, later.1))
]

next_seq-append_all :
    (size : ℕ) (ls : List (String × String))
    → ((append_all size ls).next_seq ≡ length ls) × ((append_all size ls).maxlen ≡ size)
unfolding append
next_seq-append_all size [] = (refl, refl)
next_seq-append_all size ((stream, text) ∷ ls) =
    let (n, m) = next_seq-append_all size ls in (ap suc n, m)

dropped-append_all :
    (size : ℕ) (ls : List (String × String)) → (append_all size ls).dropped ≡ length ls - size
dropped-append_all size [] = omega arith
dropped-append_all size ((stream, text) ∷ ls) =
    let log = append_all size ls in
    let r = append_all-IsRing size ls in
    let (n, m) = next_seq-append_all size ls in
    omega (
      arith,
      dropped-append log stream text r,
      dropped-append_all size ls,
      r.count,
      r.bounded,
      n,
      m,
    )

since_from-IsNumberedFrom :
    (from dropped next : ℕ) (ls : List LogLine)
    → IsNumberedFrom dropped ls
    → dropped + length ls ≡ next
    → let s = since_from from dropped next ls in
      (s.start ≡ max from dropped)
      × (s.next ≡ next)
      × IsNumberedFrom s.start s.lines
      × (length s.lines ≡ next - s.start)
unfolding since_from
since_from-IsNumberedFrom from dropped next [] h e = (refl, refl, tt, omega arith)
since_from-IsNumberedFrom from dropped next (l ∷ ls) h e =
    let start : max from l.seq ≡ max from dropped = omega (arith, h.0) in
    let (numbered, size) =
      lines_from-IsNumberedFrom dropped (max from l.seq) (l ∷ ls) h (omega (arith, h.0)) in
    (start, refl, numbered, omega (arith, size))

-- After any number of lines, `log_since` serves a run of consecutive numbers that starts at the number
-- asked for, or at the first that is kept, and reaches the end of the log; the numbers that are not
-- kept are exactly those of the lines that are more than the ring holds.
pub log_since-append_all :
    (size from : ℕ) (ls : List (String × String))
    → let s = log_since (append_all size ls) from in
      (s.start ≡ max from (length ls - size))
      × (s.next ≡ length ls)
      × IsNumberedFrom s.start s.lines
      × (length s.lines ≡ length ls - s.start)
unfolding log_since
log_since-append_all size from ls =
    let log = append_all size ls in
    let r = append_all-IsRing size ls in
    let (n, _) = next_seq-append_all size ls in
    let d = dropped-append_all size ls in
    let (start, next, numbered, count) =
      since_from-IsNumberedFrom from log.dropped log.next_seq log.lines r.numbered r.count in
    (start ∙ ap (max from) d, next ∙ n, numbered, omega (arith, count, n))
