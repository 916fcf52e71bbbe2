-- ===== src/Jobs/Log.antt =====
-- The log of a Job of src/mcu_updater/jobs.py: a ring buffer of numbered lines.
use mcu_updater.Base.{
  ℕ, zero, suc, ◌-◌, max, List, [], ◌∷◌, ◌++◌, length, drop, String, leb, ◌==◌, if◌then◌else◌,
}

pub record LogLine : Type 0 where
  pub seq : ℕ
  pub stream : String
  pub text : String

-- `_log` with its maxlen, `_next_seq` and `_dropped`
pub record Log : Type 0 where
  pub lines : List LogLine
  pub maxlen : ℕ
  pub next_seq : ℕ
  pub dropped : ℕ

abbrev pub empty_log : ℕ → Log
empty_log size = record { lines = []; maxlen = size; next_seq = 0; dropped = 0 }

-- deque.append: what is over the maximum goes on the left
unfoldable pub deque_append : ℕ → List LogLine → LogLine → List LogLine
deque_append maxlen lines line = let all = lines ++ (line ∷ []) in drop (length all - maxlen) all

unfoldable pub append : Log → String → String → Log
append log stream text = record {
  lines =
      deque_append log.maxlen log.lines
        (record { seq = log.next_seq; stream = stream; text = text });
  maxlen = log.maxlen;
  next_seq = suc log.next_seq;
  dropped = if length log.lines == log.maxlen then suc log.dropped else log.dropped;
}

-- [line for line in snapshot if line.seq >= start]
unfoldable pub lines_from : ℕ → List LogLine → List LogLine
lines_from start [] = []
lines_from start (l ∷ ls) =
    let rest = lines_from start ls in if leb start l.seq then l ∷ rest else rest

-- what log_since answers: the lines, the first number that is served and the next one
pub record Since : Type 0 where
  pub lines : List LogLine
  pub start : ℕ
  pub next : ℕ

unfoldable pub since_from : ℕ → ℕ → ℕ → List LogLine → Since
since_from from dropped next [] = record { lines = []; start = max from dropped; next = next }
since_from from dropped next (l ∷ ls) =
    let start = max from l.seq in
    record { lines = lines_from start (l ∷ ls); start = start; next = next }

unfoldable pub log_since : Log → ℕ → Since
log_since log from = since_from from log.dropped log.next_seq log.lines

-- list(self._log)[-max(limit, 0):] if limit > 0 else []
unfoldable pub tail : Log → ℕ → List LogLine
tail log zero = []
tail log (suc n) = drop (length log.lines - suc n) log.lines
