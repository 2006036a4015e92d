-- ===== src/Db/Wal/Rounds.antt =====
-- crates/oxgraph-db/src/wal.rs: the rounds of `replay`'s loop as a relation.
use oxgraph.Prelude.{
  ℕ, zero, suc, ◌+◌, ◌≤◌, ◌<◌, ◌≡◌, refl, ap, sym, ◌∙◌, subst, true, Bool-cases, inl, inr, Option,
  some, List, ◌++◌, length, take, drop, ok, Result, arith, length-append, length-drop, length-take,
  take-append-drop, drop-append_le, take-append_le, ltb, ltb→lt,
}
use oxgraph.Db.Errors.{StorageError}
use oxgraph.Db.Wal.{
  Crc32c, CommitFrame, RecordParse, stop, loud, frame, parse_one_record, ReplayState, ReplayOutcome,
  replay_start, accept, cursor_of, replay_loop,
}
use oxgraph.Db.Wal.Replay.{loop_frame}
use oxgraph.Db.Wal.Verdict.{Verdict, parse_one_record-Verdict}
use oxgraph.Db.Wal.Sound.{IsReplaying, accept-IsReplaying, round}
use oxgraph.Db.Wal.Prefix.{parse_one_record-prefix}

module _ (usize_max : ℕ) (crc : Crc32c) (base_generation : ℕ) where
  -- The rounds of the loop that take a record each.
  pub data Rounds (log : List ℕ) : ReplayState → ReplayState → Type 0 where
    done : {s : ReplayState} → Rounds log s s
    next :
        {s t : ReplayState} (c : CommitFrame) (len : ℕ)
        → s.offset < length log
        → parse_one_record usize_max crc base_generation (drop s.offset log) (cursor_of s)
          ≡ frame c len
        → Rounds log (accept s c len) t
        → Rounds log s t

  same_outcome :
      (s : ReplayState) (o : ReplayOutcome)
      → ◌≡◌ {A = Option (Result StorageError ReplayOutcome)} (some (ok s.outcome)) (some (ok o))
      → s.outcome ≡ o
  same_outcome s o e = cc

  round_back :
      (log : List ℕ) (parsed : RecordParse)
      (rest : ReplayState → Option (Result StorageError ReplayOutcome)) (s : ReplayState)
      (o : ReplayOutcome)
      → s.offset < length log
      → parse_one_record usize_max crc base_generation (drop s.offset log) (cursor_of s) ≡ parsed
      → ((t : ReplayState)
          → rest t ≡ some (ok o)
          → (u : ReplayState) × Rounds log t u × (u.outcome ≡ o))
      → round usize_max crc base_generation log s rest true parsed ≡ some (ok o)
      → (t : ReplayState) × Rounds log s t × (t.outcome ≡ o)
  round_back log stop rest s o inside read back e = (s, done, same_outcome s o e)
  round_back log (loud error) rest s o inside read back e = absurd (cc)
  round_back log (frame c len) rest s o inside read back e =
      let (t, rounds, same) = back (accept s c len) e in (t, next c len inside read rounds, same)

  pub loop-Rounds :
      (log : List ℕ) (fuel : ℕ) (s : ReplayState) (o : ReplayOutcome)
      → replay_loop usize_max crc fuel base_generation log s ≡ some (ok o)
      → (t : ReplayState) × Rounds log s t × (t.outcome ≡ o)
  unfolding replay_loop
  loop-Rounds log zero s o e = absurd (cc)
  loop-Rounds log (suc fuel) s o e =
      let rest = replay_loop usize_max crc fuel base_generation log in
      let parsed =
        parse_one_record usize_max crc base_generation (drop s.offset log) (cursor_of s) in
      let back = λ (t : ReplayState) (same : rest t ≡ some (ok o)). loop-Rounds log fuel t o same in
      elim (Bool-cases (ltb s.offset (length log))) [
        | inl h ↦
            round_back log parsed rest s o (ltb→lt s.offset (length log) h) refl back (
              subst (λ b. round usize_max crc base_generation log s rest b parsed ≡ some (ok o)) h
                e)
        | inr h ↦ (
          s,
          done,
          same_outcome s o (
              subst (λ b. round usize_max crc base_generation log s rest b parsed ≡ some (ok o)) h
                e),
        )
      ]

  -- Two logs that agree up to the last record read.
  same_slice :
      (log more : List ℕ) (k offset len : ℕ)
      → offset + len ≤ k
      → k ≤ length log
      → take len (drop offset (take k log ++ more)) ≡ take len (drop offset log)
  same_slice log more k offset len inside whole =
      let first = take k log in
      let l1 = length-take k log in
      let l2 = length-drop offset first in
      let through = λ (zs : List ℕ).
        ap (take len) (drop-append_le offset first zs (omega arith))
        ∙ take-append_le len (drop offset first) zs (omega arith) in
      through more
      ∙ sym (through (drop k log))
      ∙ ap (λ bytes. take len (drop offset bytes)) (take-append-drop k log)

  pub Rounds-within :
      (log : List ℕ) (s t : ReplayState)
      → Rounds log s t
      → IsReplaying base_generation log s
      → IsReplaying base_generation log t × s.offset ≤ t.offset
  Rounds-within log s t done inv = (inv, omega arith)
  Rounds-within log s t (next c len inside read rounds) inv =
      let verdict =
        subst (Verdict usize_max crc base_generation (drop s.offset log) (cursor_of s)) read (
          parse_one_record-Verdict usize_max crc base_generation (drop s.offset log)
            (cursor_of s)) in
      let taken = accept-IsReplaying usize_max crc base_generation log s c len inv verdict in
      let ih = Rounds-within log (accept s c len) t rounds taken.0 in
      let later = ih.1 in (ih.0, omega arith)

  -- What one round that takes a record gives.
  round_within :
      (log : List ℕ) (s : ReplayState) (c : CommitFrame) (len : ℕ)
      → IsReplaying base_generation log s
      → parse_one_record usize_max crc base_generation (drop s.offset log) (cursor_of s)
        ≡ frame c len
      → IsReplaying base_generation log (accept s c len) × 40 ≤ len
  round_within log s c len inv read =
      accept-IsReplaying usize_max crc base_generation log s c len inv (
        subst (Verdict usize_max crc base_generation (drop s.offset log) (cursor_of s)) read (
          parse_one_record-Verdict usize_max crc base_generation (drop s.offset log) (cursor_of s)))

  -- The rounds are made again on a log that keeps the bytes they read.
  pub Rounds-again :
      (log more : List ℕ) (k : ℕ) (s t : ReplayState)
      → Rounds log s t
      → IsReplaying base_generation log s
      → t.offset ≤ k
      → k ≤ length log
      → Rounds (take k log ++ more) s t
  Rounds-again log more k s t done inv below whole = done
  Rounds-again log more k s t (next c len inside read rounds) inv below whole =
      let one = round_within log s c len inv read in
      let long = one.1 in
      let later = (Rounds-within log (accept s c len) t rounds one.0).1 in
      let here = drop s.offset (take k log ++ more) in
      let same : here ≡ take len (drop s.offset log) ++ drop len here =
        sym (take-append-drop len here)
        ∙ ap (λ bytes. bytes ++ drop len here)
            (same_slice log more k s.offset len (omega arith) whole) in
      next c len (omega (arith, length-append (take k log) more, length-take k log))
        (rw same (
          parse_one_record-prefix usize_max crc base_generation (cursor_of s) (drop s.offset log)
            (drop len here) c len read))
        (Rounds-again log more k (accept s c len) t rounds one.0 below whole)

  -- The loop makes the rounds, and has fuel for the bytes after them.
  pub Rounds-loop :
      (log : List ℕ) (fuel : ℕ) (s t : ReplayState)
      → Rounds log s t
      → IsReplaying base_generation log s
      → length log < s.offset + fuel
      → (left : ℕ) × (length log < t.offset + left)
        × (replay_loop usize_max crc fuel base_generation log s
            ≡ replay_loop usize_max crc left base_generation log t)
  Rounds-loop log fuel s t done inv enough = (fuel, enough, refl)
  Rounds-loop log zero s t (next c len inside read rounds) inv enough = absurd (omega arith)
  Rounds-loop log (suc fuel) s t (next c len inside read rounds) inv enough =
      let one = round_within log s c len inv read in
      let long = one.1 in
      let (left, more, same) = Rounds-loop log fuel (accept s c len) t rounds one.0 (omega arith) in
      (left, more, loop_frame usize_max crc base_generation log fuel s c len inside read ∙ same)

  pub start-IsReplaying : (log : List ℕ) → IsReplaying base_generation log replay_start
  start-IsReplaying log = record { within = omega arith; aligned = refl; run = tt; last = refl }
