-- ===== src/Db/Wal/Recover.antt =====
-- crates/oxgraph-db/src/wal.rs: the log after a recovery, cut to its valid prefix and appended to.
use oxgraph.Prelude.{
  ℕ, suc, ◌+◌, ◌≤◌, ◌<◌, ◌≡◌, ap, sym, ◌∙◌, subst, none, some, List, ◌++◌, map, length, take, drop,
  ok, arith, length-append, length-take, drop-append,
}
use oxgraph.Db.Wal.{Crc32c, CommitFrame, ReplayState, ReplayOutcome, replay_start, replay}
use oxgraph.Db.Wal.Encode.{IsCrc}
use oxgraph.Db.Wal.Damage.{IsTail}
use oxgraph.Db.Wal.Replay.{
  log_bytes, log_size, IsLog, last_or, outcome, accepted, loop_log, count_le,
}
use oxgraph.Db.Wal.Sound.{IsReplaying, last_of}
use oxgraph.Db.Wal.Rounds.{
  Rounds, loop-Rounds, Rounds-within, Rounds-again, Rounds-loop, start-IsReplaying,
}

-- The outcome with more commits after those it has.
abbrev pub extended : ReplayOutcome → List CommitFrame → ReplayOutcome
extended o commits = record {
  frames = o.frames ++ commits;
  valid_len = o.valid_len + log_size commits;
  last_lsn = last_or o.last_lsn (map (λ c. c.lsn) commits);
  last_txn = last_or o.last_txn (map (λ c. c.txn_id) commits);
}

module _ (crc : Crc32c) (law : IsCrc crc) (usize_max : ℕ) (wide : 0xffff_ffff ≤ usize_max)
    (base_generation : ℕ) where
  append_at :
      (log : List ℕ) (t : ReplayState)
      → Rounds usize_max crc base_generation log replay_start t
      → IsReplaying base_generation log t
      → (commits : List CommitFrame) (tail : List ℕ)
      → IsLog base_generation (last_of none t.outcome.frames) commits
      → IsTail usize_max tail
      → replay usize_max crc base_generation
          (take t.outcome.valid_len log ++ (log_bytes crc commits ++ tail))
        ≡ some (ok (extended t.outcome commits))
  unfolding replay
  append_at log t rounds inv commits tail valid torn =
      let more = log_bytes crc commits ++ tail in
      let k = t.outcome.valid_len in
      let log_again = take k log ++ more in
      let aligned = inv.aligned in
      let within = inv.within in
      let size = length-take k log in
      let fuel = suc (length log_again) in
      let (left, enough, same) =
        Rounds-loop usize_max crc base_generation log_again fuel replay_start t
          (Rounds-again usize_max crc base_generation log more k replay_start t rounds
            (start-IsReplaying usize_max crc base_generation log) (omega arith) (omega arith))
          (start-IsReplaying usize_max crc base_generation log_again) (omega arith) in
      let here : drop t.offset log_again ≡ more =
        drop-append t.offset (take k log) more (omega arith) in
      let count : length commits < left = omega (
        arith,
        count_le crc law usize_max wide base_generation commits (last_of none t.outcome.frames)
            valid,
        length-append (take k log) more,
        length-append (log_bytes crc commits) tail,
      ) in
      same
      ∙ loop_log crc law usize_max wide base_generation log_again tail torn commits left t here
          count (subst (λ last. IsLog base_generation last commits) inv.last valid)
      ∙ ap (λ o. some (ok o)) (accepted commits t aligned)
      ∙ (λ i. some (
          ok (
            outcome (t.outcome.frames ++ commits) (sym aligned i + log_size commits)
              (last_or t.outcome.last_lsn (map (λ (c : CommitFrame). c.lsn) commits))
              (last_or t.outcome.last_txn (map (λ (c : CommitFrame). c.txn_id) commits)))))

  -- A log of any bytes that `replay` accepts is cut to the valid length it returns, and valid commits
  -- that follow the last one are appended, with a torn tail at most after them. `replay` of this log
  -- returns the commits recovered before and then those appended, with their lengths and last ids.
  pub replay-append :
      (log : List ℕ) (o : ReplayOutcome) (commits : List CommitFrame) (tail : List ℕ)
      → replay usize_max crc base_generation log ≡ some (ok o)
      → IsLog base_generation (last_of none o.frames) commits
      → IsTail usize_max tail
      → replay usize_max crc base_generation
          (take o.valid_len log ++ (log_bytes crc commits ++ tail))
        ≡ some (ok (extended o commits))
  unfolding replay
  replay-append log o commits tail e valid torn =
      let (t, rounds, same) =
        loop-Rounds usize_max crc base_generation log (suc (length log)) replay_start o e in
      let inv =
        (Rounds-within usize_max crc base_generation log replay_start t rounds
          (start-IsReplaying usize_max crc base_generation log)).0 in
      subst
        (λ (o : ReplayOutcome).
          IsLog base_generation (last_of none o.frames) commits
          → replay usize_max crc base_generation
              (take o.valid_len log ++ (log_bytes crc commits ++ tail))
            ≡ some (ok (extended o commits)))
        same (λ valid. append_at log t rounds inv commits tail valid torn) valid
