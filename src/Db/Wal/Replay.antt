-- ===== src/Db/Wal/Replay.antt =====
-- crates/oxgraph-db/src/wal.rs: `replay` of the records of a run of commits, with a tail after them.
use oxgraph.Prelude.{
  ℕ, zero, suc, ◌+◌, ◌≤◌, ◌<◌, ◌≡◌, inl, inr, refl, ap, sym, ◌∙◌, subst, Bool, true, false,
  Bool-cases, Option, none, some, List, [], ◌∷◌, ◌++◌, length, drop, map, ok, Result, arith,
  append_assoc, append-nil, length-append, drop-append, length-drop, ltb, lt→ltb, if◌then◌else◌,
  drop-drop, ◌>>=◌,
}
use oxgraph.Db.Errors.{StorageError}
use oxgraph.Db.Wal.{
  Crc32c, CommitFrame, LsnCursor, frame, parse_one_record, ReplayState, ReplayOutcome, replay_start,
  accept, cursor_of, replay_loop, replay, encode_commit,
}
use oxgraph.Db.Wal.Encode.{
  IsCrc, IsCommit, record_len, record_bytes, length-record_bytes, encode_commit-eq,
}
use oxgraph.Db.Wal.Parse.{Accepts, parse_one_record-record_bytes}
use oxgraph.Db.Wal.Damage.{IsTail, parse_one_record-tail}

-- The log that a run of commits leaves.
abbrev pub log_bytes : Crc32c → List CommitFrame → List ℕ
log_bytes crc [] = []
log_bytes crc (c ∷ commits) = record_bytes crc c ++ log_bytes crc commits

-- What `encode_commit` returns for each of them, end to end.
unfoldable pub encode_log : Crc32c → List CommitFrame → Result StorageError (List ℕ)
encode_log crc [] = ok []
encode_log crc (c ∷ commits) = do
  bytes ← encode_commit crc c.lsn c.txn_id c.base_generation c.ops c.blob
  more ← encode_log crc commits
  ok (bytes ++ more)

-- An LSN after the one before it, if any.
abbrev pub Follows : Option ℕ → ℕ → Type 0
Follows none lsn = Unit
Follows (some last) lsn = last < lsn

-- Valid commits of one generation, in strictly ascending order.
abbrev pub IsLog : (base_generation : ℕ) → Option ℕ → List CommitFrame → Type 0
IsLog base_generation last [] = Unit
IsLog base_generation last (c ∷ commits) =
    IsCommit c
    × (c.base_generation ≡ base_generation)
    × Follows last c.lsn
    × IsLog base_generation (some c.lsn) commits

-- The outcome of accepting the commits one after another.
abbrev pub accept_all : ReplayState → List CommitFrame → ReplayState
accept_all s [] = s
accept_all s (c ∷ commits) = accept_all (accept s c (record_len c)) commits

abbrev pub log_size : List CommitFrame → ℕ
log_size [] = 0
log_size (c ∷ commits) = record_len c + log_size commits

-- The last of the values, or the one given.
abbrev pub last_or : ℕ → List ℕ → ℕ
last_or d [] = d
last_or d (x ∷ xs) = last_or x xs

-- What there is to recover of these commits.
abbrev pub recovered : List CommitFrame → ReplayOutcome
recovered commits = record {
  frames = commits;
  valid_len = log_size commits;
  last_lsn = last_or 0 (map (λ c. c.lsn) commits);
  last_txn = last_or 0 (map (λ c. c.txn_id) commits);
}

abbrev pub outcome : List CommitFrame → ℕ → ℕ → ℕ → ReplayOutcome
outcome frames valid_len last_lsn last_txn = record {
  frames = frames;
  valid_len = valid_len;
  last_lsn = last_lsn;
  last_txn = last_txn;
}

pub accepted :
    (commits : List CommitFrame) (s : ReplayState)
    → s.outcome.valid_len ≡ s.offset
    → (accept_all s commits).outcome
      ≡ outcome
          (s.outcome.frames ++ commits)
          (s.offset + log_size commits)
          (last_or s.outcome.last_lsn (map (λ (c : CommitFrame). c.lsn) commits))
          (last_or s.outcome.last_txn (map (λ (c : CommitFrame). c.txn_id) commits))
accepted [] s e =
    let e2 : s.outcome.valid_len ≡ s.offset + 0 = omega arith in
    λ i. outcome (sym (append-nil s.outcome.frames) i) (e2 i) s.outcome.last_lsn s.outcome.last_txn
accepted (c ∷ commits) s e =
    let size : s.offset + record_len c + log_size commits
        ≡ s.offset + (record_len c + log_size commits) =
      omega arith in
    accepted commits (accept s c (record_len c)) refl ∙ (λ i.
      outcome (append_assoc s.outcome.frames (c ∷ []) commits i) (size i)
        (last_or c.lsn (map (λ (c : CommitFrame). c.lsn) commits))
        (last_or c.txn_id (map (λ (c : CommitFrame). c.txn_id) commits)))

abbrev pub last_seen : LsnCursor → Option ℕ
last_seen cursor = if cursor.seen then some cursor.last_lsn else none

Follows-Accepts :
    (seen : Bool) (last_lsn lsn : ℕ)
    → Follows (last_seen (record { last_lsn = last_lsn; seen = seen })) lsn
    → Accepts (record { last_lsn = last_lsn; seen = seen }) lsn
Follows-Accepts false last_lsn lsn h = refl
Follows-Accepts true last_lsn lsn h = ground arith

module _ (usize_max : ℕ) (crc : Crc32c) (base_generation : ℕ) (log : List ℕ) where
  pub loop_frame :
      (fuel : ℕ) (s : ReplayState) (c : CommitFrame) (len : ℕ)
      → s.offset < length log
      → parse_one_record usize_max crc base_generation (drop s.offset log) (cursor_of s)
        ≡ frame c len
      → replay_loop usize_max crc (suc fuel) base_generation log s
        ≡ replay_loop usize_max crc fuel base_generation log (accept s c len)
  unfolding replay_loop
  loop_frame fuel s c len inside read =
      rw (lt→ltb s.offset (length log) inside, read, replay_loop) refl

module _ (crc : Crc32c) (law : IsCrc crc) (usize_max : ℕ) (wide : 0xffff_ffff ≤ usize_max)
    (base_generation : ℕ) where
  pub encode_log-log_bytes :
      (last : Option ℕ) (commits : List CommitFrame)
      → IsLog base_generation last commits
      → encode_log crc commits ≡ ok (log_bytes crc commits)
  unfolding encode_log
  encode_log-log_bytes last [] h = refl
  encode_log-log_bytes last (c ∷ commits) (valid, same, next, more) =
      rw (encode_commit-eq crc c valid, encode_log-log_bytes (some c.lsn) commits more) refl

  module _ (log tail : List ℕ) (torn : IsTail usize_max tail) where
    -- At a tail the loop ends with what it has.
    loop_tail :
        (fuel : ℕ) (s : ReplayState)
        → drop s.offset log ≡ tail
        → replay_loop usize_max crc (suc fuel) base_generation log s ≡ some (ok s.outcome)
    unfolding replay_loop
    loop_tail fuel s here =
        let stopped = parse_one_record-tail usize_max crc base_generation tail (cursor_of s) torn in
        elim (Bool-cases (ltb s.offset (length log))) [
          | inl e ↦ rw (e, here, stopped, replay_loop) refl
          | inr e ↦ rw (e, replay_loop) refl
        ]

    pub loop_log :
        (commits : List CommitFrame) (fuel : ℕ) (s : ReplayState)
        → drop s.offset log ≡ log_bytes crc commits ++ tail
        → length commits < fuel
        → IsLog base_generation (last_seen (cursor_of s)) commits
        → replay_loop usize_max crc fuel base_generation log s
          ≡ some (ok (accept_all s commits).outcome)
    loop_log [] zero s here enough h = elim enough [ ]
    loop_log (c ∷ commits) zero s here enough h = elim enough [ ]
    loop_log [] (suc fuel) s here enough h = loop_tail fuel s here
    loop_log (c ∷ commits) (suc fuel) s here enough (valid, same, next, more) =
        let rest = log_bytes crc commits ++ tail in
        let at : drop s.offset log ≡ record_bytes crc c ++ rest =
          here ∙ append_assoc (record_bytes crc c) (log_bytes crc commits) tail in
        let size = length-record_bytes crc c valid in
        let inside : s.offset < length log = omega (
          arith,
          ap length at,
          length-drop s.offset log,
          length-append (record_bytes crc c) rest,
        ) in
        let read : parse_one_record usize_max crc base_generation (record_bytes crc c ++ rest)
              (cursor_of s)
            ≡ frame c (record_len c) =
          subst
            (λ g.
              parse_one_record usize_max crc g (record_bytes crc c ++ rest) (cursor_of s)
              ≡ frame c (record_len c))
            same
            (parse_one_record-record_bytes crc law c valid usize_max wide rest (cursor_of s)
              (Follows-Accepts s.seen_lsn s.outcome.last_lsn c.lsn next)) in
        let onward : drop (s.offset + record_len c) log ≡ rest =
          sym (drop-drop (record_len c) s.offset log)
          ∙ ap (drop (record_len c)) at
          ∙ drop-append (record_len c) (record_bytes crc c) rest size in
        loop_frame usize_max crc base_generation log fuel s c (record_len c) inside (rw at read)
        ∙ loop_log commits fuel (accept s c (record_len c)) onward (omega arith) more

module _ (crc : Crc32c) (law : IsCrc crc) (usize_max : ℕ) (wide : 0xffff_ffff ≤ usize_max)
    (base_generation : ℕ) where
  pub count_le :
      (commits : List CommitFrame) (last : Option ℕ)
      → IsLog base_generation last commits
      → length commits ≤ length (log_bytes crc commits)
  count_le [] last h = omega arith
  count_le (c ∷ commits) last (valid, same, next, more) = omega (
    arith,
    length-append (record_bytes crc c) (log_bytes crc commits),
    length-record_bytes crc c valid,
    count_le commits (some c.lsn) more,
  )

  -- `encode_commit` succeeds on each of a run of valid commits of one generation with strictly
  -- ascending LSNs, and `replay` of the records, end to end, returns these commits in order, the
  -- records' length as the valid length, and the last LSN and transaction. It does so whatever bytes
  -- follow, if they are too short for a header or their header's length frames no record in them.
  pub replay-encode_log :
      (commits : List CommitFrame) (tail : List ℕ)
      → IsLog base_generation none commits
      → IsTail usize_max tail
      → (encode_log crc commits ≡ ok (log_bytes crc commits))
        × (replay usize_max crc base_generation (log_bytes crc commits ++ tail)
            ≡ some (ok (recovered commits)))
  unfolding replay
  replay-encode_log commits tail valid torn =
      let log = log_bytes crc commits ++ tail in
      let from_zero : 0 + log_size commits ≡ log_size commits = omega arith in
      let enough : length commits < suc (length log) =
        omega (arith, count_le commits none valid, length-append (log_bytes crc commits) tail) in
      (
        encode_log-log_bytes crc law usize_max wide base_generation none commits valid,
        loop_log crc law usize_max wide base_generation log tail torn commits (suc (length log))
              replay_start refl enough valid
            ∙ ap (λ o. some (ok o)) (accepted commits replay_start refl ∙ rw from_zero refl),
      )
