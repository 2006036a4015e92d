-- ===== src/Db/Wal/Sound.antt =====
-- crates/oxgraph-db/src/wal.rs: what `replay` returns for a log of any bytes.
use Prim.Native.String.{String}
use oxgraph.Prelude.{
  ℕ, zero, suc, ◌+◌, ◌≤◌, ◌<◌, ◌≡◌, ◌⊎◌, inl, inr, refl, sym, ◌∙◌, subst, Bool, true, false, ◌&&◌,
  Option, none, some, List, [], ◌∷◌, ◌++◌, length, drop, ok, err, Result, arith, length-drop, leb,
  ltb,
}
use oxgraph.Db.Errors.{StorageError, log_corrupt, base_generation_mismatch}
use oxgraph.Db.Wal.{
  Crc32c, CommitFrame, LsnCursor, RecordParse, stop, loud, frame, parse_one_record, ReplayState,
  ReplayOutcome, replay_start, accept, cursor_of, replay_loop, replay,
}
use oxgraph.Db.Wal.Replay.{Follows, last_seen}
use oxgraph.Db.Wal.Verdict.{
  Verdict, Fault, bad_magic, bad_generation, bad_crc, parse_one_record-Verdict,
}

-- Commits of one generation, in strictly ascending order of their LSN.
abbrev pub IsRun : (base_generation : ℕ) → Option ℕ → List CommitFrame → Type 0
IsRun base_generation last [] = Unit
IsRun base_generation last (c ∷ commits) =
    (c.base_generation ≡ base_generation)
    × Follows last c.lsn
    × IsRun base_generation (some c.lsn) commits

abbrev pub last_of : Option ℕ → List CommitFrame → Option ℕ
last_of last [] = last
last_of last (c ∷ commits) = last_of (some c.lsn) commits

IsRun-snoc :
    (base_generation : ℕ) (last : Option ℕ) (commits : List CommitFrame) (c : CommitFrame)
    → IsRun base_generation last commits
    → c.base_generation ≡ base_generation
    → Follows (last_of last commits) c.lsn
    → IsRun base_generation last (commits ++ c ∷ [])
IsRun-snoc base_generation last [] c h same next = (same, next, tt)
IsRun-snoc base_generation last (d ∷ commits) c (g, f, h) same next =
    (g, f, IsRun-snoc base_generation (some d.lsn) commits c h same next)

pub last_snoc :
    (last : Option ℕ) (commits : List CommitFrame) (c : CommitFrame)
    → last_of last (commits ++ c ∷ []) ≡ some c.lsn
last_snoc last [] c = refl
last_snoc last (d ∷ commits) c = last_snoc (some d.lsn) commits c

accepts-Follows :
    (seen : Bool) (last_lsn lsn : ℕ)
    → (seen && leb lsn last_lsn) ≡ false
    → Follows (last_seen (record { last_lsn = last_lsn; seen = seen })) lsn
accepts-Follows false last_lsn lsn h = tt
accepts-Follows true last_lsn lsn h = ground arith

-- The errors of a replay.
abbrev pub IsLogError : StorageError → Type 0
IsLogError error =
    ((lsn : ℕ) × (reason : String) × (error ≡ log_corrupt lsn reason))
    ⊎ ((expected : ℕ) × (found : ℕ) × (error ≡ base_generation_mismatch expected found))

-- What holds of the loop's variables between two rounds.
pub record IsReplaying (base_generation : ℕ) (log : List ℕ) (s : ReplayState) : Type 0 where
  pub within : s.offset ≤ length log
  pub aligned : s.outcome.valid_len ≡ s.offset
  pub run : IsRun base_generation none s.outcome.frames
  pub last : last_of none s.outcome.frames ≡ last_seen (cursor_of s)

-- A result, and a right one.
abbrev pub Settled :
    (base_generation : ℕ) → List ℕ → Option (Result StorageError ReplayOutcome) → Type 0
Settled base_generation log none = ⊥
Settled base_generation log (some (err error)) = IsLogError error
Settled base_generation log (some (ok outcome)) =
    IsRun base_generation none outcome.frames × outcome.valid_len ≤ length log

module _ (usize_max : ℕ) (crc : Crc32c) (base_generation : ℕ) (log : List ℕ) where
  Fault-IsLogError :
      (remaining : List ℕ) (cursor : LsnCursor) (error : StorageError)
      → Fault usize_max crc base_generation remaining cursor error
      → IsLogError error
  Fault-IsLogError remaining cursor _ (bad_magic m) = inl (_, _, refl)
  Fault-IsLogError remaining cursor _ (bad_generation m g) = inr (_, _, refl)
  Fault-IsLogError remaining cursor _ (bad_crc m g c) = inl (_, _, refl)

  -- A round that takes a record.
  pub accept-IsReplaying :
      (s : ReplayState) (c : CommitFrame) (len : ℕ)
      → IsReplaying base_generation log s
      → Verdict usize_max crc base_generation (drop s.offset log) (cursor_of s) (frame c len)
      → IsReplaying base_generation log (accept s c len) × 40 ≤ len
  accept-IsReplaying s c len inv (framed, intact, next, size, same_lsn, same_txn, same_generation) =
      let body_fits = framed.body_fits in
      let inside = framed.inside in
      let within = inv.within in
      let follows : Follows (last_of none s.outcome.frames) c.lsn =
        subst (λ last. Follows last c.lsn) (sym inv.last)
          (subst (Follows (last_seen (cursor_of s))) (sym same_lsn)
            (accepts-Follows s.seen_lsn s.outcome.last_lsn _ next)) in
      (
        record {
          within = omega (arith, length-drop s.offset log);
          aligned = refl;
          run =
              IsRun-snoc base_generation none s.outcome.frames c inv.run
                (same_generation ∙ intact.generation_right) follows;
          last = last_snoc none s.outcome.frames c;
        },
        omega arith,
      )

  -- One round of the loop, on what the parse says; `rest` is the rounds after it.
  abbrev pub round :
      ReplayState
      → (ReplayState → Option (Result StorageError ReplayOutcome))
      → Bool
      → RecordParse
      → Option (Result StorageError ReplayOutcome)
  round s rest inside parsed = elim inside [
    | false ↦ some (ok s.outcome)
    | true ↦ elim parsed [
      | stop ↦ some (ok s.outcome)
      | loud error ↦ some (err error)
      | frame commit len ↦ rest (accept s commit len)
    ]
  ]

  round-Settled :
      (parsed : RecordParse) (rest : ReplayState → Option (Result StorageError ReplayOutcome))
      (s : ReplayState)
      → Settled base_generation log (some (ok s.outcome))
      → ((c : CommitFrame) (len : ℕ)
          → Verdict usize_max crc base_generation (drop s.offset log) (cursor_of s) (frame c len)
          → Settled base_generation log (rest (accept s c len)))
      → Verdict usize_max crc base_generation (drop s.offset log) (cursor_of s) parsed
      → Settled base_generation log (round s rest true parsed)
  round-Settled stop rest s done onward v = done
  round-Settled (loud error) rest s done onward (framed, inl (past, fault)) =
      Fault-IsLogError (drop s.offset log) (cursor_of s) error fault
  round-Settled (loud error) rest s done onward (framed, inr (intact, seen, late, e)) =
      inl (_, _, e)
  round-Settled (frame c len) rest s done onward v = onward c len v

  loop-Settled :
      (fuel : ℕ) (s : ReplayState)
      → IsReplaying base_generation log s
      → length log < s.offset + fuel
      → Settled base_generation log (replay_loop usize_max crc fuel base_generation log s)
  unfolding replay_loop
  loop-Settled zero s inv enough = let within = inv.within in absurd (omega arith)
  loop-Settled (suc fuel) s inv enough =
      let done : Settled base_generation log (some (ok s.outcome)) =
        let within = inv.within in let aligned = inv.aligned in (inv.run, omega arith) in
      let verdict =
        parse_one_record-Verdict usize_max crc base_generation (drop s.offset log) (cursor_of s) in
      let onward =
        λ (c : CommitFrame) (len : ℕ)
            (v : Verdict usize_max crc base_generation (drop s.offset log) (cursor_of s)
              (frame c len)).
          let next = accept-IsReplaying s c len inv v in
          let long = next.1 in loop-Settled fuel (accept s c len) next.0 (omega arith) in
      let rest = replay_loop usize_max crc fuel base_generation log in
      elim (ltb s.offset (length log))
        as (λ b. Settled base_generation log (
          round s rest b
            (parse_one_record usize_max crc base_generation (drop s.offset log) (cursor_of s)))) [
              | true ↦
                  round-Settled
                    (parse_one_record usize_max crc base_generation (drop s.offset log)
                      (cursor_of s))
                    rest s done onward verdict
              | false ↦ done
            ]

  -- `replay` comes to an end on every log. The commits it returns are of the generation asked for,
  -- in strictly ascending order of their LSNs, and the valid length is within the log. Its only
  -- errors are `LogCorrupt` and `BaseGenerationMismatch`.
  pub replay-Settled : Settled base_generation log (replay usize_max crc base_generation log)
  unfolding replay
  replay-Settled =
      loop-Settled (suc (length log)) replay_start
        (record { within = omega arith; aligned = refl; run = tt; last = refl }) (omega arith)
