-- ===== src/Db/Wal/Truncate.antt =====
-- crates/oxgraph-db/src/wal.rs: `replay` of a log that was cut at any byte.
use oxgraph.Prelude.{
  ℕ, ◌-◌, ◌≤◌, ◌<◌, ◌≡◌, inl, inr, ap, sym, ◌∙◌, true, false, Bool-cases, Option, none, some, List,
  [], ◌∷◌, ◌++◌, length, take, ok, arith, append_assoc, length-take, take-append_le,
  take-append_past, leb, leb→le, lt→leb_false, take_all, if◌then◌else◌,
}
use oxgraph.Db.Wire.{log_header_bytes, log_header_of}
use oxgraph.Db.Wire.Codec.{log_header_of-log_header_bytes}
use oxgraph.Db.Wal.{Crc32c, CommitFrame, replay, frame_well_framed}
use oxgraph.Db.Wal.Encode.{
  IsCrc, IsCommit, record_len, body, header_of_commit, record_bytes, length-record_bytes,
  length-log_header,
}
use oxgraph.Db.Wal.Parse.{header-IsLogHeader}
use oxgraph.Db.Wal.Damage.{IsTail, IsMisframed}
use oxgraph.Db.Wal.Replay.{log_bytes, IsLog, recovered, replay-encode_log}

-- The commits whose records lie in the first `n` bytes.
abbrev pub fitting : ℕ → List CommitFrame → List CommitFrame
fitting n [] = []
fitting n (c ∷ commits) =
    let more = fitting (n - record_len c) commits in if leb (record_len c) n then c ∷ more else []

-- The bytes of the record that is cut.
abbrev cut : Crc32c → ℕ → List CommitFrame → List ℕ
cut crc n [] = []
cut crc n (c ∷ commits) =
    let more = cut crc (n - record_len c) commits in
    if leb (record_len c) n then more else take n (record_bytes crc c)

fitting-IsLog :
    (base_generation n : ℕ) (last : Option ℕ) (commits : List CommitFrame)
    → IsLog base_generation last commits
    → IsLog base_generation last (fitting n commits)
fitting-IsLog base_generation n last [] h = h
fitting-IsLog base_generation n last (c ∷ commits) (valid, same, next, more) =
    let ih = fitting-IsLog base_generation (n - record_len c) (some c.lsn) commits more in
    elim (leb (record_len c) n)
      as (λ b.
        IsLog base_generation last (if b then c ∷ fitting (n - record_len c) commits else [])) [
          | true ↦ (valid, same, next, ih)
          | false ↦ tt
        ]

module _ (crc : Crc32c) (law : IsCrc crc) where
  cut_split :
      (n : ℕ) (last : Option ℕ) (base_generation : ℕ) (commits : List CommitFrame)
      → IsLog base_generation last commits
      → take n (log_bytes crc commits) ≡ log_bytes crc (fitting n commits) ++ cut crc n commits
  cut_split n last base_generation [] h = take_all n [] (omega arith)
  cut_split n last base_generation (c ∷ commits) (valid, same, next, more) =
      let size = length-record_bytes crc c valid in
      let ih = cut_split (n - record_len c) (some c.lsn) base_generation commits more in
      elim (Bool-cases (leb (record_len c) n)) [
        | inl e ↦
            rw
              (
                e,
                take-append_past n (record_bytes crc c) (log_bytes crc commits)
                    (omega (arith, leb→le (record_len c) n)),
                size,
                ih,
              )
              (sym (
                append_assoc (record_bytes crc c)
                  (log_bytes crc (fitting (n - record_len c) commits))
                  (cut crc (n - record_len c) commits)))
        | inr e ↦
            rw e (take-append_le n (record_bytes crc c) (log_bytes crc commits) (ground arith))
      ]

  module _ (usize_max : ℕ) where
    cut-IsMisframed :
        (n : ℕ) (c : CommitFrame)
        → IsCommit c
        → n < record_len c
        → 40 ≤ n
        → IsMisframed usize_max (take n (record_bytes crc c))
    unfolding frame_well_framed
    cut-IsMisframed n c valid short whole =
        let header = header_of_commit crc c in
        let long = length-log_header crc c valid header in
        let behind = take (n - length (log_header_bytes header)) (body c) in
        let parts : take n (record_bytes crc c) ≡ log_header_bytes header ++ behind =
          take-append_past n (log_header_bytes header) (body c) (omega arith) in
        let read : log_header_of (take n (record_bytes crc c)) ≡ header =
          ap log_header_of parts
          ∙ log_header_of-log_header_bytes header behind (header-IsLogHeader crc law c valid) in
        let past : leb (record_len c) (length (take n (record_bytes crc c))) ≡ false =
          lt→leb_false (record_len c) (length (take n (record_bytes crc c)))
            (omega (arith, length-take n (record_bytes crc c))) in
        rw (read, past) (ground arith)

    -- A record that is cut after its header runs past the bytes.
    cut_record-IsTail :
        (n : ℕ) (c : CommitFrame)
        → IsCommit c
        → n < record_len c
        → IsTail usize_max (take n (record_bytes crc c))
    cut_record-IsTail n c valid short = elim (Bool-cases (leb 40 n)) [
      | inl e ↦ inr (cut-IsMisframed n c valid short (leb→le 40 n e))
      | inr e ↦ inl (ground (arith, length-take n (record_bytes crc c)))
    ]

    cut-IsTail :
        (n : ℕ) (last : Option ℕ) (base_generation : ℕ) (commits : List CommitFrame)
        → IsLog base_generation last commits
        → IsTail usize_max (cut crc n commits)
    cut-IsTail n last base_generation [] h = inl (omega arith)
    cut-IsTail n last base_generation (c ∷ commits) (valid, same, next, more) =
        let ih = cut-IsTail (n - record_len c) (some c.lsn) base_generation commits more in
        elim (Bool-cases (leb (record_len c) n)) [
          | inl e ↦ rw e ih
          | inr e ↦ rw e (cut_record-IsTail n c valid (ground arith))
        ]

    -- A log of valid commits, cut after any number of bytes, is replayed without an error, and
    -- returns exactly the commits whose records lie within the bytes that are left.
    pub replay-take :
        (wide : 0xffff_ffff ≤ usize_max) (base_generation n : ℕ) (commits : List CommitFrame)
        → IsLog base_generation none commits
        → replay usize_max crc base_generation (take n (log_bytes crc commits))
          ≡ some (ok (recovered (fitting n commits)))
    replay-take wide base_generation n commits valid =
        rw (cut_split n none base_generation commits valid)
          (replay-encode_log crc law usize_max wide base_generation (fitting n commits)
            (cut crc n commits) (fitting-IsLog base_generation n none commits valid)
            (cut-IsTail n none base_generation commits valid)).1
