-- ===== src/Snapshot/Writer/Contents.antt =====
-- crates/oxgraph-snapshot/src/container.rs: what a `SnapshotWriter` and a `SectionSink` hold.
use oxgraph.Prelude.{
  ℕ, ◌+◌, ◌*◌, ◌%◌, ◌^◌, ◌≤◌, ◌<◌, ◌≡◌, ◌∙◌, none, List, [], ◌∷◌, ◌++◌, length, drop, slice, ok,
  arith, take-append_le, drop-append_le, length-append, length-drop,
}
use oxgraph.Snapshot.Format.{RawSectionEntry}
use oxgraph.Snapshot.Format.Codec.{IsEntry}
use oxgraph.Snapshot.Reader.{Checksum32}
use oxgraph.Snapshot.Reader.Table.{AreClean, AreLaidOut, entry_kinds}
use oxgraph.Snapshot.Search.{IsAscendingFrom}
use oxgraph.Snapshot.Writer.{SnapshotWriter, SectionSink, last_kind, check_last}

-- A section as its writer's caller sees it.
pub record Written : Type 0 where
  pub kind : ℕ
  pub version : ℕ
  pub alignment_log2 : ℕ
  pub payload : List ℕ

-- The documented laws of a `Checksum32`: a 32-bit result, zero for no bytes, and continuation.
pub record IsChecksum (f : Checksum32) : Type 0 where
  pub word : (seed : ℕ) (bytes : List ℕ) → f seed bytes < 2 ^ 32
  pub empty : f 0 [] ≡ 0
  pub continued : (xs ys : List ℕ) → f (f 0 xs) ys ≡ f 0 (xs ++ ys)

-- Entry `e` stores section `x` in `buf`, from a multiple of its alignment on.
pub record StoresOne (f : Checksum32) (buf : List ℕ) (e : RawSectionEntry) (x : Written)
    : Type 0 where
  pub kind : e.kind ≡ x.kind
  pub version : e.version ≡ x.version
  pub alignment : e.alignment_log2 ≡ x.alignment_log2
  pub on_boundary : e.offset % 2 ^ x.alignment_log2 ≡ 0
  pub crc : e.crc32c ≡ f 0 x.payload
  pub payload : slice buf e.offset e.len ≡ x.payload

abbrev pub Stores : Checksum32 → List ℕ → List RawSectionEntry → List Written → Type 0
Stores f buf [] [] = Unit
Stores f buf [] (x ∷ xs) = ⊥
Stores f buf (e ∷ es) [] = ⊥
Stores f buf (e ∷ es) (x ∷ xs) = StoresOne f buf e x × Stores f buf es xs

abbrev pub AreEntries : List RawSectionEntry → Type 0
AreEntries [] = Unit
AreEntries (e ∷ es) = IsEntry e × AreEntries es

-- The invariant of a writer that was given the sections `xs`.
pub record IsWriter (w : SnapshotWriter) (xs : List Written) : Type 0 where
  pub limit : w.max_sections ≤ 1024
  pub few : length w.entries ≤ w.max_sections
  pub room : 32 + w.max_sections * 32 ≤ length w.buf
  pub ascending : IsAscendingFrom none (entry_kinds w.entries)
  pub clean : AreClean (length w.buf) w.entries
  pub laid_out : AreLaidOut (32 + w.max_sections * 32) w.entries
  pub words : AreEntries w.entries
  pub stores : Stores w.checksum w.buf w.entries xs

-- The invariant of an open sink: `sofar` has been written to it.
pub record IsSink (sink : SectionSink) (xs : List Written) (sofar : List ℕ) : Type 0 where
  pub writer : IsWriter (sink.writer) xs
  pub more : length sink.writer.entries < sink.writer.max_sections
  pub behind : 32 + sink.writer.max_sections * 32 ≤ sink.start
  pub inside : sink.start ≤ length sink.writer.buf
  pub before : AreClean sink.start sink.writer.entries
  pub next : check_last (last_kind sink.writer.entries) sink.kind ≡ ok tt
  pub aligned : sink.alignment_log2 ≤ 12
  pub on_boundary : sink.start % 2 ^ sink.alignment_log2 ≡ 0
  pub kind_word : sink.kind < 2 ^ 32
  pub version_word : sink.version < 2 ^ 32
  pub held : drop sink.start sink.writer.buf ≡ sofar
  pub crc : sink.crc ≡ sink.writer.checksum 0 sofar

pub slice-append :
    (buf zs : List ℕ) (start len : ℕ)
    → start + len ≤ length buf
    → slice (buf ++ zs) start len ≡ slice buf start len
slice-append buf zs start len h =
    rw (drop-append_le start buf zs (omega arith))
      (take-append_le len (drop start buf) zs (omega (arith, length-drop start buf)))

pub AreClean-mono : (m n : ℕ) (es : List RawSectionEntry) → m ≤ n → AreClean m es → AreClean n es
AreClean-mono m n [] h c = tt
AreClean-mono m n (e ∷ es) h c = (
  record {
    no_flags = c.0.no_flags;
    zero_reserved = c.0.zero_reserved;
    aligned = c.0.aligned;
    inside = omega (arith, c.0.inside);
  },
  AreClean-mono m n es h c.1,
)

-- Appending to the buffer moves nothing that is stored.
pub Stores-append :
    (f : Checksum32) (buf zs : List ℕ) (es : List RawSectionEntry) (xs : List Written)
    → AreClean (length buf) es
    → Stores f buf es xs
    → Stores f (buf ++ zs) es xs
Stores-append f buf zs [] [] c s = tt
Stores-append f buf zs [] (x ∷ xs) c s = s
Stores-append f buf zs (e ∷ es) [] c s = s
Stores-append f buf zs (e ∷ es) (x ∷ xs) c s = (
  record {
    kind = s.0.kind;
    version = s.0.version;
    alignment = s.0.alignment;
    on_boundary = s.0.on_boundary;
    crc = s.0.crc;
    payload = slice-append buf zs e.offset e.len c.0.inside ∙ s.0.payload;
  },
  Stores-append f buf zs es xs c.1 s.1,
)

pub IsWriter-append :
    (w : SnapshotWriter) (xs : List Written) (zs : List ℕ)
    → IsWriter w xs
    → IsWriter (record w { buf = w.buf ++ zs }) xs
IsWriter-append w xs zs h = record {
  limit = h.limit;
  few = h.few;
  room = omega (arith, h.room, length-append w.buf zs);
  ascending = h.ascending;
  clean =
      AreClean-mono (length w.buf) (length (w.buf ++ zs)) w.entries
        (omega (arith, length-append w.buf zs)) h.clean;
  laid_out = h.laid_out;
  words = h.words;
  stores = Stores-append w.checksum w.buf zs w.entries xs h.clean h.stores;
}
