-- ===== src/Snapshot/Writer/Concat.antt =====
-- crates/oxgraph-snapshot/src/container.rs: a table entry appended to a writer's entries.
use oxgraph.Prelude.{ℕ, ◌+◌, ◌≤◌, ◌≡◌, refl, Option, none, some, List, [], ◌∷◌, ◌++◌, ok, arith}
use oxgraph.Snapshot.Format.{RawSectionEntry}
use oxgraph.Snapshot.Format.Codec.{IsEntry}
use oxgraph.Snapshot.Reader.{Checksum32}
use oxgraph.Snapshot.Reader.Table.{IsCleanEntry, AreClean, AreLaidOut, entry_kinds}
use oxgraph.Snapshot.Search.{IsAscendingFrom}
use oxgraph.Snapshot.Writer.{last_kind, check_last}
use oxgraph.Snapshot.Writer.Contents.{Written, StoresOne, Stores, AreEntries}

pub last_kind-ascending :
    (prev : Option ℕ) (es : List RawSectionEntry) (e : RawSectionEntry)
    → IsAscendingFrom prev (entry_kinds es)
    → check_last (last_kind es) e.kind ≡ ok tt
    → (es ≡ [] → IsAscendingFrom prev (e.kind ∷ []))
    → IsAscendingFrom prev (entry_kinds (es ++ e ∷ []))
last_kind-ascending prev [] e up c base = base refl
last_kind-ascending none (x ∷ []) e up c base = ground arith
last_kind-ascending (some p) (x ∷ []) e up c base = ground arith
last_kind-ascending none (x ∷ y ∷ es) e up c base =
    last_kind-ascending (some x.kind) (y ∷ es) e up c (λ q. cc)
last_kind-ascending (some p) (x ∷ y ∷ es) e up c base =
    (up.0, last_kind-ascending (some x.kind) (y ∷ es) e up.1 c (λ q. cc))

pub AreLaidOut-concat :
    (start n : ℕ) (es : List RawSectionEntry) (e : RawSectionEntry)
    → AreLaidOut start es
    → AreClean n es
    → start ≤ e.offset
    → n ≤ e.offset
    → AreLaidOut start (es ++ e ∷ [])
AreLaidOut-concat start n [] e l c p q = (p, tt)
AreLaidOut-concat start n (x ∷ es) e l c p q =
    (l.0, AreLaidOut-concat (x.offset + x.len) n es e l.1 c.1 (omega (arith, c.0.inside)) q)

pub AreClean-concat :
    (n : ℕ) (es : List RawSectionEntry) (e : RawSectionEntry)
    → AreClean n es
    → IsCleanEntry n e
    → AreClean n (es ++ e ∷ [])
AreClean-concat n [] e c d = (d, tt)
AreClean-concat n (x ∷ es) e c d = (c.0, AreClean-concat n es e c.1 d)

pub AreEntries-concat :
    (es : List RawSectionEntry) (e : RawSectionEntry)
    → AreEntries es
    → IsEntry e
    → AreEntries (es ++ e ∷ [])
AreEntries-concat [] e c d = (d, tt)
AreEntries-concat (x ∷ es) e c d = (c.0, AreEntries-concat es e c.1 d)

pub Stores-concat :
    (f : Checksum32) (buf : List ℕ) (es : List RawSectionEntry) (xs : List Written)
    (e : RawSectionEntry) (x : Written)
    → Stores f buf es xs
    → StoresOne f buf e x
    → Stores f buf (es ++ e ∷ []) (xs ++ x ∷ [])
Stores-concat f buf [] [] e x s t = (t, tt)
Stores-concat f buf [] (y ∷ xs) e x s t = absurd s
Stores-concat f buf (d ∷ es) [] e x s t = absurd s
Stores-concat f buf (d ∷ es) (y ∷ xs) e x s t = (s.0, Stores-concat f buf es xs e x s.1 t)
