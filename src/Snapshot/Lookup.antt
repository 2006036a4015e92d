-- ===== src/Snapshot/Lookup.antt =====
-- crates/oxgraph-snapshot/src/container.rs: `open_with` and `section` on opened snapshots.
use mathlib.Core.Option
use mathlib.Core.Option.{some-injective}
use oxgraph.Prelude.{
  ℕ, zero, suc, ◌+◌, ◌*◌, ◌≤◌, ◌<◌, ◌≡◌, refl, ap, subst, none, some, List, [], ◌∷◌, length, get_or,
  get_elem?, take, drop, ok, arith, inl, inr, length-take, length-drop, length-map, Option-cases,
}
use oxgraph.Snapshot.Format.{RawSectionEntry, header_of}
use oxgraph.Snapshot.Reader.{
  Snapshot, ValidationLevel, layout, open_with, entries_of, parse_header,
  validate_magic_versions_reserved, validate_section_table, u64_max,
}
use oxgraph.Snapshot.Reader.Table.{
  IsCleanEntry, AreClean, AreLaidOut, validate_section_table_layout_iff,
}
use oxgraph.Snapshot.Search.{IsAscendingFrom, binary_search, binary_search_iff}
use oxgraph.Snapshot.Sections.{Section, from_entry, kinds, section}

-- The invariant of an open snapshot of a file.
pub record IsOpen (bytes : List ℕ) (s : Snapshot) : Type 0 where
  pub whole_file : s.bytes ≡ bytes
  pub ascending : IsAscendingFrom none (kinds s.entries)
  pub clean : AreClean (length bytes) s.entries

length-entries_of : (count : ℕ) (table : List ℕ) → length (entries_of count table) ≡ count
unfolding entries_of
length-entries_of zero table = refl
length-entries_of (suc count) table = ap suc (length-entries_of count (drop 32 table))

module _ (usize_max : ℕ) (bytes : List ℕ) (s : Snapshot) where
  opened_parts :
      (level : ValidationLevel)
      → open_with usize_max bytes level ≡ ok s
      → (s.bytes ≡ bytes) × (validate_section_table bytes s.entries level ≡ ok tt)
  unfolding open_with parse_header validate_magic_versions_reserved
  opened_parts level h = ground arith

  opened_entries :
      (level : ValidationLevel)
      → open_with usize_max bytes level ≡ ok s
      → ((header_of bytes).section_count ≤ 1024)
        × (s.entries
            ≡ entries_of
                (header_of bytes).section_count
                (take ((header_of bytes).section_count * 32) (drop 32 bytes)))
  unfolding open_with parse_header validate_magic_versions_reserved
  opened_entries level h = ground arith

  opened_count :
      (level : ValidationLevel) → open_with usize_max bytes level ≡ ok s → length s.entries ≤ 1024
  opened_count level h = let (le, e) = opened_entries level h in rw (e, length-entries_of) le

  -- Where the file length fits 64 bits, opening at the default level gives a snapshot of the whole
  -- file whose kinds strictly ascend, whose entries are clean and in range, and whose payloads
  -- follow the table without overlap.
  pub open_with-IsOpen :
      length bytes ≤ u64_max
      → open_with usize_max bytes layout ≡ ok s
      → IsOpen bytes s × AreLaidOut (32 + length s.entries * 32) s.entries
  open_with-IsOpen fits h =
      let (same, valid) = opened_parts layout h in
      let (up, clean, laid) =
        (validate_section_table_layout_iff (length bytes) fits bytes s.entries refl
            (omega (arith, opened_count layout h))).0
          valid in
      (record { whole_file = same; ascending = up; clean = clean }, laid)

-- Entry `i` of a clean table, and the section that it stands for.
clean_at :
    (snapshot_len : ℕ) (es : List RawSectionEntry) (i : ℕ) (e : RawSectionEntry)
    → AreClean snapshot_len es
    → get_elem? es i ≡ some e
    → IsCleanEntry snapshot_len e
clean_at n [] i e h q = cc
clean_at n (x ∷ es) zero e h q = subst (IsCleanEntry n) (some-injective x e q) h.0
clean_at n (x ∷ es) (suc i) e h q = clean_at n es i e h.1 q

entry_at :
    (es : List RawSectionEntry) (i : ℕ)
    → i < length es
    → (e : RawSectionEntry) × (get_elem? es i ≡ some e) × (get_or (kinds es) i 0 ≡ e.kind)
entry_at [] i h = absurd (omega arith)
entry_at (x ∷ es) zero h = (x, refl, refl)
entry_at (x ∷ es) (suc i) h = entry_at es i (omega arith)

kind_at :
    (es : List RawSectionEntry) (i : ℕ) (e : RawSectionEntry)
    → get_elem? es i ≡ some e
    → (i < length es) × (get_or (kinds es) i 0 ≡ e.kind)
kind_at [] i e q = cc
kind_at (x ∷ es) zero e q = (omega arith, cc)
kind_at (x ∷ es) (suc i) e q = omega (arith, kind_at es i e q)

module _ (bytes : List ℕ) (s : Snapshot) (opened : IsOpen bytes s) where
  -- A payload is never cut short.
  length-payload :
      (i : ℕ) (e : RawSectionEntry)
      → get_elem? s.entries i ≡ some e
      → length (from_entry bytes e).payload ≡ e.len
  unfolding from_entry
  length-payload i e q =
      let clean = clean_at (length bytes) s.entries i e opened.clean q in
      omega
        (arith, clean.inside, length-take e.len (drop e.offset bytes), length-drop e.offset bytes)

  -- In an opened snapshot, `section` finds the section of every entry by its kind: the slice of the
  -- file that the entry names, of the length that it declares.
  pub section_found :
      (i : ℕ) (e : RawSectionEntry)
      → get_elem? s.entries i ≡ some e
      → (section s e.kind ≡ some (from_entry bytes e))
        × (length (from_entry bytes e).payload ≡ e.len)
  unfolding section Option.bind Option.map
  section_found i e q =
      let (lt, k) = kind_at s.entries i e q in
      let found =
        (binary_search_iff (kinds s.entries) e.kind opened.ascending i).1
          (omega (arith, length-map (λ (x : RawSectionEntry). x.kind) s.entries), k) in
      (rw (found, q, opened.whole_file) refl, length-payload i e q)

  -- In an opened snapshot, a section that `section` finds is that of an entry of the kind asked
  -- for.
  pub section_only :
      (kind : ℕ) (x : Section)
      → section s kind ≡ some x
      → (i : ℕ) × (e : RawSectionEntry) × (get_elem? s.entries i ≡ some e)
        × (e.kind ≡ kind)
        × (x ≡ from_entry bytes e)
  unfolding section Option.bind Option.map
  section_only kind x h = elim (Option-cases (binary_search (kinds s.entries) kind)) [
    | inl e ↦ absurd (none_found e)
    | inr (i, found) ↦
        let (lt, k) = (binary_search_iff (kinds s.entries) kind opened.ascending i).0 found in
        let (e, q, same) =
          entry_at s.entries i
            (omega (arith, length-map (λ (y : RawSectionEntry). y.kind) s.entries)) in
        (i, e, q, omega arith, given i e found q)
  ]
    where
      none_found : binary_search (kinds s.entries) kind ≡ none → ⊥
      none_found e = cc (rw (e, Option.bind) at h)

      given :
          (i : ℕ) (e : RawSectionEntry)
          → binary_search (kinds s.entries) kind ≡ some i
          → get_elem? s.entries i ≡ some e
          → x ≡ from_entry bytes e
      given i e found q = cc (rw (found, q, opened.whole_file) at h)
