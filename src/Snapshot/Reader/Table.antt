-- ===== src/Snapshot/Reader/Table.antt =====
-- crates/oxgraph-snapshot/src/container.rs: `validate_section_table`, at both levels.
use oxgraph.Prelude.{
  ℕ, suc, ◌+◌, ◌*◌, ◌≤◌, ◌<◌, ◌≡◌, refl, ◌↔◌, Option, none, some, List, [], ◌∷◌, length, map, ok,
  arith, Result, inl, inr, true, ◌⊎◌, le→leb, err,
}
use oxgraph.Snapshot.Errors.{SnapshotError}
use oxgraph.Snapshot.Format.{RawSectionEntry, max_alignment_log2}
use oxgraph.Snapshot.Reader.{
  bytes_eq, check_entry, entries_loop, layout_loop, validate_layout, validate_section_table,
  section_table, layout, u64_max,
}
use oxgraph.Snapshot.Search.{IsAscendingFrom}

pub bytes_eq_iff : (xs ys : List ℕ) → (bytes_eq xs ys ≡ true) ↔ (xs ≡ ys)
bytes_eq_iff [] [] = (λ _. refl, λ _. refl)
bytes_eq_iff [] (y ∷ ys) = (λ h. cc, λ h. cc)
bytes_eq_iff (x ∷ xs) [] = (λ h. cc, λ h. cc)
bytes_eq_iff (x ∷ xs) (y ∷ ys) = ground (arith, bytes_eq_iff xs ys)

Result-cases-unit :
    (r : Result SnapshotError (Unit {0}))
    → (r ≡ ok tt) ⊎ ((issue : SnapshotError) × (r ≡ err issue))
Result-cases-unit (ok _) = inl refl
Result-cases-unit (err issue) = inr (issue, refl)

-- An entry that the reader takes: nothing reserved is set, and its payload lies in the file.
pub record IsCleanEntry (snapshot_len : ℕ) (e : RawSectionEntry) : Type 0 where
  pub no_flags : e.flags ≡ 0
  pub zero_reserved : e.reserved ≡ 0 ∷ 0 ∷ []
  pub aligned : e.alignment_log2 ≤ max_alignment_log2
  pub inside : e.offset + e.len ≤ snapshot_len

abbrev pub AreClean : ℕ → List RawSectionEntry → Type 0
AreClean snapshot_len [] = Unit
AreClean snapshot_len (e ∷ es) = IsCleanEntry snapshot_len e × AreClean snapshot_len es

-- Each payload starts at or after the end of the one before it.
abbrev pub AreLaidOut : ℕ → List RawSectionEntry → Type 0
AreLaidOut prev_end [] = Unit
AreLaidOut prev_end (e ∷ es) = (prev_end ≤ e.offset) × AreLaidOut (e.offset + e.len) es

abbrev pub entry_kinds : List RawSectionEntry → List ℕ
entry_kinds es = map (λ e. e.kind) es

abbrev AscendsAfter : Option ℕ → ℕ → Type 0
AscendsAfter none kind = Unit
AscendsAfter (some prev) kind = prev < kind

module _ (snapshot_len : ℕ) (fits : snapshot_len ≤ u64_max) where
  check_entry_iff :
      (prev : Option ℕ) (e : RawSectionEntry)
      → (check_entry snapshot_len prev e ≡ ok tt)
        ↔ (AscendsAfter prev e.kind × IsCleanEntry snapshot_len e)
  unfolding check_entry
  check_entry_iff none e = ground (arith, bytes_eq_iff e.reserved (0 ∷ 0 ∷ []))
  check_entry_iff (some prev) e = ground (arith, bytes_eq_iff e.reserved (0 ∷ 0 ∷ []))

  check_cases :
      (prev : Option ℕ) (e : RawSectionEntry)
      → (check_entry snapshot_len prev e ≡ ok tt)
        ⊎ ((issue : SnapshotError) × (check_entry snapshot_len prev e ≡ err issue))
  check_cases prev e = Result-cases-unit (check_entry snapshot_len prev e)

  loop_cases :
      (prev : Option ℕ) (es : List RawSectionEntry)
      → (entries_loop snapshot_len prev es ≡ ok tt)
        ⊎ ((issue : SnapshotError) × (entries_loop snapshot_len prev es ≡ err issue))
  loop_cases prev es = Result-cases-unit (entries_loop snapshot_len prev es)

  entries_loop_iff :
      (prev : Option ℕ) (es : List RawSectionEntry)
      → (entries_loop snapshot_len prev es ≡ ok tt)
        ↔ (IsAscendingFrom prev (entry_kinds es) × AreClean snapshot_len es)
  unfolding entries_loop
  entries_loop_iff none [] = (λ _. (tt, tt), λ _. refl)
  entries_loop_iff (some prev) [] = (λ _. (tt, tt), λ _. refl)
  entries_loop_iff none (e ∷ es) =
      ground (arith, check_entry_iff none e, entries_loop_iff (some e.kind) es, check_cases none e)
  entries_loop_iff (some prev) (e ∷ es) = ground (
    arith,
    check_entry_iff (some prev) e,
    entries_loop_iff (some e.kind) es,
    check_cases (some prev) e,
  )

  layout_loop_iff :
      (index prev_end : ℕ) (es : List RawSectionEntry)
      → AreClean snapshot_len es
      → (layout_loop index prev_end es ≡ ok tt) ↔ AreLaidOut prev_end es
  unfolding layout_loop
  layout_loop_iff index prev_end [] clean = (λ _. tt, λ _. refl)
  layout_loop_iff index prev_end (e ∷ es) clean =
      let no_overflow = le→leb (e.offset + e.len) u64_max (omega (arith, clean.0.inside)) in
      ground (arith, layout_loop_iff (suc index) (e.offset + e.len) es clean.1)

  module _ (bytes : List ℕ) (es : List RawSectionEntry) (is_len : length bytes ≡ snapshot_len) where
    -- The `SectionTable` level accepts exactly the tables with strictly ascending kinds whose
    -- entries are clean and in range; file lengths fit 64 bits.
    pub validate_section_table_iff :
        (validate_section_table bytes es section_table ≡ ok tt)
        ↔ (IsAscendingFrom none (entry_kinds es) × AreClean snapshot_len es)
    unfolding validate_section_table
    validate_section_table_iff =
        rw is_len (ground (arith, entries_loop_iff none es, loop_cases none es))

    -- The `Layout` level also demands that the payloads follow the table in order.
    pub validate_section_table_layout_iff :
        32 + length es * 32 ≤ u64_max
        → (validate_section_table bytes es layout ≡ ok tt) ↔ (
            IsAscendingFrom none (entry_kinds es)
            × AreClean snapshot_len es
            × AreLaidOut (32 + length es * 32) es)
    unfolding validate_section_table validate_layout
    validate_section_table_layout_iff small = rw is_len (
        ground (
          arith,
          entries_loop_iff none es,
          loop_cases none es,
          layout_loop_iff 0 (32 + length es * 32) es,
        ))
