-- ===== src/Csr/Snapshot.antt =====
-- crates/oxgraph-csr: a frozen topology exported as a snapshot (build.rs), and the view that is
-- borrowed from a snapshot (lib.rs).
pub mod Export
use oxgraph.Prelude.{
  ℕ, zero, suc, ◌+◌, ◌-◌, List, [], ◌∷◌, length, Result, ok, err, ◌>>=◌, ok_or, map_err, guard,
  ◌>>◌, ◌==◌, true, false, if◌then◌else◌,
}
use oxgraph.Layout.Width.{Width, u16, u32, u64, usize, from_usize}
use oxgraph.Layout.Crc.{crc32c_append}
use oxgraph.Snapshot.Errors.{
  PlanError, SectionViewError, SectionBindError, missing, version_mismatch, view,
}
use oxgraph.Snapshot.Reader.{Snapshot}
use oxgraph.Snapshot.Sections.{typed_section}
use oxgraph.Snapshot.Writer.{new_writer, section_widths, finish}
use oxgraph.Csr.{CsrGraph, CsrError, validate}
use oxgraph.Csr.Build.{FrozenTopology, GraphBuildError, snapshot_plan}

-- `CsrSnapshotError`
pub data CsrSnapshotError : Type 0 where
  missing_offsets missing_targets : CsrSnapshotError
  offsets_version targets_version : (kind expected actual : ℕ) → CsrSnapshotError
  offsets_view targets_view : (error : SectionViewError) → CsrSnapshotError
  offsets_empty : CsrSnapshotError
  node_count_overflow : (offsets_len : ℕ) → CsrSnapshotError
  csr : (error : CsrError) → CsrSnapshotError

abbrev pub map_offsets_bind : ℕ → SectionBindError → CsrSnapshotError
map_offsets_bind kind (missing _) = missing_offsets
map_offsets_bind kind (version_mismatch _ expected actual) = offsets_version kind expected actual
map_offsets_bind kind (view _ error) = offsets_view error

abbrev pub map_targets_bind : ℕ → SectionBindError → CsrSnapshotError
map_targets_bind kind (missing _) = missing_targets
map_targets_bind kind (version_mismatch _ expected actual) = targets_version kind expected actual
map_targets_bind kind (view _ error) = targets_view error

-- `WIDTH_CODE`; `usize` has no snapshot words.
abbrev pub width_code : Width → ℕ
width_code u16 = 0
width_code u32 = 1
width_code u64 = 2
width_code usize = 2

-- The bases are multiples of four, so that `|` adds the width's code.
abbrev pub offsets_kind : Width → ℕ
offsets_kind width = 0x0004 + width_code width

abbrev pub targets_kind : Width → ℕ
targets_kind width = 0x0008 + width_code width

abbrev pub section_version : ℕ
section_version = 1

module _ (usize_max : ℕ) (node_index edge_index : Width) where
  -- `offsets_addr` and `targets_addr` are the addresses of the two payloads.
  unfoldable pub from_snapshot_with_kinds :
      (offsets_addr targets_addr : ℕ)
      → Snapshot
      → (offsets_kind targets_kind version : ℕ) → Result CsrSnapshotError CsrGraph
  from_snapshot_with_kinds offsets_addr targets_addr s offsets_kind targets_kind version = do
    offsets ←
        map_err (map_offsets_bind offsets_kind)
          (typed_section offsets_addr s edge_index offsets_kind version)
    targets ←
        map_err (map_targets_bind targets_kind)
          (typed_section targets_addr s node_index targets_kind version)
    guard (if length offsets == 0 then false else true) offsets_empty
    node_count ←
        ok_or (from_usize usize_max node_index (length offsets - 1))
          (node_count_overflow (length offsets))
    map_err csr (validate usize_max node_count offsets targets)

  unfoldable pub from_snapshot :
      (offsets_addr targets_addr : ℕ) → Snapshot → Result CsrSnapshotError CsrGraph
  from_snapshot offsets_addr targets_addr s =
      from_snapshot_with_kinds offsets_addr targets_addr s (offsets_kind edge_index)
        (targets_kind node_index) section_version

  -- The calls of `export_topology_snapshot`; `GraphBuildError::from` wraps their errors.
  unfoldable pub plan_topology : FrozenTopology → Result PlanError (List ℕ)
  plan_topology t = do
    opened ← new_writer usize_max 2 crc32c_append
    with_offsets ←
        section_widths usize_max opened edge_index (offsets_kind edge_index) section_version
          t.offsets
    with_targets ←
        section_widths usize_max with_offsets node_index (targets_kind node_index) section_version
          t.targets
    finish with_targets

  unfoldable pub export_topology_snapshot : FrozenTopology → Result GraphBuildError (List ℕ)
  export_topology_snapshot t = map_err snapshot_plan (plan_topology t)
