-- ===== src/Csr/Build.antt =====
-- crates/oxgraph-csr/src/build.rs: the unweighted builder, and its freezing by a counting sort of
-- the edges by their source. A `Vec` is a list, an id the number that it holds.
pub mod Counting
pub mod Offsets
pub mod Scatter
pub mod Rows
pub mod Freeze
pub mod Builder
pub mod View
pub mod Successors
use oxgraph.Prelude.{
  ℕ, zero, suc, ◌+◌, ◌-◌, Option, none, some, List, [], ◌∷◌, ◌++◌, length, get_elem?, set,
  replicate, ltb, leb, if◌then◌else◌, Result, ok, err, ◌>>=◌, ◌>>◌, guard, ok_or, map_err,
}
use oxgraph.Layout.Width.{Width, to_usize, from_usize, checked_add}
use oxgraph.Layout.Build.{
  next_dense_index, id_to_slot, index_from_usize, map_offset_overflow, slot_or_max,
}
use oxgraph.Snapshot.Errors.{PlanError}
use mathlib.Core.Option
use oxgraph.Csr.{CsrGraph, range_slice}

-- `GraphBuildError`, without the errors of the property layers.
pub data GraphBuildError : Type 0 where
  invalid_node : (node : ℕ) → GraphBuildError
  invalid_edge : (edge : ℕ) → GraphBuildError
  id_overflow : (value : ℕ) → GraphBuildError
  snapshot_plan : (source : PlanError) → GraphBuildError

-- How a freeze stops short: with an error, or in the panic of an index out of bounds.
pub data Halt : Type 0 where
  refused : (error : GraphBuildError) → Halt
  panicked : Halt

pub record GraphBuilder : Type 0 where
  pub node_count : ℕ
  pub sources : List ℕ
  pub targets : List ℕ

pub record FrozenTopology : Type 0 where
  pub node_count : ℕ
  pub offsets : List ℕ
  pub edge_ids : List ℕ
  pub targets : List ℕ
  pub sources : List ℕ
  pub edge_targets : List ℕ

-- `GraphBuilder::new`
abbrev pub new_builder : GraphBuilder
new_builder = record { node_count = 0; sources = []; targets = [] }

abbrev pub unwrap_or : Option ℕ → ℕ → ℕ
unwrap_or none default = default
unwrap_or (some value) default = value

module _ (usize_max : ℕ) where
  -- The id and the builder after it.
  unfoldable pub add_node : Width → GraphBuilder → Result GraphBuildError (ℕ × GraphBuilder)
  add_node node_index b = do
    (id, node_count') ← next_dense_index usize_max node_index b.node_count id_overflow
    ok (id, record b { node_count = node_count' })

  unfoldable pub ensure_node : ℕ → ℕ → Result GraphBuildError ℕ
  ensure_node node node_count =
      map_err (λ _. invalid_node node) (id_to_slot usize_max node node_count)

  unfoldable pub add_edge : Width → GraphBuilder → ℕ → ℕ → Result GraphBuildError (ℕ × GraphBuilder)
  add_edge edge_index b source target = do
    _ ← ensure_node source b.node_count
    _ ← ensure_node target b.node_count
    edge ←
        ok_or (from_usize usize_max edge_index (length b.sources)) (id_overflow (length b.sources))
    ok (edge, record b { sources = b.sources ++ source ∷ []; targets = b.targets ++ target ∷ [] })

  -- The loop of `freeze_topology` that counts the edges of each source, one slot up.
  unfoldable pub count_loop : List ℕ → List ℕ → Result Halt (List ℕ)
  count_loop counts [] = ok counts
  count_loop counts (source ∷ sources) = do
    slot ← ok_or (to_usize usize_max source) (refused (id_overflow usize_max))
    seen ← ok_or (get_elem? counts (slot + 1)) panicked
    next ← ok_or (checked_add usize_max seen 1) (refused (id_overflow usize_max))
    count_loop (set counts (slot + 1) next) sources

  -- The loop that sums the counts in place, after the slot that holds `previous`.
  unfoldable pub sum_loop : ℕ → List ℕ → Result Halt (List ℕ)
  sum_loop previous [] = ok []
  sum_loop previous (count ∷ counts) = do
    sum ← ok_or (checked_add usize_max count previous) (refused (id_overflow usize_max))
    sums ← sum_loop sum counts
    ok (sum ∷ sums)

  unfoldable pub sum_counts : List ℕ → Result Halt (List ℕ)
  sum_counts [] = ok []
  sum_counts (count ∷ counts) = do sums ← sum_loop count counts; ok (count ∷ sums)

  -- The offsets, collected in the edge width.
  unfoldable pub collect_offsets : Width → List ℕ → Result Halt (List ℕ)
  collect_offsets edge_index [] = ok []
  collect_offsets edge_index (value ∷ values) = do
    offset ← ok_or (from_usize usize_max edge_index value) (refused (id_overflow value))
    offsets ← collect_offsets edge_index values
    ok (offset ∷ offsets)

  -- `edge_zero` and `node_zero`
  unfoldable pub index_zero : Width → Result GraphBuildError ℕ
  index_zero width =
      map_err (λ e. map_offset_overflow e id_overflow) (index_from_usize usize_max width 0)

  -- `values[index] = value`
  unfoldable pub store : List ℕ → ℕ → ℕ → Result Halt (List ℕ)
  store values index value =
      if ltb index (length values) then ok (set values index value) else err panicked

  -- The loop that places the edges left, the first of them numbered `edge`: the edge ids and the
  -- targets, grouped by source.
  unfoldable pub scatter_loop :
      Width
      → ℕ
      → (cursor edge_ids grouped : List ℕ) → (sources targets : List ℕ)
      → Result Halt (List ℕ × List ℕ)
  scatter_loop edge_index edge cursor edge_ids grouped [] targets = ok (edge_ids, grouped)
  scatter_loop edge_index edge cursor edge_ids grouped (source ∷ sources) [] =
      ok (edge_ids, grouped)
  scatter_loop edge_index edge cursor edge_ids grouped (source ∷ sources) (target ∷ targets) = do
    slot ← ok_or (to_usize usize_max source) (refused (id_overflow usize_max))
    position ← ok_or (get_elem? cursor slot) panicked
    next ← ok_or (checked_add usize_max position 1) (refused (id_overflow usize_max))
    id ← ok_or (from_usize usize_max edge_index edge) (refused (id_overflow edge))
    edge_ids' ← store edge_ids position id
    grouped' ← store grouped position target
    scatter_loop edge_index (suc edge) (set cursor slot next) edge_ids' grouped' sources targets

  unfoldable pub freeze_topology :
      (node_index edge_index : Width) → ℕ → (sources targets : List ℕ) → Result Halt FrozenTopology
  freeze_topology node_index edge_index node_count sources targets = do
    counts ← count_loop (replicate (node_count + 1) 0) sources
    sums ← sum_counts counts
    offsets ← collect_offsets edge_index sums
    no_edge ← map_err refused (index_zero edge_index)
    no_node ← map_err refused (index_zero node_index)
    (edge_ids, grouped) ←
        scatter_loop edge_index 0 sums (replicate (length sources) no_edge)
          (replicate (length targets) no_node) sources targets
    ok (record {
      node_count = node_count;
      offsets = offsets;
      edge_ids = edge_ids;
      targets = grouped;
      sources = sources;
      edge_targets = targets;
    })

  -- `GraphBuilder::freeze`
  unfoldable pub freeze :
      (node_index edge_index : Width) → GraphBuilder → Result Halt FrozenTopology
  freeze node_index edge_index b =
      freeze_topology node_index edge_index b.node_count b.sources b.targets

  -- `FrozenGraph::as_view`
  unfoldable pub as_view : Width → FrozenTopology → Result GraphBuildError CsrGraph
  as_view node_index t = do
    node_count ← ok_or (from_usize usize_max node_index t.node_count) (id_overflow t.node_count)
    ok (record {
      node_count = node_count;
      node_bound = t.node_count;
      offsets = t.offsets;
      targets = t.targets;
    })

  -- `FrozenGraph::transpose`
  unfoldable pub transpose :
      (node_index edge_index : Width) → FrozenTopology → Result Halt FrozenTopology
  transpose node_index edge_index t =
      freeze_topology node_index edge_index t.node_count t.edge_targets t.sources

  -- The range of a node's edges; `none` is the panic of an index out of bounds.
  unfoldable pub outgoing_range : FrozenTopology → ℕ → Option (ℕ × ℕ)
  outgoing_range t node =
      let slot = slot_or_max usize_max node in
      let edge_count = length t.edge_ids in
      Option.bind (get_elem? t.offsets slot) (λ first.
        Option.map
          (λ last. (
            unwrap_or (to_usize usize_max first) edge_count,
            unwrap_or (to_usize usize_max last) edge_count,
          ))
          (get_elem? t.offsets (slot + 1)))

  -- `FrozenGraph::outgoing_edges`, run to its end.
  unfoldable pub frozen_edges : FrozenTopology → ℕ → Option (List ℕ)
  frozen_edges t node =
      Option.bind (outgoing_range t node) (λ range. range_slice t.edge_ids range.0 range.1)

  -- `FrozenSuccessors`, run over the edge ids left.
  unfoldable pub successors_loop : List ℕ → List ℕ → Option (List ℕ)
  successors_loop targets_by_edge [] = some []
  successors_loop targets_by_edge (edge ∷ edges) =
      let rest = successors_loop targets_by_edge edges in
      Option.bind (get_elem? targets_by_edge (slot_or_max usize_max edge))
        (λ target. Option.map (λ targets. target ∷ targets) rest)

  -- `FrozenGraph::element_successors`, run to its end.
  unfoldable pub frozen_successors : FrozenTopology → ℕ → Option (List ℕ)
  frozen_successors t node =
      Option.bind (frozen_edges t node) (λ edges. successors_loop t.edge_targets edges)
