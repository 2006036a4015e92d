-- ===== src/Examples/Csr.antt =====
-- crates/oxgraph-csr on a graph of three nodes.
use oxgraph.Prelude.{
  ℕ, ◌+◌, ◌≤◌, ◌<◌, ◌≡◌, ◌↔◌, refl, Bool, true, zero, suc, some, List, [], ◌∷◌, length, map, ok,
  err, arith,
}
use oxgraph.Layout.Width.{u16, u32}
use oxgraph.Layout.Build.{next_dense_index, id_to_slot, index_from_usize, slot_or_max}
use oxgraph.Layout.Integrity.{
  ◌!◌, check_offset_section, check_offsets_monotonic, monotonic_loop, check_final,
  check_value_range, range_loop,
}
use oxgraph.Csr.{
  CsrGraph, validate, element_successors, out_degree, outgoing_edges, try_target,
  for_each_out_target, visit_loop, try_node_slot, target_out_of_range, map_targets_issue,
}
use oxgraph.Csr.Validate.{IsCsr, view_of, validate_iff}
use oxgraph.Csr.Visits.{IsVisited}
use oxgraph.Csr.Traverse.{walks_row, successors_before, successors_all}
use oxgraph.Csr.Build.{
  GraphBuilder, FrozenTopology, add_node, add_edge, ensure_node, freeze, freeze_topology, as_view,
  count_loop, sum_loop, sum_counts, collect_offsets, index_zero, scatter_loop, store, frozen_edges,
  frozen_successors, outgoing_range, successors_loop,
}
use oxgraph.Csr.Build.Scatter.{heads_of}
use oxgraph.Csr.Build.Freeze.{IsFrozen, freeze_topology-IsFrozen}
use oxgraph.Csr.Build.Builder.{IsBuilder, add_edge_iff, add_edge-IsBuilder}
use oxgraph.Layout.Crc.{crc32c_append}
use oxgraph.Snapshot.Reader.{Snapshot}
use oxgraph.Snapshot.Sections.{open_checked}
use oxgraph.Csr.Snapshot.{export_topology_snapshot, from_snapshot}
use oxgraph.Csr.Snapshot.Export.{export_roundtrip}
use oxgraph.Csr.Build.Successors.{frozen_walk}
use mathlib.Core.Option
use oxgraph.Csr.Build.View.{freeze_successors}

abbrev host : ℕ
host = 0xffff_ffff_ffff_ffff

abbrev triangle : CsrGraph
triangle = view_of 3 (0 ∷ 2 ∷ 2 ∷ 3 ∷ []) (2 ∷ 1 ∷ 1 ∷ [])

triangle_passes : validate host 3 (0 ∷ 2 ∷ 2 ∷ 3 ∷ []) (2 ∷ 1 ∷ 1 ∷ []) ≡ ok triangle
unfolding validate check_offset_section check_offsets_monotonic monotonic_loop check_final
    check_value_range range_loop
triangle_passes = refl

target_refused : validate host 2 (0 ∷ 1 ∷ 1 ∷ []) (5 ∷ []) ≡ err (target_out_of_range 0 5 2)
unfolding validate check_offset_section check_offsets_monotonic monotonic_loop check_final
    check_value_range range_loop map_targets_issue
target_refused = refl

validate_iff_example :
    (validate host 3 (0 ∷ 2 ∷ 2 ∷ 3 ∷ []) (2 ∷ 1 ∷ 1 ∷ []) ≡ ok triangle)
    ↔ ((triangle ≡ triangle) × IsCsr host triangle)
validate_iff_example =
    validate_iff host 3 (0 ∷ 2 ∷ 2 ∷ 3 ∷ []) (2 ∷ 1 ∷ 1 ∷ []) triangle (omega arith) (omega arith)

triangle-IsCsr : IsCsr host triangle
triangle-IsCsr = (validate_iff_example.0 triangle_passes).1

-- A visitor that counts, and stops at the first target.
abbrev counting : ℕ → ℕ → ℕ × Bool
counting n target = (n + 1, true)

stopped_at_once : for_each_out_target host triangle 0 counting 0 ≡ some (1, true)
unfolding for_each_out_target visit_loop try_node_slot Option.bind Option.map
stopped_at_once = refl

offset_words : (i : ℕ) → i < 4 → triangle.offsets ! i ≤ 0xffff_ffff
offset_words zero h = omega arith
offset_words (suc zero) h = omega arith
offset_words (suc (suc zero)) h = omega arith
offset_words (suc (suc (suc zero))) h = omega arith
offset_words (suc (suc (suc (suc i)))) h = absurd (omega arith)

walks_row_example :
    (element_successors host triangle 0 ≡ some (2 ∷ 1 ∷ []))
    × (out_degree host triangle 0 ≡ some 2)
    × ((edges : List ℕ) × (outgoing_edges host u32 triangle 0 ≡ some edges)
        × (map (try_target host triangle) edges ≡ map some (2 ∷ 1 ∷ [])))
    × ((end : ℕ × Bool) × (for_each_out_target host triangle 0 counting 0 ≡ some end)
        × IsVisited counting 0 (2 ∷ 1 ∷ []) end)
walks_row_example = walks_row triangle triangle-IsCsr 0 (omega arith) u32 offset_words counting 0

successors_all_example : successors_before host triangle 3 ≡ some (2 ∷ 1 ∷ 1 ∷ [])
successors_all_example = successors_all triangle triangle-IsCsr

-- Three nodes with the edges 0 → 2, 2 → 1 and 0 → 1.
abbrev two_edges : GraphBuilder
two_edges = record { node_count = 3; sources = 0 ∷ 2 ∷ []; targets = 2 ∷ 1 ∷ [] }

abbrev built : GraphBuilder
built = record { node_count = 3; sources = 0 ∷ 2 ∷ 0 ∷ []; targets = 2 ∷ 1 ∷ 1 ∷ [] }

two_edges-IsBuilder : IsBuilder host two_edges
two_edges-IsBuilder = record {
  sources_visible = (omega arith, (omega arith, tt));
  targets_visible = (omega arith, (omega arith, tt));
  paired = refl;
  nodes_fit = omega arith;
}

edge_added : add_edge host u16 two_edges 0 1 ≡ ok (2, built)
unfolding add_edge ensure_node id_to_slot
edge_added = refl

add_edge_iff_example :
    (add_edge host u16 two_edges 0 1 ≡ ok (2, built))
    ↔ ((0 < 3) × (1 < 3) × (2 ≤ 0xffff) × (2 ≡ length two_edges.sources) × (built ≡ built))
add_edge_iff_example = add_edge_iff host two_edges two_edges-IsBuilder u16 0 1 2 built

add_edge-IsBuilder_example : IsBuilder host built
add_edge-IsBuilder_example =
    add_edge-IsBuilder host two_edges two_edges-IsBuilder u16 0 1 2 built edge_added

node_added : add_node host u16 built ≡ ok (3, record built { node_count = 4 })
unfolding add_node next_dense_index
node_added = refl

abbrev frozen : FrozenTopology
frozen = record {
  node_count = 3;
  offsets = 0 ∷ 2 ∷ 2 ∷ 3 ∷ [];
  edge_ids = 0 ∷ 2 ∷ 1 ∷ [];
  targets = 2 ∷ 1 ∷ 1 ∷ [];
  sources = 0 ∷ 2 ∷ 0 ∷ [];
  edge_targets = 2 ∷ 1 ∷ 1 ∷ [];
}

built_freezes : freeze host u16 u16 built ≡ ok frozen
unfolding freeze freeze_topology count_loop sum_counts sum_loop collect_offsets index_zero
    index_from_usize scatter_loop store
built_freezes = refl

freeze_topology-IsFrozen_example :
    (t : FrozenTopology) × (freeze_topology host u16 u16 3 (0 ∷ 2 ∷ 0 ∷ []) (2 ∷ 1 ∷ 1 ∷ []) ≡ ok t)
    × IsFrozen 3 (0 ∷ 2 ∷ 0 ∷ []) (2 ∷ 1 ∷ 1 ∷ []) t
freeze_topology-IsFrozen_example =
    freeze_topology-IsFrozen host 3 u16 u16 (0 ∷ 2 ∷ 0 ∷ []) (2 ∷ 1 ∷ 1 ∷ []) (omega arith)
      (add_edge-IsBuilder_example.sources_visible) refl (omega arith) (omega arith)

freeze_successors_example :
    (t : FrozenTopology) × (freeze host u16 u16 built ≡ ok t)
    × (g : CsrGraph) × (as_view host u16 t ≡ ok g)
    × IsCsr host g
    × ((node : ℕ)
        → node < 3
        → element_successors host g node ≡ some (heads_of node (0 ∷ 2 ∷ 0 ∷ []) (2 ∷ 1 ∷ 1 ∷ [])))
freeze_successors_example =
    freeze_successors host u16 u16 built add_edge-IsBuilder_example (omega arith) (omega arith)
      (omega arith) (omega arith)

export_roundtrip_example :
    (bytes : List ℕ) × (s : Snapshot) × (export_topology_snapshot host u16 u32 frozen ≡ ok bytes)
    × (open_checked host crc32c_append bytes ≡ ok s)
    × ((offsets_addr targets_addr : ℕ)
        → from_snapshot host u16 u32 offsets_addr targets_addr s ≡ ok triangle)
export_roundtrip_example =
    export_roundtrip host u16 u32 frozen (omega arith) (omega arith) triangle-IsCsr (omega arith)
      (omega arith)

frozen_walk_example :
    (frozen_edges host freeze_topology-IsFrozen_example.0 0 ≡ some (0 ∷ 2 ∷ []))
    × (frozen_successors host freeze_topology-IsFrozen_example.0 0 ≡ some (2 ∷ 1 ∷ []))
frozen_walk_example =
    frozen_walk host 3 (0 ∷ 2 ∷ 0 ∷ []) (2 ∷ 1 ∷ 1 ∷ []) freeze_topology-IsFrozen_example.0
      freeze_topology-IsFrozen_example.2 refl (omega arith) (omega arith) 0 (omega arith)

successors_walked : frozen_successors host frozen 0 ≡ some (2 ∷ 1 ∷ [])
unfolding frozen_successors frozen_edges outgoing_range successors_loop slot_or_max Option.bind
    Option.map
successors_walked = refl
