-- ===== src/Csr/Build/Successors.antt =====
-- crates/oxgraph-csr/src/build.rs: the walks of a frozen graph.
use mathlib.Core.Option
use oxgraph.Prelude.{
  ℕ, suc, ◌+◌, ◌≤◌, ◌<◌, ◌≡◌, refl, some, List, [], ◌∷◌, ◌++◌, length, arith, inl, inr, le→leb,
  get_elem?, get_elem?-eq-get_or, append_assoc, length-append,
}
use oxgraph.Layout.Integrity.{◌!◌}
use oxgraph.Layout.Integrity.Offsets.{offsets_mono, offsets-le-len}
use oxgraph.Layout.Build.{slot_or_max}
use oxgraph.Csr.Build.{
  FrozenTopology, outgoing_range, frozen_edges, frozen_successors, successors_loop,
}
use oxgraph.Csr.Build.Counting.{≡-cases}
use oxgraph.Csr.Build.Scatter.{ids_of, heads_of, ids_hit, ids_miss, heads_hit, heads_miss}
use oxgraph.Csr.Build.Freeze.{IsFrozen}

get_elem?-append : (xs ys : List ℕ) (y : ℕ) → get_elem? (xs ++ y ∷ ys) (length xs) ≡ some y
get_elem?-append [] ys y = refl
get_elem?-append (x ∷ xs) ys y = get_elem?-append xs ys y

module _ (usize_max : ℕ) where
  slot_small : (id : ℕ) → id ≤ usize_max → slot_or_max usize_max id ≡ id
  unfolding slot_or_max
  slot_small id h = rw (slot_or_max, le→leb id usize_max h) refl

  -- The targets of a node's edge ids are the targets of its edges.
  successors_of :
      (node : ℕ) (before sources targets : List ℕ)
      → length sources ≡ length targets
      → length before + length sources ≤ usize_max
      → successors_loop usize_max (before ++ targets) (ids_of node (length before) sources)
        ≡ some (heads_of node sources targets)
  unfolding successors_loop Option.bind Option.map
  successors_of node before [] targets same fits = refl
  successors_of node before (source ∷ sources) [] same fits = absurd (omega arith)
  successors_of node before (source ∷ sources) (target ∷ targets) same fits =
      let size : length (before ++ target ∷ []) ≡ suc (length before) =
        omega (arith, length-append before (target ∷ [])) in
      let rest : successors_loop usize_max (before ++ target ∷ targets)
            (ids_of node (suc (length before)) sources)
          ≡ some (heads_of node sources targets) =
        rw (← size, ← append_assoc before (target ∷ []) targets)
          (successors_of node (before ++ target ∷ []) sources targets (omega arith)
            (omega arith)) in
      elim (≡-cases source node) [
        | inl e ↦
            rw
              (
                ids_hit node (length before) source sources e,
                heads_hit node source target sources targets e,
                slot_small (length before) (omega arith),
                get_elem?-append before targets target,
                rest,
              )
              refl
        | inr e ↦
            rw
              (
                ids_miss node (length before) source sources e,
                heads_miss node source target sources targets e,
              )
              rest
      ]

  module _ (node_count : ℕ) (sources targets : List ℕ) (t : FrozenTopology)
      (frozen : IsFrozen node_count sources targets t) where
    -- A frozen graph whose counts fit `usize` answers every visible node without a panic: its
    -- outgoing edges are the ids of the node's edges and its successors their targets, in the order
    -- in which they were added.
    pub frozen_walk :
        length sources ≡ length targets
        → length sources ≤ usize_max
        → node_count ≤ usize_max
        → (node : ℕ) → node < node_count
        → (frozen_edges usize_max t node ≡ some (ids_of node 0 sources))
          × (frozen_successors usize_max t node ≡ some (heads_of node sources targets))
    unfolding frozen_edges frozen_successors outgoing_range Option.bind Option.map
    frozen_walk same fits nodes_fit node inside =
        let size = frozen.ranges.size in
        let up = offsets_mono frozen.ranges node (suc node) (omega arith) (omega arith) in
        let last = offsets-le-len frozen.ranges (suc node) (omega arith) in
        let len = frozen.ids_len in
        let e : node + 1 ≡ suc node = omega arith in
        let walk : frozen_edges usize_max t node ≡ some (ids_of node 0 sources) =
          rw
            (
              slot_small node (omega arith),
              get_elem?-eq-get_or t.offsets node 0 (omega arith),
              e,
              get_elem?-eq-get_or t.offsets (suc node) 0 (omega arith),
              le→leb (t.offsets ! node) usize_max (omega arith),
              le→leb (t.offsets ! suc node) usize_max (omega arith),
              le→leb (t.offsets ! node) (t.offsets ! suc node) up,
              le→leb (t.offsets ! suc node) (length t.edge_ids) (omega arith),
              frozen.id_row node inside,
            )
            refl in
        (
          walk,
          rw (walk, frozen.targets_same) (successors_of node [] sources targets same (omega arith)),
        )
