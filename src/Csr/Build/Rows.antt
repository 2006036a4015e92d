-- ===== src/Csr/Build/Rows.antt =====
-- crates/oxgraph-csr/src/build.rs: the whole of the last loop of `freeze_topology`.
use oxgraph.Prelude.{
  ℕ, zero, suc, ◌+◌, ◌≤◌, ◌<◌, ◌≡◌, refl, sym, ◌∙◌, List, [], ◌∷◌, length, set, ok, arith,
  length-set, inl, inr, subst,
}
use oxgraph.Layout.Width.{Width, max_value}
use oxgraph.Layout.Integrity.{◌!◌}
use oxgraph.Layout.Integrity.Offsets.{IsOffsetSection}
use oxgraph.Csr.Build.{scatter_loop}
use oxgraph.Csr.Build.Counting.{
  degree, degree_hit, degree_miss, AreNodes, get_or-set_same, get_or-set_other, ≡-cases,
}
use oxgraph.Csr.Build.Scatter.{
  ids_of, heads_of, ids_hit, ids_miss, heads_hit, heads_miss, Ready, Placed, apart, inside,
  scatter_step, Ready-step,
}

module _ (usize_max node_count edge_count : ℕ) (edge_index : Width) (offsets : List ℕ)
    (section : IsOffsetSection offsets node_count edge_count) (room : edge_count ≤ usize_max)
    (nodes_fit : node_count ≤ usize_max) where
  abbrev IsReady : List ℕ → List ℕ → List ℕ → List ℕ → Type 0
  IsReady cursor edge_ids grouped sources =
      Ready usize_max node_count edge_count edge_index offsets section room nodes_fit cursor
        edge_ids grouped sources

  abbrev IsPlaced :
      ℕ → (cursor edge_ids grouped sources targets edge_ids' grouped' : List ℕ) → Type 0
  IsPlaced edge cursor edge_ids grouped sources targets edge_ids' grouped' =
      Placed usize_max node_count edge_count edge_index offsets section room nodes_fit edge cursor
        edge_ids grouped sources targets edge_ids' grouped'

  module _ (edge : ℕ) (cursor edge_ids grouped : List ℕ) (source : ℕ) (sources : List ℕ)
      (target : ℕ) (targets : List ℕ) (ready : IsReady cursor edge_ids grouped (source ∷ sources))
      (s : source < node_count) (edge_ids' grouped' : List ℕ)
      (after : IsPlaced
        (suc edge)
        (set cursor source (cursor ! source + 1))
        (set edge_ids (cursor ! source) edge)
        (set grouped (cursor ! source) target)
        sources
        targets
        edge_ids'
        grouped') where
    abbrev cursor' : List ℕ
    cursor' = set cursor source (cursor ! source + 1)

    moved : cursor' ! source ≡ cursor ! source + 1
    moved =
        let long = ready.cursors in
        get_or-set_same source (cursor ! source + 1) cursor (omega arith)

    -- The edge itself.
    wrote_first : (edge_ids' ! (cursor ! source) ≡ edge) × (grouped' ! (cursor ! source) ≡ target)
    wrote_first =
        let place =
          inside usize_max node_count edge_count edge_index offsets section room nodes_fit cursor
            edge_ids grouped source sources ready s in
        let (i, h) =
          after.kept source (cursor ! source) s (ready.low source s) (omega (arith, moved)) in
        let same = ready.ids_len in
        let same' = ready.heads_len in
        (
          i ∙ get_or-set_same (cursor ! source) edge edge_ids (omega arith),
          h ∙ get_or-set_same (cursor ! source) target grouped (omega arith),
        )

    wrote_same :
        (j : ℕ)
        → j < suc (degree source sources)
        → (edge_ids' ! (cursor ! source + j) ≡ (edge ∷ ids_of source (suc edge) sources) ! j)
          × (grouped' ! (cursor ! source + j) ≡ (target ∷ heads_of source sources targets) ! j)
    wrote_same zero lt =
        let e : cursor ! source + 0 ≡ cursor ! source = omega arith in rw e wrote_first
    wrote_same (suc j) lt =
        let e : cursor ! source + suc j ≡ cursor ! source + 1 + j = omega arith in
        rw (e, ← moved) (after.wrote source j s (omega arith))

    wrote_all :
        (node j : ℕ)
        → node < node_count
        → j < degree node (source ∷ sources)
        → (edge_ids' ! (cursor ! node + j) ≡ ids_of node edge (source ∷ sources) ! j)
          × (grouped' ! (cursor ! node + j)
              ≡ heads_of node (source ∷ sources) (target ∷ targets) ! j)
    wrote_all node j n lt = elim (≡-cases source node) [
      | inl e ↦
          rw (ids_hit node edge source sources e, heads_hit node source target sources targets e)
            (subst
              (λ k.
                (edge_ids' ! (cursor ! k + j) ≡ (edge ∷ ids_of k (suc edge) sources) ! j)
                × (grouped' ! (cursor ! k + j) ≡ (target ∷ heads_of k sources targets) ! j))
              e
              (wrote_same j (
                omega (
                  arith,
                  degree_hit source source sources refl,
                  subst (λ k. j < degree k (source ∷ sources)) (sym e) lt,
                ))))
      | inr e ↦
          let kept = get_or-set_other source node (cursor ! source + 1) cursor e in
          rw
            (
              ids_miss node edge source sources e,
              heads_miss node source target sources targets e,
              ← kept,
            )
            (after.wrote node j n (omega (arith, degree_miss node source sources e)))
    ]

    kept_all :
        (node p : ℕ)
        → node < node_count
        → offsets ! node ≤ p
        → p < cursor ! node
        → (edge_ids' ! p ≡ edge_ids ! p) × (grouped' ! p ≡ grouped ! p)
    kept_all node p n lo hi =
        let away =
          apart usize_max node_count edge_count edge_index offsets section room nodes_fit cursor
            edge_ids grouped source sources node p ready s n lo hi in
        let (i, h) = after.kept node p n lo further in
        (
          i ∙ get_or-set_other (cursor ! source) p edge edge_ids away,
          h ∙ get_or-set_other (cursor ! source) p target grouped away,
        )
      where
        further : p < cursor' ! node
        further = elim (≡-cases source node) [
          | inl e ↦
              subst (λ k. p < cursor' ! k) e
                (omega (arith, moved, subst (λ k. p < cursor ! k) (sym e) hi))
          | inr e ↦ omega (arith, get_or-set_other source node (cursor ! source + 1) cursor e)
        ]

    IsPlaced-step :
        IsPlaced edge cursor edge_ids grouped
          (source ∷ sources)
          (target ∷ targets)
          edge_ids'
          grouped'
    IsPlaced-step = record {
      ids_same = after.ids_same ∙ length-set edge_ids (cursor ! source) edge;
      heads_same = after.heads_same ∙ length-set grouped (cursor ! source) target;
      wrote = wrote_all;
      kept = kept_all;
    }

  -- The loop places every edge.
  pub placed :
      (edge : ℕ) (cursor edge_ids grouped sources targets : List ℕ)
      → IsReady cursor edge_ids grouped sources
      → AreNodes node_count sources
      → length sources ≡ length targets
      → edge + length sources ≤ suc (max_value usize_max edge_index)
      → (edge_ids' grouped' : List ℕ) × (scatter_loop usize_max edge_index edge cursor edge_ids
            grouped sources targets
          ≡ ok (edge_ids', grouped'))
        × IsPlaced edge cursor edge_ids grouped sources targets edge_ids' grouped'
  unfolding scatter_loop
  placed edge cursor edge_ids grouped [] targets ready nodes same fits = (
    edge_ids,
    grouped,
    refl,
    record {
      ids_same = refl;
      heads_same = refl;
      wrote = λ node j n lt. absurd (omega arith);
      kept = λ node p n lo hi. (refl, refl);
    },
  )
  placed edge cursor edge_ids grouped (source ∷ sources) [] ready nodes same fits =
      absurd (omega arith)
  placed edge cursor edge_ids grouped (source ∷ sources) (target ∷ targets) ready (s, nodes) same
        fits =
      let (edge_ids', grouped', run, after) =
        placed (suc edge) (set cursor source (cursor ! source + 1))
          (set edge_ids (cursor ! source) edge) (set grouped (cursor ! source) target) sources
          targets
          (Ready-step usize_max node_count edge_count edge_index offsets section room nodes_fit edge
            cursor edge_ids grouped source sources target ready s)
          nodes (omega arith) (omega arith) in
      (
        edge_ids',
        grouped',
        scatter_step usize_max node_count edge_count edge_index offsets section room nodes_fit edge
              cursor edge_ids grouped source sources target targets ready s (omega arith)
            ∙ run,
        IsPlaced-step edge cursor edge_ids grouped source sources target targets ready s edge_ids'
            grouped' after,
      )
