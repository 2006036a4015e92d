-- ===== src/Csr/Build/Scatter.antt =====
-- crates/oxgraph-csr/src/build.rs: one round of the last loop of `freeze_topology`.
use oxgraph.Prelude.{
  ℕ, suc, ◌+◌, ◌≤◌, ◌<◌, ◌≡◌, ◌≢◌, refl, sym, ◌∙◌, List, [], ◌∷◌, length, set, ◌==◌, if◌then◌else◌,
  arith, get_elem?-eq-get_or, length-set, le→leb, lt→ltb, inl, inr, ◌⊎◌, subst,
}
use oxgraph.Layout.Width.{Width, max_value}
use oxgraph.Layout.Integrity.{◌!◌}
use oxgraph.Layout.Integrity.Offsets.{IsOffsetSection, offsets_mono, offsets-le-len}
use oxgraph.Csr.Build.{scatter_loop, store}
use oxgraph.Csr.Build.Counting.{
  degree, degree_hit, degree_miss, get_or-set_same, get_or-set_other, ≡-cases,
}

-- The ids of the edges that leave `node`, in order, where the first edge has the id `edge`.
abbrev pub ids_of : ℕ → ℕ → List ℕ → List ℕ
ids_of node edge [] = []
ids_of node edge (source ∷ sources) =
    let rest = ids_of node (suc edge) sources in if source == node then edge ∷ rest else rest

-- The targets of the edges that leave `node`, in order.
abbrev pub heads_of : ℕ → List ℕ → List ℕ → List ℕ
heads_of node [] targets = []
heads_of node (source ∷ sources) [] = []
heads_of node (source ∷ sources) (target ∷ targets) =
    let rest = heads_of node sources targets in if source == node then target ∷ rest else rest

pub ids_hit :
    (node edge source : ℕ) (sources : List ℕ)
    → source ≡ node
    → ids_of node edge (source ∷ sources) ≡ edge ∷ ids_of node (suc edge) sources
ids_hit node edge source sources h = ground arith

pub ids_miss :
    (node edge source : ℕ) (sources : List ℕ)
    → source ≢ node
    → ids_of node edge (source ∷ sources) ≡ ids_of node (suc edge) sources
ids_miss node edge source sources h = ground arith

pub heads_hit :
    (node source target : ℕ) (sources targets : List ℕ)
    → source ≡ node
    → heads_of node (source ∷ sources) (target ∷ targets) ≡ target ∷ heads_of node sources targets
heads_hit node source target sources targets h = ground arith

pub heads_miss :
    (node source target : ℕ) (sources targets : List ℕ)
    → source ≢ node
    → heads_of node (source ∷ sources) (target ∷ targets) ≡ heads_of node sources targets
heads_miss node source target sources targets h = ground arith

module _ (usize_max node_count edge_count : ℕ) (edge_index : Width) (offsets : List ℕ)
    (section : IsOffsetSection offsets node_count edge_count) (room : edge_count ≤ usize_max)
    (nodes_fit : node_count ≤ usize_max) where
  -- Each cursor stands in its row, with room for the edges left.
  pub record Ready (cursor edge_ids grouped sources : List ℕ) : Type 0 where
    pub cursors : node_count < length cursor
    pub ids_len : length edge_ids ≡ edge_count
    pub heads_len : length grouped ≡ edge_count
    pub low : (node : ℕ) → node < node_count → offsets ! node ≤ cursor ! node
    pub high :
        (node : ℕ) → node < node_count → cursor ! node + degree node sources ≤ offsets ! suc node

  -- What the loop makes of the two arrays: the rows from the cursors on are the edges left, and
  -- what stands before a cursor is kept.
  pub record Placed (edge : ℕ) (cursor edge_ids grouped : List ℕ) (sources targets : List ℕ)
      (edge_ids' grouped' : List ℕ) : Type 0 where
    pub ids_same : length edge_ids' ≡ length edge_ids
    pub heads_same : length grouped' ≡ length grouped
    pub wrote :
        (node j : ℕ)
        → node < node_count
        → j < degree node sources
        → (edge_ids' ! (cursor ! node + j) ≡ ids_of node edge sources ! j)
          × (grouped' ! (cursor ! node + j) ≡ heads_of node sources targets ! j)
    pub kept :
        (node p : ℕ)
        → node < node_count
        → offsets ! node ≤ p
        → p < cursor ! node
        → (edge_ids' ! p ≡ edge_ids ! p) × (grouped' ! p ≡ grouped ! p)

  -- A place before a cursor is not the place of another cursor.
  pub apart :
      (cursor edge_ids grouped : List ℕ) (source : ℕ) (sources : List ℕ) (node p : ℕ)
      → Ready cursor edge_ids grouped (source ∷ sources)
      → source < node_count
      → node < node_count
      → offsets ! node ≤ p
      → p < cursor ! node
      → cursor ! source ≢ p
  apart cursor edge_ids grouped source sources node p ready s n lo hi e =
      elim (≡-cases source node) [
        | inl q ↦ absurd (omega (arith, subst (λ k. p < cursor ! k) (sym q) hi))
        | inr q ↦ elim (order source node q) [
          | inl lt ↦ absurd (
              omega (
                arith,
                offsets_mono section (suc source) node (omega arith) (omega arith),
                ready.high source s,
                degree_hit source source sources refl,
              ))
          | inr lt ↦ absurd (
              omega (
                arith,
                offsets_mono section (suc node) source (omega arith) (omega arith),
                ready.high node n,
                ready.low source s,
              ))
        ]
      ]
    where
      order : (a b : ℕ) → a ≢ b → (a < b) ⊎ (b < a)
      order a b h = ground arith

  pub inside :
      (cursor edge_ids grouped : List ℕ) (source : ℕ) (sources : List ℕ)
      → Ready cursor edge_ids grouped (source ∷ sources)
      → source < node_count
      → cursor ! source < edge_count
  inside cursor edge_ids grouped source sources ready s = omega (
    arith,
    ready.high source s,
    degree_hit source source sources refl,
    offsets-le-len section (suc source) (omega arith),
  )

  pub scatter_step :
      (edge : ℕ) (cursor edge_ids grouped : List ℕ) (source : ℕ) (sources : List ℕ) (target : ℕ)
      (targets : List ℕ)
      → Ready cursor edge_ids grouped (source ∷ sources)
      → source < node_count
      → edge ≤ max_value usize_max edge_index
      → scatter_loop usize_max edge_index edge cursor edge_ids grouped
          (source ∷ sources)
          (target ∷ targets)
        ≡ scatter_loop usize_max edge_index
            (suc edge)
            (set cursor source (cursor ! source + 1))
            (set edge_ids (cursor ! source) edge)
            (set grouped (cursor ! source) target)
            sources
            targets
  unfolding scatter_loop store
  scatter_step edge cursor edge_ids grouped source sources target targets ready s fits =
      let place = inside cursor edge_ids grouped source sources ready s in
      let same = ready.ids_len in
      let same' = ready.heads_len in
      let long = ready.cursors in
      rw
        (
          le→leb source usize_max (omega arith),
          get_elem?-eq-get_or cursor source 0 (omega arith),
          le→leb (cursor ! source + 1) usize_max (omega arith),
          le→leb edge (max_value usize_max edge_index) fits,
          lt→ltb (cursor ! source) (length edge_ids) (omega arith),
          lt→ltb (cursor ! source) (length grouped) (omega arith),
        )
        refl

  pub Ready-step :
      (edge : ℕ) (cursor edge_ids grouped : List ℕ) (source : ℕ) (sources : List ℕ) (target : ℕ)
      → Ready cursor edge_ids grouped (source ∷ sources)
      → source < node_count
      → Ready
          (set cursor source (cursor ! source + 1))
          (set edge_ids (cursor ! source) edge)
          (set grouped (cursor ! source) target)
          sources
  Ready-step edge cursor edge_ids grouped source sources target ready s =
      let c = cursor ! source + 1 in
      let long = ready.cursors in
      let here = get_or-set_same source c cursor (omega arith) in
      record {
        cursors = omega (arith, length-set cursor source c);
        ids_len = length-set edge_ids (cursor ! source) edge ∙ ready.ids_len;
        heads_len = length-set grouped (cursor ! source) target ∙ ready.heads_len;
        low = λ node n. elim (≡-cases source node) [
          | inl e ↦
              subst (λ k. offsets ! k ≤ set cursor source c ! k) e
                (omega (arith, ready.low source s))
          | inr e ↦ omega (arith, ready.low node n, get_or-set_other source node c cursor e)
        ];
        high = λ node n. elim (≡-cases source node) [
          | inl e ↦
              subst (λ k. set cursor source c ! k + degree k sources ≤ offsets ! suc k) e
                (omega (arith, ready.high source s, degree_hit source source sources refl))
          | inr e ↦ omega (
            arith,
            ready.high node n,
            degree_miss node source sources e,
            get_or-set_other source node c cursor e,
          )
        ];
      }
