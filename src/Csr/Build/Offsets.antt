-- ===== src/Csr/Build/Offsets.antt =====
-- crates/oxgraph-csr/src/build.rs: the offsets of `freeze_topology`.
use oxgraph.Prelude.{
  ℕ, zero, suc, ◌+◌, ◌≤◌, ◌<◌, ◌≡◌, refl, subst, List, [], ◌∷◌, length, ok, arith, replicate,
  length-replicate,
}
use oxgraph.Layout.Width.{Width, max_value}
use oxgraph.Layout.Integrity.{◌!◌}
use oxgraph.Layout.Integrity.Offsets.{IsOffsetSection, offsets-le-len}
use oxgraph.Csr.Build.{count_loop, sum_counts, collect_offsets}
use oxgraph.Csr.Build.Counting.{degree, AreNodes, total, Counted, counted, sums, collected}

total-replicate : (n : ℕ) → total (replicate n 0) ≡ 0
total-replicate zero = refl
total-replicate (suc n) = omega (arith, total-replicate n)

get_or-replicate : (n i : ℕ) → replicate n 0 ! i ≡ 0
get_or-replicate zero i = refl
get_or-replicate (suc n) zero = refl
get_or-replicate (suc n) (suc i) = get_or-replicate n i

module _ (usize_max node_count : ℕ) (edge_index : Width) (sources : List ℕ) where
  -- The offsets are the running sums of the nodes' degrees.
  pub record Cuts (offsets : List ℕ) : Type 0 where
    pub ranges : IsOffsetSection offsets node_count (length sources)
    pub step :
        (node : ℕ) → node < node_count → offsets ! suc node ≡ offsets ! node + degree node sources

  abbrev blank : List ℕ
  blank = replicate (node_count + 1) 0

  summed :
      (small : node_count < usize_max) (counts : List ℕ)
      → Counted usize_max node_count small blank sources counts
      → length sources ≤ usize_max
      → (offsets : List ℕ) × (sum_counts usize_max counts ≡ ok offsets) × Cuts offsets
  unfolding sum_counts
  summed small [] (size, first, each, sum) room = absurd (omega arith)
  summed small (c ∷ cs) (size, first, each, sum) room =
      let none = total-replicate (node_count + 1) in
      let start = get_or-replicate (node_count + 1) 0 in
      let (out, run, same, step, last) = sums usize_max node_count small c cs (omega arith) in
      let up : (node : ℕ)
          → node < node_count
          → (c ∷ out) ! suc node ≡ (c ∷ out) ! node + degree node sources =
        λ node lt. omega (
          arith,
          step node (omega arith),
          each node lt,
          get_or-replicate (node_count + 1) (suc node),
        ) in
      let same_len : length cs ≡ node_count = omega arith in
      let final : (c ∷ out) ! node_count ≡ length sources =
        subst (λ n. (c ∷ out) ! n ≡ length sources) same_len (omega arith) in
      (
        c ∷ out,
        rw run refl,
        record {
          ranges = record {
            size = omega arith;
            first = omega arith;
            ordered = λ i lt. omega (arith, up i lt);
            final = final;
          };
          step = up;
        },
      )

  -- The counting, the summing and the collecting succeed, and make the offsets.
  pub offsets_made :
      node_count < usize_max
      → AreNodes node_count sources
      → length sources ≤ usize_max
      → length sources ≤ max_value usize_max edge_index
      → (counts offsets : List ℕ) × (count_loop usize_max blank sources ≡ ok counts)
        × (sum_counts usize_max counts ≡ ok offsets)
        × (collect_offsets usize_max edge_index offsets ≡ ok offsets)
        × Cuts offsets
  offsets_made small nodes room fits =
      let none = total-replicate (node_count + 1) in
      let (counts, run, all) =
        counted usize_max node_count small blank sources nodes
          (omega (arith, length-replicate {A = ℕ} (node_count + 1) 0)) (omega arith) in
      let (offsets, run', cuts) = summed small counts all room in
      let size = cuts.ranges.size in
      (
        counts,
        offsets,
        run,
        run',
        collected usize_max node_count small edge_index (length sources) offsets fits
            (λ i lt. offsets-le-len cuts.ranges i (omega arith)),
        cuts,
      )
