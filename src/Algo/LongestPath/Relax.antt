-- ===== src/Algo/LongestPath/Relax.antt =====
-- crates/oxgraph-algo/src/longest_path_dag.rs: the loop over the successors of a node.
use oxgraph.Prelude.{
  ℕ, suc, ◌<◌, ◌≤◌, ◌≡◌, ◌⊎◌, refl, ◌∙◌, true, false, ◌&&◌, Bool-cases, inl, inr, none, some, List,
  [], ◌∷◌, length, length-set, get_or, set, get_elem?-eq-get_or, set_elem?-eq-set, ltb, ◌==◌, arith,
}
use mathlib.Core.Option
use mathlib.Core.Option.{Option}
use oxgraph.Algo.Topology.{Topology, count}
use oxgraph.Algo.Toposort.Start.{get_or-set}
use oxgraph.Algo.LongestPath.{Chains, relax, relax_at}

module _ {E : Type 0} (g : Topology E) (x : E) (own : ℕ) where
  abbrev pub length_at : Chains E → ℕ → ℕ
  length_at s i = get_or s.lengths i 0

  abbrev pub pred_at : Chains E → ℕ → Option E
  pred_at s i = get_or s.predecessor i none

  pub record IsSized (s : Chains E) : Type 0 where
    pub lengths_size : length s.lengths ≡ g.element_bound
    pub predecessor_size : length s.predecessor ≡ g.element_bound

  -- What the loop over `xs` makes of the chains `s`.
  pub record Relaxed (xs : List E) (s t : Chains E) : Type 0 where
    pub sized : IsSized t
    pub end_kept : t.best_end ≡ s.best_end
    pub best_kept : t.best_length ≡ s.best_length
    pub raised : (i : ℕ) → i < g.element_bound → 0 < count g i xs → suc own ≤ length_at t i
    pub grown : (i : ℕ) → length_at s i ≤ length_at t i
    pub traced :
        (i : ℕ)
        → ((length_at t i ≡ length_at s i) × (pred_at t i ≡ pred_at s i))
          ⊎ ((length_at t i ≡ suc own) × (pred_at t i ≡ some x) × (0 < count g i xs))

  abbrev step : E → Chains E → Chains E
  step y s = record s {
    lengths = set s.lengths (g.element_index y) (suc own);
    predecessor = set s.predecessor (g.element_index y) (some x);
  }

  step-Relaxed :
      (y : E) (xs : List E) (s t : Chains E)
      → IsSized s
      → (ltb (g.element_index y) g.element_bound && ltb (length_at s (g.element_index y)) (suc own))
        ≡ true
      → Relaxed xs (step y s) t
      → Relaxed (y ∷ xs) s t
  step-Relaxed y xs s t z e r =
      let j = g.element_index y in
      let lengths_size = z.lengths_size in
      let predecessor_size = z.predecessor_size in
      let inside : j < length s.lengths = ground arith in
      let inside_too : j < length s.predecessor = ground arith in
      let written = λ (i : ℕ). get_or-set s.lengths j i (suc own) 0 inside in
      let traced_to = λ (i : ℕ). get_or-set s.predecessor j i (some x) none inside_too in
      record {
        sized = r.sized;
        end_kept = r.end_kept;
        best_kept = r.best_kept;
        raised = λ i b h. elim (Bool-cases (j == i)) [
          | inl same ↦ ground (arith, written i, r.grown i)
          | inr other ↦ r.raised i b (ground arith)
        ];
        grown = λ i. ground (arith, written i, r.grown i);
        traced = λ i. elim (r.traced i) [
          | inl (a, b) ↦ elim (Bool-cases (j == i)) [
            | inl same ↦
                inr (a ∙ ground (arith, written i), b ∙ traced_to i ∙ rw same refl, ground arith)
            | inr other ↦ inl (a ∙ ground (arith, written i), b ∙ traced_to i ∙ rw other refl)
          ]
          | inr (a, b, c) ↦ inr (a, b, omega arith)
        ];
      }

  skip-Relaxed :
      (y : E) (xs : List E) (s t : Chains E)
      → (ltb (g.element_index y) g.element_bound && ltb (length_at s (g.element_index y)) (suc own))
        ≡ false
      → Relaxed xs s t
      → Relaxed (y ∷ xs) s t
  skip-Relaxed y xs s t e r = record {
    sized = r.sized;
    end_kept = r.end_kept;
    best_kept = r.best_kept;
    raised = λ i b h. elim (Bool-cases (g.element_index y == i)) [
      | inl same ↦ ground (arith, r.grown i)
      | inr other ↦ r.raised i b (ground arith)
    ];
    grown = r.grown;
    traced =
        λ i. elim (r.traced i) [ inl kept ↦ inl kept | inr (a, b, c) ↦ inr (a, b, omega arith) ];
  }

  -- The loop does not panic.
  pub relax-Relaxed :
      (xs : List E) (s : Chains E)
      → IsSized s
      → (t : Chains E) × (relax g x own xs s ≡ some t) × Relaxed xs s t
  unfolding relax relax_at Option.bind Option.map
  relax-Relaxed [] s z = (
    s,
    refl,
    record {
      sized = z;
      end_kept = refl;
      best_kept = refl;
      raised = λ i b h. absurd (omega arith);
      grown = λ i. omega arith;
      traced = λ i. inl (refl, refl);
    },
  )
  relax-Relaxed (y ∷ xs) s z =
      let i = g.element_index y in
      let lengths_size = z.lengths_size in
      let predecessor_size = z.predecessor_size in
      elim (Bool-cases (ltb i g.element_bound)) [
        | inl e ↦
            let inside : i < length s.lengths = ground arith in
            let inside_too : i < length s.predecessor = ground arith in
            let read = get_elem?-eq-get_or s.lengths i 0 inside in
            elim (Bool-cases (ltb (length_at s i) (suc own))) [
              | inl more ↦
                  let sized : IsSized (step y s) = record {
                    lengths_size = length-set s.lengths i (suc own) ∙ z.lengths_size;
                    predecessor_size = length-set s.predecessor i (some x) ∙ z.predecessor_size;
                  } in
                  let (t, run, r) = relax-Relaxed xs (step y s) sized in
                  (
                    t,
                    rw
                        (
                          e,
                          read,
                          more,
                          set_elem?-eq-set s.lengths i (suc own) inside,
                          set_elem?-eq-set s.predecessor i (some x) inside_too,
                        )
                        run,
                    step-Relaxed y xs s t z (rw (e, more) refl) r,
                  )
              | inr enough ↦
                  let (t, run, r) = relax-Relaxed xs s z in
                  (t, rw (e, read, enough) run, skip-Relaxed y xs s t (rw (e, enough) refl) r)
            ]
        | inr e ↦
            let (t, run, r) = relax-Relaxed xs s z in
            (t, rw e run, skip-Relaxed y xs s t (rw e refl) r)
      ]
