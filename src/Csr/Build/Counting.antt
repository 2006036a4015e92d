-- ===== src/Csr/Build/Counting.antt =====
-- crates/oxgraph-csr/src/build.rs: the counting loops of `freeze_topology`.
use oxgraph.Prelude.{
  ℕ, zero, suc, ◌+◌, ◌≤◌, ◌<◌, ◌≡◌, ◌≢◌, refl, ap, ◌∙◌, List, [], ◌∷◌, length, set, ◌==◌,
  if◌then◌else◌, ok, arith, get_elem?-eq-get_or, length-set, le→leb, inl, inr, ◌⊎◌,
}
use oxgraph.Layout.Width.{Width, max_value}
use oxgraph.Layout.Integrity.{◌!◌}
use oxgraph.Csr.Build.{count_loop, sum_loop, collect_offsets}

-- How many of the edges leave `node`.
abbrev pub degree : ℕ → List ℕ → ℕ
degree node [] = 0
degree node (source ∷ sources) =
    let rest = degree node sources in if source == node then suc rest else rest

abbrev pub AreNodes : ℕ → List ℕ → Type 0
AreNodes node_count [] = Unit
AreNodes node_count (x ∷ xs) = (x < node_count) × AreNodes node_count xs

abbrev pub total : List ℕ → ℕ
total [] = 0
total (x ∷ xs) = x + total xs

pub get_or-set_same : (i v : ℕ) (xs : List ℕ) → i < length xs → set xs i v ! i ≡ v
get_or-set_same i v [] h = absurd (omega arith)
get_or-set_same zero v (x ∷ xs) h = refl
get_or-set_same (suc i) v (x ∷ xs) h = get_or-set_same i v xs (omega arith)

pub get_or-set_other : (i j v : ℕ) (xs : List ℕ) → i ≢ j → set xs i v ! j ≡ xs ! j
get_or-set_other i j v [] h = refl
get_or-set_other zero zero v (x ∷ xs) h = absurd (h refl)
get_or-set_other zero (suc j) v (x ∷ xs) h = refl
get_or-set_other (suc i) zero v (x ∷ xs) h = refl
get_or-set_other (suc i) (suc j) v (x ∷ xs) h = get_or-set_other i j v xs (λ e. h (ap suc e))

total-set : (i : ℕ) (xs : List ℕ) → i < length xs → total (set xs i (xs ! i + 1)) ≡ suc (total xs)
total-set i [] h = absurd (omega arith)
total-set zero (x ∷ xs) h = omega arith
total-set (suc i) (x ∷ xs) h = omega (arith, total-set i xs (omega arith))

get_or-le-total : (i : ℕ) (xs : List ℕ) → xs ! i ≤ total xs
get_or-le-total i [] = omega arith
get_or-le-total zero (x ∷ xs) = omega arith
get_or-le-total (suc i) (x ∷ xs) = omega (arith, get_or-le-total i xs)

pub ≡-cases : (m n : ℕ) → (m ≡ n) ⊎ (m ≢ n)
≡-cases m n = ground arith

pub degree_hit :
    (node source : ℕ) (sources : List ℕ)
    → source ≡ node
    → degree node (source ∷ sources) ≡ suc (degree node sources)
degree_hit node source sources h = ground arith

pub degree_miss :
    (node source : ℕ) (sources : List ℕ)
    → source ≢ node
    → degree node (source ∷ sources) ≡ degree node sources
degree_miss node source sources h = ground arith

module _ (usize_max node_count : ℕ) (small : node_count < usize_max) where
  -- What the counting makes of `counts`.
  abbrev pub Counted : List ℕ → List ℕ → List ℕ → Type 0
  Counted counts sources counts' =
      (length counts' ≡ suc node_count)
      × (counts' ! 0 ≡ counts ! 0)
      × ((node : ℕ)
          → node < node_count
          → counts' ! suc node ≡ counts ! suc node + degree node sources)
      × (total counts' ≡ total counts + length sources)

  count_step :
      (counts sources : List ℕ) (source : ℕ)
      → source < node_count
      → length counts ≡ suc node_count
      → total counts < usize_max
      → count_loop usize_max counts (source ∷ sources)
        ≡ count_loop usize_max (set counts (suc source) (counts ! suc source + 1)) sources
  unfolding count_loop
  count_step counts sources source h size room =
      let found = get_elem?-eq-get_or counts (suc source) 0 (omega arith) in
      let bound = get_or-le-total (suc source) counts in
      let fits : source ≤ usize_max = omega arith in
      let e : source + 1 ≡ suc source = omega arith in
      rw
        (
          le→leb source usize_max fits,
          e,
          found,
          le→leb (counts ! suc source + 1) usize_max (omega arith),
        )
        refl

  counted_same :
      (counts sources : List ℕ) (source node : ℕ) (counts' : List ℕ)
      → source ≡ node
      → suc source < length counts
      → counts' ! suc node
        ≡ set counts (suc source) (counts ! suc source + 1) ! suc node + degree node sources
      → counts' ! suc node ≡ counts ! suc node + degree node (source ∷ sources)
  counted_same counts sources source node counts' e lt h =
      let put = get_or-set_same (suc source) (counts ! suc source + 1) counts lt in
      let moved : set counts (suc source) (counts ! suc source + 1) ! suc node
          ≡ counts ! suc node + 1 =
        rw (← e) put in
      let hit = degree_hit node source sources e in omega arith

  counted_other :
      (counts sources : List ℕ) (source node : ℕ) (counts' : List ℕ)
      → source ≢ node
      → counts' ! suc node
        ≡ set counts (suc source) (counts ! suc source + 1) ! suc node + degree node sources
      → counts' ! suc node ≡ counts ! suc node + degree node (source ∷ sources)
  counted_other counts sources source node counts' n h =
      let kept =
        get_or-set_other (suc source) (suc node) (counts ! suc source + 1) counts
          (λ e. n (omega arith)) in
      let miss = degree_miss node source sources n in omega arith

  pub counted :
      (counts sources : List ℕ)
      → AreNodes node_count sources
      → length counts ≡ suc node_count
      → total counts + length sources ≤ usize_max
      → (counts' : List ℕ) × (count_loop usize_max counts sources ≡ ok counts')
        × Counted counts sources counts'
  unfolding count_loop
  counted counts [] nodes size room =
      (counts, refl, (size, refl, λ node h. omega arith, omega arith))
  counted counts (source ∷ sources) (h, nodes) size room =
      let v = counts ! suc source + 1 in
      let after = set counts (suc source) v in
      let all = total-set (suc source) counts (omega arith) in
      let (counts', run, (size', first, each, sum)) =
        counted after sources nodes (length-set counts (suc source) v ∙ size) (omega arith) in
      (
        counts',
        count_step counts sources source h size (omega arith) ∙ run,
        (
          size',
          first ∙ get_or-set_other (suc source) 0 v counts (λ e. omega arith),
          λ node lt. elim (≡-cases source node) [
            | inl e ↦ counted_same counts sources source node counts' e (omega arith) (each node lt)
            | inr n ↦ counted_other counts sources source node counts' n (each node lt)
          ],
          omega arith,
        ),
      )

  -- The sums of the counts cut as many items as there are counted into ranges.
  pub sums :
      (previous : ℕ) (counts : List ℕ)
      → previous + total counts ≤ usize_max
      → (out : List ℕ) × (sum_loop usize_max previous counts ≡ ok out)
        × (length out ≡ length counts)
        × ((i : ℕ)
            → i < length counts
            → (previous ∷ out) ! suc i ≡ (previous ∷ out) ! i + counts ! i)
        × ((previous ∷ out) ! length counts ≡ previous + total counts)
  unfolding sum_loop
  sums previous [] h = ([], refl, refl, (λ i lt. absurd (omega arith)), omega arith)
  sums previous (count ∷ counts) h =
      let (out, run, size, each, last) = sums (count + previous) counts (omega arith) in
      (
        (count + previous) ∷ out,
        added previous count counts out (omega arith) run,
        ap suc size,
        steps previous count counts out each,
        omega arith,
      )
    where
      added :
          (previous count : ℕ) (counts out : List ℕ)
          → count + previous ≤ usize_max
          → sum_loop usize_max (count + previous) counts ≡ ok out
          → sum_loop usize_max previous (count ∷ counts) ≡ ok ((count + previous) ∷ out)
      added previous count counts out h run = ground arith

      steps :
          (previous count : ℕ) (counts out : List ℕ)
          → ((i : ℕ)
              → i < length counts
              → ((count + previous) ∷ out) ! suc i ≡ ((count + previous) ∷ out) ! i + counts ! i)
          → (i : ℕ) → i < suc (length counts)
          → (previous ∷ (count + previous) ∷ out) ! suc i
            ≡ (previous ∷ (count + previous) ∷ out) ! i + (count ∷ counts) ! i
      steps previous count counts out each zero lt = omega arith
      steps previous count counts out each (suc i) lt = each i (omega arith)

  pub collected :
      (edge_index : Width) (bound : ℕ) (values : List ℕ)
      → bound ≤ max_value usize_max edge_index
      → ((i : ℕ) → i < length values → values ! i ≤ bound)
      → collect_offsets usize_max edge_index values ≡ ok values
  unfolding collect_offsets
  collected edge_index bound [] fits h = refl
  collected edge_index bound (v ∷ vs) fits h =
      let rest = collected edge_index bound vs fits (λ i lt. h (suc i) (omega arith)) in
      let here : v ≤ bound = h 0 (omega arith) in rw (collect_offsets, rest) (ground arith)
