-- ===== src/Csr.antt =====
-- crates/oxgraph-csr/src/lib.rs: the borrowed compressed-sparse-row view over offset and target
-- slices. `usize_max` is the host's `usize::MAX`; ids and words are the numbers that they hold.
pub mod Build
pub mod Snapshot
pub mod Validate
pub mod Visits
pub mod Traverse
use oxgraph.Prelude.{
  ℕ, zero, suc, ◌+◌, ◌-◌, Bool, true, false, ◌&&◌, Option, none, some, List, [], ◌∷◌, length,
  get_elem?, get_or, ltb, leb, if◌then◌else◌, Result, ok, err, ◌>>=◌, ◌>>◌, ok_or, map_err, slice,
}
use mathlib.Core.Option
use oxgraph.Layout.Width.{Width, to_usize, from_usize, checked_add}
use oxgraph.Layout.Integrity.{
  OffsetIntegrityIssue, wrong_length, first_non_zero, non_monotonic, final_mismatch,
  value_out_of_range, usize_overflow, check_offset_section, check_value_range, ◌!◌,
}

-- `CsrError`.
pub data CsrError : Type 0 where
  offset_length_overflow : (node_count : ℕ) → CsrError
  offset_length : (expected actual : ℕ) → CsrError
  first_offset : (actual : ℕ) → CsrError
  non_monotonic_offset : (index previous actual : ℕ) → CsrError
  final_offset : (final_offset target_len : ℕ) → CsrError
  target_out_of_range : (index target node_count : ℕ) → CsrError
  target_usize_overflow : (index value : ℕ) → CsrError
  node_usize_overflow : (value : ℕ) → CsrError
  edge_usize_overflow : (value : ℕ) → CsrError

-- The words that the two maps read are there: each issue names an index of the array.
unfoldable pub map_offsets_issue : List ℕ → OffsetIntegrityIssue → CsrError
map_offsets_issue offsets (wrong_length expected actual) = offset_length expected actual
map_offsets_issue offsets (first_non_zero _) = first_offset (offsets ! 0)
map_offsets_issue offsets (non_monotonic index _ _) =
    non_monotonic_offset index (offsets ! (index - 1)) (offsets ! index)
map_offsets_issue offsets (final_mismatch _ value_len) =
    final_offset (offsets ! (length offsets - 1)) value_len
map_offsets_issue offsets (usize_overflow index) = edge_usize_overflow (offsets ! index)
map_offsets_issue offsets (value_out_of_range _ _ _) = edge_usize_overflow 0
map_offsets_issue offsets (OffsetIntegrityIssue.count_overflow _) = edge_usize_overflow 0

unfoldable pub map_targets_issue : List ℕ → ℕ → OffsetIntegrityIssue → CsrError
map_targets_issue targets node_count (value_out_of_range index _ _) =
    target_out_of_range index (targets ! index) node_count
map_targets_issue targets node_count (usize_overflow index) =
    target_usize_overflow index (targets ! index)
map_targets_issue targets node_count _ = target_out_of_range 0 0 node_count

pub record CsrGraph : Type 0 where
  pub node_count : ℕ
  pub node_bound : ℕ
  pub offsets : List ℕ
  pub targets : List ℕ

-- targets[start .. end]; `none` is the panic of a range outside the slice.
abbrev pub range_slice : List ℕ → ℕ → ℕ → Option (List ℕ)
range_slice xs start end =
    if leb start end && leb end (length xs) then some (slice xs start (end - start)) else none

-- `visit` has a state of its own, and stops the walk when it answers `true`.
unfoldable pub visit_loop {ℓ} : {S : Type ℓ} → (S → ℕ → S × Bool) → S → List ℕ → S × Bool
visit_loop visit s [] = (s, false)
visit_loop visit s (word ∷ words) =
    let (s', stop) = visit s word in
    let rest = visit_loop visit s' words in if stop then (s', true) else rest

module _ (usize_max : ℕ) where
  unfoldable pub validate : ℕ → List ℕ → List ℕ → Result CsrError CsrGraph
  validate node_count offsets targets = do
    node_bound ← ok_or (to_usize usize_max node_count) (node_usize_overflow node_count)
    next ← ok_or (checked_add usize_max node_bound 1) (offset_length_overflow node_count)
    map_err (map_offsets_issue offsets)
        (check_offset_section usize_max offsets node_bound (length targets))
    map_err (map_targets_issue targets node_count) (check_value_range usize_max targets node_bound)
    ok (record {
      node_count = node_count;
      node_bound = node_bound;
      offsets = offsets;
      targets = targets;
    })

  -- `try_node_slot`
  unfoldable pub try_node_slot : CsrGraph → ℕ → Option ℕ
  try_node_slot g node =
      Option.bind (to_usize usize_max node)
        (λ slot. if ltb node g.node_count && ltb slot g.node_bound then some slot else none)

  unfoldable pub try_edge_slot : CsrGraph → ℕ → Option ℕ
  try_edge_slot g edge =
      Option.bind (to_usize usize_max edge)
        (λ slot. if ltb slot (length g.targets) then some slot else none)

  -- `None` where there is no such edge.
  unfoldable pub try_target : CsrGraph → ℕ → Option ℕ
  try_target g edge = Option.map (λ slot. g.targets ! slot) (try_edge_slot g edge)

  -- The range of a checked slot; `none` is a panic, of the index or of `unreachable!`.
  unfoldable pub outgoing_range : CsrGraph → ℕ → Option (ℕ × ℕ)
  outgoing_range g index = Option.bind (get_elem? g.offsets index) (λ start.
      Option.bind (get_elem? g.offsets (index + 1)) (λ end.
        Option.bind (to_usize usize_max start)
          (λ from. Option.map (λ to. (from, to)) (to_usize usize_max end))))

  -- `none` is a panic, of an invalid node too.
  unfoldable pub element_successors : CsrGraph → ℕ → Option (List ℕ)
  element_successors g node =
      Option.bind (try_node_slot g node) (λ slot.
        Option.bind (outgoing_range g slot) (λ range. range_slice g.targets range.0 range.1))

  unfoldable pub out_degree : CsrGraph → ℕ → Option ℕ
  out_degree g node =
      Option.bind (try_node_slot g node)
        (λ slot. Option.map (λ range. range.1 - range.0) (outgoing_range g slot))

  -- The iterator of `outgoing_edges`, run to its end: `n` edge ids from slot `start` on. A slot that
  -- the edge index type cannot hold is `unreachable!`, so a panic.
  unfoldable pub edge_run : Width → ℕ → ℕ → Option (List ℕ)
  edge_run edge_index zero start = some []
  edge_run edge_index (suc n) start =
      Option.bind (from_usize usize_max edge_index start)
        (λ id. Option.map (λ ids. id ∷ ids) (edge_run edge_index n (start + 1)))

  unfoldable pub outgoing_edges : Width → CsrGraph → ℕ → Option (List ℕ)
  outgoing_edges edge_index g node = Option.bind (try_node_slot g node) (λ slot.
      Option.bind (outgoing_range g slot)
        (λ range. edge_run edge_index (range.1 - range.0) range.0))

  -- `none` is a panic; an invalid node, or an offset beyond `usize`, is not visited.
  unfoldable pub for_each_out_target {ℓ} :
      {S : Type ℓ} → CsrGraph → ℕ → (S → ℕ → S × Bool) → S → Option (S × Bool)
  for_each_out_target g source visit s = elim (try_node_slot g source) [
    | none ↦ some (s, false)
    | some _ ↦ elim (to_usize usize_max source) [
      | none ↦ some (s, false)
      | some index ↦ Option.bind (get_elem? g.offsets index) (λ first.
          elim (to_usize usize_max first) [
            | none ↦ some (s, false)
            | some start ↦ Option.bind (get_elem? g.offsets (index + 1)) (λ last.
                elim (to_usize usize_max last) [
                  | none ↦ some (s, false)
                  | some end ↦ Option.map (visit_loop visit s) (range_slice g.targets start end)
                ])
          ])
    ]
  ]
