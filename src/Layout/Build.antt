-- ===== src/Layout/Build.antt =====
-- crates/oxgraph-layout-util/src/build.rs: the helpers of the builders, from ids to slots and back,
-- and the flattening of buckets into offsets and items.
pub mod OffsetIndex
use oxgraph.Prelude.{
  ℕ, ◌+◌, Option, none, some, List, [], ◌∷◌, ◌++◌, length, ltb, if◌then◌else◌, Result, ok, err,
  ◌>>=◌, ok_or, map_err,
}
use oxgraph.Layout.Width.{Width, to_usize, from_usize, checked_add}

-- `IdOutOfBounds`.
pub data IdOutOfBounds : Type 0 where
  usize_overflow : IdOutOfBounds
  out_of_range : (slot count : ℕ) → IdOutOfBounds

-- `OffsetOverflow`.
pub data OffsetOverflow : Type 0 where
  index_overflow : (value : ℕ) → OffsetOverflow

abbrev pub map_offset_overflow : {E : Type 0} → OffsetOverflow → (ℕ → E) → E
map_offset_overflow (index_overflow value) on_overflow = on_overflow value

module _ (usize_max : ℕ) where
  -- The id and the advanced counter.
  unfoldable pub next_dense_index : {E : Type 0} → Width → ℕ → (ℕ → E) → Result E (ℕ × ℕ)
  next_dense_index width counter on_overflow = do
    id ← ok_or (from_usize usize_max width counter) (on_overflow counter)
    counter' ← ok_or (checked_add usize_max counter 1) (on_overflow usize_max)
    ok (id, counter')

  unfoldable pub id_to_slot : ℕ → ℕ → Result IdOutOfBounds ℕ
  id_to_slot id count = do
    slot ← ok_or (to_usize usize_max id) usize_overflow
    if ltb slot count then ok slot else err (out_of_range slot count)

  unfoldable pub slot_or_max : ℕ → ℕ
  slot_or_max id = elim (to_usize usize_max id) [ some slot ↦ slot | none ↦ usize_max ]

  unfoldable pub index_from_usize : Width → ℕ → Result OffsetOverflow ℕ
  index_from_usize width value = ok_or (from_usize usize_max width value) (index_overflow value)

  -- The loop of `build_offset_index` over the buckets left.
  unfoldable pub bucket_loop :
      {A : Type 0}
      → Width
      → List ℕ
      → List A
      → List (List A)
      → Result OffsetOverflow (List ℕ × List A)
  bucket_loop width offsets items [] = ok (offsets, items)
  bucket_loop width offsets items (bucket ∷ buckets) = do
    offset ← index_from_usize width (length (items ++ bucket))
    bucket_loop width (offsets ++ offset ∷ []) (items ++ bucket) buckets

  unfoldable pub build_offset_index :
      {A : Type 0} → Width → List (List A) → Result OffsetOverflow (List ℕ × List A)
  build_offset_index width buckets = do
    first ← index_from_usize width 0
    bucket_loop width (first ∷ []) [] buckets
