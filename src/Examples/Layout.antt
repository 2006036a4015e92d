-- ===== src/Examples/Layout.antt =====
-- crates/oxgraph-layout-util on concrete arrays, buckets, keys and bytes.
use oxgraph.Prelude.{
  ℕ, suc, ◌-◌, ◌<◌, ◌≡◌, ◌↔◌, refl, List, [], ◌∷◌, length, get_or, ok, err, arith, slice,
}
use mathlib.Core.List.{flatten}
use oxgraph.Layout.Width.{u16, usize}
use oxgraph.Layout.Integrity.{
  check_offset_section, check_offsets_monotonic, monotonic_loop, check_final, check_value_range,
  range_loop, non_monotonic, value_out_of_range, ◌!◌,
}
use oxgraph.Layout.Integrity.Offsets.{IsOffsetSection, check_offset_section_iff}
use oxgraph.Layout.Integrity.Issues.{ReportsOffsets, check_offset_section-Reports}
use oxgraph.Layout.Build.{build_offset_index, bucket_loop, index_from_usize, index_overflow}
use oxgraph.Layout.Build.OffsetIndex.{
  build_offset_index_ok, IsFirstOver, build_offset_index_overflow,
}
use oxgraph.Layout.Keys.{encode_composite_key, encode_composite_key-injective, to_string}

abbrev host : ℕ
host = 0xffff_ffff_ffff_ffff

abbrev offsets : List ℕ
offsets = 0 ∷ 2 ∷ 2 ∷ 5 ∷ []

offsets_pass : check_offset_section host offsets 3 5 ≡ ok tt
unfolding check_offset_section check_offsets_monotonic monotonic_loop check_final
offsets_pass = refl

offsets_fall : check_offset_section host (0 ∷ 3 ∷ 1 ∷ []) 2 1 ≡ err (non_monotonic 2 3 1)
unfolding check_offset_section check_offsets_monotonic monotonic_loop check_final
offsets_fall = refl

values_out : check_value_range host (1 ∷ 4 ∷ 9 ∷ []) 4 ≡ err (value_out_of_range 1 4 4)
unfolding check_value_range range_loop
values_out = refl

check_offset_section_iff_example :
    (check_offset_section host offsets 3 5 ≡ ok tt) ↔ IsOffsetSection offsets 3 5
check_offset_section_iff_example =
    check_offset_section_iff host offsets 3 5 (omega arith) (omega arith)

check_offset_section-Reports_example :
    ReportsOffsets host (0 ∷ 3 ∷ 1 ∷ []) 2 1 (check_offset_section host (0 ∷ 3 ∷ 1 ∷ []) 2 1)
check_offset_section-Reports_example =
    check_offset_section-Reports host 2 1 (0 ∷ 3 ∷ 1 ∷ []) (omega arith) (omega arith)

abbrev buckets : List (List ℕ)
buckets = (7 ∷ 8 ∷ []) ∷ [] ∷ (9 ∷ []) ∷ []

buckets_flatten : build_offset_index host u16 buckets ≡ ok (0 ∷ 2 ∷ 2 ∷ 3 ∷ [], 7 ∷ 8 ∷ 9 ∷ [])
unfolding build_offset_index bucket_loop index_from_usize
buckets_flatten = refl

build_offset_index_ok_example :
    (offsets : List ℕ) × (build_offset_index host u16 buckets ≡ ok (offsets, flatten buckets))
    × (check_offset_section host offsets 3 (length (flatten buckets)) ≡ ok tt)
    × ((i : ℕ)
        → i < 3
        → slice (flatten buckets) (offsets ! i) (offsets ! (suc i) - offsets ! i)
          ≡ get_or buckets i [])
unfolding flatten
build_offset_index_ok_example =
    build_offset_index_ok host u16 buckets (omega arith) (omega arith) (omega arith)

abbrev fields : List (List ℕ)
fields = (b'a' ∷ []) ∷ (b'b' ∷ b':' ∷ []) ∷ []

encode_composite_key-injective_example : fields ≡ fields
encode_composite_key-injective_example = encode_composite_key-injective fields fields refl

key_of_two : encode_composite_key fields ≡ b'1' ∷ b':' ∷ b'a' ∷ b'2' ∷ b':' ∷ b'b' ∷ b':' ∷ []
unfolding encode_composite_key to_string
key_of_two = refl

-- On a host whose `usize` ends at 2.
build_offset_index_overflow_example :
    (value : ℕ) × (build_offset_index 2 usize buckets ≡ err (index_overflow value))
    × IsFirstOver 2 usize 0 buckets value
unfolding flatten
build_offset_index_overflow_example = build_offset_index_overflow 2 usize buckets (omega arith)
