-- ===== src/Layout/Build/OffsetIndex.antt =====
-- crates/oxgraph-layout-util/src/build.rs: `build_offset_index`.
use mathlib.Core.List.{flatten}
use oxgraph.Prelude.{
  slice, ℕ, zero, suc, ◌+◌, ◌-◌, ◌≤◌, ◌<◌, ◌≡◌, refl, ap, List, [], ◌∷◌, ◌++◌, append-nil,
  append_assoc, length, get_or, take, take-append, drop-append, length-append, ok, err, arith,
  le→leb, leb, Bool-cases, inl, inr,
}
use oxgraph.Layout.Width.{Width, max_value}
use oxgraph.Layout.Build.{index_overflow, index_from_usize, bucket_loop, build_offset_index}
use oxgraph.Layout.Integrity.{◌!◌, check_offset_section}
use oxgraph.Layout.Integrity.Offsets.{IsOffsetSection, check_offset_section_iff}

module _ {A : Type 0} where
  -- The ends of the buckets, the first of which starts at `n`.
  abbrev ends : ℕ → List (List A) → List ℕ
  ends n [] = []
  ends n (b ∷ bs) = (n + length b) ∷ ends (n + length b) bs

  length-ends : (n : ℕ) (bs : List (List A)) → length (ends n bs) ≡ length bs
  length-ends n [] = refl
  length-ends n (b ∷ bs) = ap suc (length-ends (n + length b) bs)

  ends-ordered :
      (n : ℕ) (bs : List (List A)) (i : ℕ)
      → i < length bs
      → (n ∷ ends n bs) ! i ≤ (n ∷ ends n bs) ! (suc i)
  ends-ordered n [] i h = absurd (omega arith)
  ends-ordered n (b ∷ bs) zero h = omega arith
  ends-ordered n (b ∷ bs) (suc i) h = ends-ordered (n + length b) bs i (omega arith)

  ends-final :
      (n : ℕ) (bs : List (List A)) → (n ∷ ends n bs) ! (length bs) ≡ n + length (flatten bs)
  unfolding flatten
  ends-final n [] = omega arith
  ends-final n (b ∷ bs) = omega (arith, ends-final (n + length b) bs, length-append b (flatten bs))

  ends-slice :
      (before : List A) (n : ℕ) (bs : List (List A)) (i : ℕ)
      → length before ≡ n
      → i < length bs
      → slice
          (before ++ flatten bs)
          ((n ∷ ends n bs) ! i)
          ((n ∷ ends n bs) ! (suc i) - (n ∷ ends n bs) ! i)
        ≡ get_or bs i []
  unfolding flatten
  ends-slice before n [] i e h = absurd (omega arith)
  ends-slice before n (b ∷ bs) zero e h =
      let width : n + length b - n ≡ length b = omega arith in
      rw (width, drop-append n before (b ++ flatten bs) e)
        (take-append (length b) b (flatten bs) refl)
  ends-slice before n (b ∷ bs) (suc i) e h = rw (← append_assoc before b (flatten bs)) (
      ends-slice (before ++ b) (n + length b) bs i (omega (arith, length-append before b))
        (omega arith))

module _ (usize_max : ℕ) (width : Width) where
  pub index_from_usize_ok :
      (value : ℕ)
      → value ≤ max_value usize_max width
      → index_from_usize usize_max width value ≡ ok value
  unfolding index_from_usize
  index_from_usize_ok value h = rw (le→leb value (max_value usize_max width) h)

module _ (usize_max : ℕ) (width : Width) {A : Type 0} where
  -- If all the items can be indexed, the loop adds the ends of the buckets and the items.
  bucket_loop_ok :
      (offsets : List ℕ) (items : List A) (bs : List (List A))
      → length items + length (flatten bs) ≤ max_value usize_max width
      → bucket_loop usize_max width offsets items bs
        ≡ ok (offsets ++ ends (length items) bs, items ++ flatten bs)
  unfolding bucket_loop flatten
  bucket_loop_ok offsets items [] h = rw (append-nil offsets, append-nil items)
  bucket_loop_ok offsets items (b ∷ bs) h =
      let all = length-append b (flatten bs) in
      let here = length-append items b in
      let rest =
        bucket_loop_ok (offsets ++ length (items ++ b) ∷ []) (items ++ b) bs (omega arith) in
      rw (index_from_usize_ok usize_max width (length (items ++ b)) (omega arith), rest)
        (rw (append_assoc offsets, append_assoc items, here))

  -- Where the index width and `usize` reach all the items, and `usize` the buckets and one, the
  -- flattening succeeds: the offsets are accepted by `check_offset_section` for the items, each
  -- range is its bucket, and the items are the buckets' in order.
  pub build_offset_index_ok :
      (buckets : List (List A))
      → length (flatten buckets) ≤ max_value usize_max width
      → length buckets + 1 ≤ usize_max
      → length (flatten buckets) ≤ usize_max
      → (offsets : List ℕ) × (build_offset_index usize_max width buckets
          ≡ ok (offsets, flatten buckets))
        × (check_offset_section usize_max offsets (length buckets) (length (flatten buckets))
            ≡ ok tt)
        × ((i : ℕ)
            → i < length buckets
            → slice (flatten buckets) (offsets ! i) (offsets ! (suc i) - offsets ! i)
              ≡ get_or buckets i [])
  unfolding build_offset_index
  build_offset_index_ok buckets h rows fits =
      let size = length-ends 0 buckets in
      let cut : IsOffsetSection (0 ∷ ends 0 buckets) (length buckets) (length (flatten buckets)) =
        record {
          size = omega arith;
          first = refl;
          ordered = ends-ordered 0 buckets;
          final = omega (arith, ends-final 0 buckets);
        } in
      (
        0 ∷ ends 0 buckets,
        rw (
          index_from_usize_ok usize_max width 0 (omega arith),
          bucket_loop_ok (0 ∷ []) [] buckets (omega arith),
        ),
        (check_offset_section_iff usize_max (0 ∷ ends 0 buckets) (length buckets)
              (length (flatten buckets)) (omega arith) fits).1
            cut,
        λ i lt. ends-slice [] 0 buckets i refl lt,
      )

  -- The items of the first `i` buckets, after `held` items.
  abbrev total : (held : ℕ) → List (List A) → ℕ → ℕ
  total held bs i = held + length (flatten (take i bs))

  -- The width reaches the items of `i` buckets, and `value` is how many items there are with the
  -- bucket after them, too many.
  pub record IsFirstOver (held : ℕ) (bs : List (List A)) (value : ℕ) : Type 0 where
    pub fitting : ℕ
    pub within : fitting < length bs
    pub fits : total held bs fitting ≤ max_value usize_max width
    pub counted : value ≡ total held bs (suc fitting)
    pub over : max_value usize_max width < value

  bucket_loop_overflow :
      (offsets : List ℕ) (items : List A) (bs : List (List A))
      → length items ≤ max_value usize_max width
      → max_value usize_max width < length items + length (flatten bs)
      → (value : ℕ) × (bucket_loop usize_max width offsets items bs ≡ err (index_overflow value))
        × IsFirstOver (length items) bs value
  unfolding bucket_loop flatten index_from_usize
  bucket_loop_overflow offsets items [] fits h = absurd (omega arith)
  bucket_loop_overflow offsets items (b ∷ bs) fits h =
      let all = length-append b (flatten bs) in
      let here = length-append items b in
      elim (Bool-cases (leb (length (items ++ b)) (max_value usize_max width))) [
        | inl small ↦
            let (value, run, first) =
              bucket_loop_overflow (offsets ++ length (items ++ b) ∷ []) (items ++ b) bs
                (ground arith) (omega arith) in
            (
              value,
              rw small run,
              record {
                fitting = suc first.fitting;
                within = omega (arith, first.within);
                fits = omega (arith, first.fits, length-append b (flatten (take first.fitting bs)));
                counted =
                    omega (
                      arith,
                      first.counted,
                      length-append b (flatten (take (suc first.fitting) bs)),
                    );
                over = first.over;
              },
            )
        | inr big ↦ (
          length (items ++ b),
          rw big refl,
          record {
            fitting = 0;
            within = omega arith;
            fits = omega arith;
            counted = omega (arith, length-append b []);
            over = ground arith;
          },
        )
      ]

  -- When the width cannot index all the items the flattening is refused, and the value in the
  -- error is the number of items up to and with the first bucket whose end the width cannot hold.
  pub build_offset_index_overflow :
      (buckets : List (List A))
      → max_value usize_max width < length (flatten buckets)
      → (value : ℕ) × (build_offset_index usize_max width buckets ≡ err (index_overflow value))
        × IsFirstOver 0 buckets value
  unfolding build_offset_index
  build_offset_index_overflow buckets h =
      rw (index_from_usize_ok usize_max width 0 (omega arith))
        (bucket_loop_overflow (0 ∷ []) [] buckets (omega arith) (omega arith))
