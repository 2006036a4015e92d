-- ===== src/Snapshot/Words.antt =====
-- crates/oxgraph-snapshot/src/container.rs: the words of `typed_section`.
use native.Mathlib.Nat.{suc-mul}
use mathlib.Core.List.{flat_map}
use oxgraph.Prelude.{
  ℕ, ◌*◌, ◌/◌, ◌%◌, ◌^◌, ◌<◌, ◌≡◌, refl, ap, sym, ◌∙◌, ◌++◌, append_assoc, append-nil, some, List,
  [], ◌∷◌, length, ok, arith, le_bytes, le_take, le_drop, le_value-le_bytes, length-le_bytes,
  length-append, if◌then◌else◌, ◌==◌, true, false, ==_refl,
}
use oxgraph.Layout.Width.{Width, u16, u32, u64, usize}
use oxgraph.Snapshot.Reader.{Snapshot}
use oxgraph.Snapshot.Sections.{Section, words_of, word_size, section, try_as_slice, typed_section}

abbrev pub AllBelow : ℕ → List ℕ → Type 0
AllBelow n [] = Unit
AllBelow n (x ∷ xs) = (x < n) × AllBelow n xs

abbrev pub word_bytes : Width → List ℕ → List ℕ
word_bytes width values = flat_map (le_bytes (word_size width)) values

pub length-flat_map :
    (k : ℕ) (values : List ℕ) → length (flat_map (le_bytes k) values) ≡ length values * k
unfolding flat_map
length-flat_map k [] = omega arith
length-flat_map k (v ∷ vs) = omega (
  arith,
  length-append (le_bytes k v) (flat_map (le_bytes k) vs),
  length-le_bytes k v,
  length-flat_map k vs,
  suc-mul (length vs) k,
)

-- The words read back, whatever bytes follow.
pub words_of-flat_map_append :
    (k : ℕ) (values rest : List ℕ)
    → AllBelow (256 ^ k) values
    → words_of k (length values) (flat_map (le_bytes k) values ++ rest) ≡ values
unfolding flat_map words_of
words_of-flat_map_append k [] rest h = refl
words_of-flat_map_append k (v ∷ vs) rest h =
    let more = flat_map (le_bytes k) vs ++ rest in
    rw
      (
        append_assoc (le_bytes k v) (flat_map (le_bytes k) vs) rest,
        le_take k v more,
        le_drop k v more,
        le_value-le_bytes k v h.0,
        words_of-flat_map_append k vs rest h.1,
      )
      refl

pub words_of-flat_map :
    (k : ℕ) (values : List ℕ)
    → AllBelow (256 ^ k) values
    → words_of k (length values) (flat_map (le_bytes k) values) ≡ values
words_of-flat_map k values h =
    ap (words_of k (length values)) (sym (append-nil (flat_map (le_bytes k) values)))
    ∙ words_of-flat_map_append k values [] h

pub length-word_bytes :
    (width : Width) (values : List ℕ)
    → length (word_bytes width values) ≡ length values * word_size width
length-word_bytes width values = length-flat_map (word_size width) values

-- The words of `values` are whole.
whole :
    (width : Width) (values bytes : List ℕ)
    → length bytes ≡ length values * word_size width
    → (length bytes % word_size width ≡ 0) × (length bytes / word_size width ≡ length values)
whole u16 values bytes h = omega arith
whole u32 values bytes h = omega arith
whole u64 values bytes h = omega arith
whole usize values bytes h = omega arith

some_size : (width : Width) → (if word_size width == 0 then false else true) ≡ true
some_size u16 = refl
some_size u32 = refl
some_size u64 = refl
some_size usize = refl

-- A section that holds the little-endian words of `values` is read as `values`.
pub typed_section_words :
    (addr : ℕ) (s : Snapshot) (width : Width) (kind version : ℕ) (values : List ℕ) (x : Section)
    → section s kind ≡ some x
    → x.version ≡ version
    → x.payload ≡ word_bytes width values
    → AllBelow (256 ^ word_size width) values
    → typed_section addr s width kind version ≡ ok values
unfolding typed_section try_as_slice
typed_section_words addr s width kind version values x found v p below =
    let (fit, count) =
      whole width values (word_bytes width values) (length-word_bytes width values) in
    let one : addr % 1 ≡ 0 = omega arith in
    rw
      (
        found,
        v,
        ==_refl version,
        p,
        some_size width,
        fit,
        one,
        count,
        words_of-flat_map (word_size width) values below,
      )
      refl
