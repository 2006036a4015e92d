-- ===== src/Db/Overlay/Blob.antt =====
-- crates/oxgraph-db/src/overlay/log.rs: what was interned is read back, whatever the blob gets later.
use mathlib.Core.List.{flat_map}
use oxgraph.Prelude.{
  ℕ, ◌+◌, ◌*◌, ◌^◌, ◌/◌, ◌%◌, ◌≤◌, ◌≡◌, refl, sym, Bool, true, some, List, ◌++◌, length, ok, arith,
  le→leb, take-append, drop-append, length-append, le_bytes, slice,
}
use oxgraph.Snapshot.Words.{AllBelow, length-flat_map, words_of-flat_map}
use oxgraph.Snapshot.Sections.{words_of}
use oxgraph.Db.Overlay.Log.{blob_str, decode_def_words, get_slice}

-- The piece of a blob.
pub slice-middle {ℓ} :
    {A : Type ℓ} (blob piece rest : List A)
    → slice (blob ++ (piece ++ rest)) (length blob) (length piece) ≡ piece
slice-middle blob piece rest =
    rw (drop-append (length blob) blob (piece ++ rest) refl)
      (take-append (length piece) piece rest refl)

module _ (usize_max : ℕ) (blob piece rest : List ℕ)
    (fits : length (blob ++ (piece ++ rest)) ≤ usize_max) where
  size : length blob + length piece ≤ length (blob ++ (piece ++ rest))
  size = omega (arith, length-append blob (piece ++ rest), length-append piece rest)

  get_slice-middle :
      get_slice (blob ++ (piece ++ rest)) (length blob) (length blob + length piece) (length piece)
      ≡ some piece
  get_slice-middle =
      rw
        (
          le→leb (length blob + length piece) (length (blob ++ (piece ++ rest))) size,
          slice-middle blob piece rest,
        )
        refl

  pub blob_str-intern :
      (is_utf8 : List ℕ → Bool) (lsn : ℕ)
      → is_utf8 piece ≡ true
      → blob_str usize_max is_utf8 (blob ++ (piece ++ rest)) (length blob) (length piece) lsn
        ≡ ok piece
  unfolding blob_str
  blob_str-intern is_utf8 lsn valid =
      rw
        (
          le→leb (length blob) usize_max (omega (arith, size)),
          le→leb (length piece) usize_max (omega (arith, size)),
          le→leb (length blob + length piece) usize_max (omega (arith, size)),
          get_slice-middle,
          valid,
        )
        refl

pub decode_def_words-intern_words :
    (usize_max : ℕ) (blob words rest : List ℕ) (lsn : ℕ)
    → length (blob ++ (flat_map (le_bytes 8) words ++ rest)) ≤ usize_max
    → AllBelow (256 ^ 8) words
    → decode_def_words usize_max
        (blob ++ (flat_map (le_bytes 8) words ++ rest))
        (length blob)
        (length words * 8)
        lsn
      ≡ ok words
unfolding decode_def_words
decode_def_words-intern_words usize_max blob words rest lsn fits below =
    let piece = flat_map (le_bytes 8) words in
    let len : length words * 8 ≡ length piece = sym (length-flat_map 8 words) in
    let whole : length piece % 8 ≡ 0 = omega arith in
    let count : length piece / 8 ≡ length words = omega arith in
    let inside = size usize_max blob piece rest fits in
    let back : words_of 8 (length words) piece ≡ words = words_of-flat_map 8 words below in
    rw
      (
        len,
        le→leb (length blob) usize_max (omega arith),
        le→leb (length piece) usize_max (omega arith),
        le→leb (length blob + length piece) usize_max (omega arith),
        get_slice-middle usize_max blob piece rest fits,
        whole,
        count,
        back,
      )
      refl
