-- ===== src/Layout/Keys.antt =====
-- crates/oxgraph-layout-util/src/keys.rs: the composite key of text fields. A field is the list of
-- its UTF-8 bytes. `usize::to_string` writes decimal digits.
use oxgraph.Prelude.{
  ℕ, zero, suc, ◌+◌, ◌-◌, ◌*◌, ◌/◌, ◌%◌, ◌<◌, ◌≡◌, refl, ap, sym, ◌∙◌, List, [], ◌∷◌, ◌++◌, length,
  ltb, if◌then◌else◌, arith, Bool-cases, inl, inr,
}

-- The decimal digits of `n` as ASCII, with fuel above the count of digits.
unfoldable pub decimal_loop : ℕ → ℕ → List ℕ
decimal_loop zero n = []
decimal_loop (suc fuel) n =
    let rest = decimal_loop fuel (n / 10) in
    if ltb n 10 then (b'0' + n) ∷ [] else rest ++ (b'0' + n % 10) ∷ []

unfoldable pub to_string : ℕ → List ℕ
unfolding decimal_loop
to_string n = decimal_loop (suc n) n

unfoldable pub encode_composite_key : List (List ℕ) → List ℕ
encode_composite_key [] = []
encode_composite_key (field ∷ fields) =
    to_string (length field) ++ (b':' ∷ (field ++ encode_composite_key fields))

-- The number that decimal digits spell, most significant first.
abbrev spelled : ℕ → List ℕ → ℕ
spelled acc [] = acc
spelled acc (d ∷ ds) = spelled (acc * 10 + (d - b'0')) ds

spelled-append : (acc : ℕ) (xs ys : List ℕ) → spelled acc (xs ++ ys) ≡ spelled (spelled acc xs) ys
spelled-append acc [] ys = refl
spelled-append acc (x ∷ xs) ys = spelled-append (acc * 10 + (x - b'0')) xs ys

spelled-decimal_loop : (fuel n : ℕ) → n < fuel → spelled 0 (decimal_loop fuel n) ≡ n
unfolding decimal_loop
spelled-decimal_loop zero n h = absurd (omega arith)
spelled-decimal_loop (suc fuel) n h = elim (Bool-cases (ltb n 10)) [
  | inl small ↦ rw small (omega arith)
  | inr large ↦ rw large (
      rw
        (
          spelled-append 0 (decimal_loop fuel (n / 10)) ((b'0' + n % 10) ∷ []),
          spelled-decimal_loop fuel (n / 10) (ground arith),
        )
        (omega arith))
]

-- No digit is the separator.
abbrev Digits : List ℕ → Type 0
Digits [] = Unit
Digits (d ∷ ds) = (d < b':') × Digits ds

Digits-append : (xs ys : List ℕ) → Digits xs → Digits ys → Digits (xs ++ ys)
Digits-append [] ys h j = j
Digits-append (x ∷ xs) ys h j = (h.0, Digits-append xs ys h.1 j)

decimal_loop-Digits : (fuel n : ℕ) → Digits (decimal_loop fuel n)
unfolding decimal_loop
decimal_loop-Digits zero n = tt
decimal_loop-Digits (suc fuel) n = elim (Bool-cases (ltb n 10)) [
  | inl small ↦ rw small (ground arith, tt)
  | inr large ↦ rw large (
      Digits-append (decimal_loop fuel (n / 10)) ((b'0' + n % 10) ∷ [])
        (decimal_loop-Digits fuel (n / 10)) (omega arith, tt))
]

-- Text up to the first separator is determined.
prefix_unique :
    (xs ys us vs : List ℕ)
    → Digits xs
    → Digits ys
    → xs ++ (b':' ∷ us) ≡ ys ++ (b':' ∷ vs)
    → (xs ≡ ys) × (us ≡ vs)
prefix_unique [] [] us vs h j e = (refl, cc)
prefix_unique [] (y ∷ ys) us vs h j e = absurd (ground arith)
prefix_unique (x ∷ xs) [] us vs h j e = absurd (ground arith)
prefix_unique (x ∷ xs) (y ∷ ys) us vs h j e =
    let (p, q) = prefix_unique xs ys us vs h.1 j.1 (cc) in (cc, q)

to_string-injective : (m n : ℕ) → to_string m ≡ to_string n → m ≡ n
unfolding to_string
to_string-injective m n e =
    sym (spelled-decimal_loop (suc m) m (omega arith))
    ∙ (ap (spelled 0) e ∙ spelled-decimal_loop (suc n) n (omega arith))

append-cancel :
    (xs ys us vs : List ℕ) → length xs ≡ length ys → xs ++ us ≡ ys ++ vs → (xs ≡ ys) × (us ≡ vs)
append-cancel [] [] us vs h e = (refl, e)
append-cancel [] (y ∷ ys) us vs h e = absurd (omega arith)
append-cancel (x ∷ xs) [] us vs h e = absurd (omega arith)
append-cancel (x ∷ xs) (y ∷ ys) us vs h e =
    let (p, q) = append-cancel xs ys us vs (omega arith) (cc) in (cc, q)

append-ne-nil : (xs us : List ℕ) → xs ++ (b':' ∷ us) ≡ [] → ⊥
append-ne-nil [] us e = cc
append-ne-nil (x ∷ xs) us e = cc

nonempty-key :
    (field : List ℕ) (fields : List (List ℕ)) → encode_composite_key (field ∷ fields) ≡ [] → ⊥
unfolding encode_composite_key
nonempty-key field fields e =
    append-ne-nil (to_string (length field)) (field ++ encode_composite_key fields) e

-- Composite keys never collide: equal keys come from equal tuples of fields, in number and in
-- content, whatever bytes the fields hold.
pub encode_composite_key-injective :
    (fields others : List (List ℕ))
    → encode_composite_key fields ≡ encode_composite_key others
    → fields ≡ others
unfolding encode_composite_key to_string
encode_composite_key-injective [] [] e = refl
encode_composite_key-injective [] (g ∷ gs) e = absurd (nonempty-key g gs (sym e))
encode_composite_key-injective (f ∷ fs) [] e = absurd (nonempty-key f fs e)
encode_composite_key-injective (f ∷ fs) (g ∷ gs) e =
    let (p, q) =
      prefix_unique (to_string (length f)) (to_string (length g)) _ _
        (decimal_loop-Digits (suc (length f)) (length f))
        (decimal_loop-Digits (suc (length g)) (length g)) e in
    let (same, rest) = append-cancel f g _ _ (to_string-injective (length f) (length g) p) q in
    let tail = encode_composite_key-injective fs gs rest in cc
