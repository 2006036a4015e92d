-- ===== src/Db/Overlay/Words.antt =====
-- crates/oxgraph-db/src/overlay/write.rs: the ops of a writer are words, and its ids only grow.
pub mod Calls
pub mod Runs
use oxgraph.Prelude.{
  ℕ, zero, suc, ◌+◌, ◌*◌, ◌^◌, ◌%◌, ◌≤◌, ◌<◌, ◌≡◌, refl, ap, sym, ◌∙◌, subst, inl, inr, Bool, true,
  false, Option, Option-cases, none, some, List, [], ◌∷◌, ◌++◌, length, take, replicate, arith,
  length-append, length-take, Result, ok, err, if◌then◌else◌, leb→le, Bool-cases, leb,
}
use oxgraph.Snapshot.Words.{AllBelow}
use oxgraph.Db.Errors.{DbError, IdFamily, CatalogError}
use oxgraph.Db.State.{
  NextIds, checked_next, u64_max, PropertySubject, PropertyValue, boolean, integer, text, IsI64,
  cast_unsigned_word, element_subject, relation_subject, incidence_subject, value_type,
}
use oxgraph.Db.Catalog.{Catalog}
use oxgraph.Db.Wire.{MutationOp, mutation_op_payload_words}
use oxgraph.Db.Wire.Codec.{IsOp}
use oxgraph.Db.Wal.Encode.{AreOps}
use oxgraph.Db.Wire.Tags.{pack_flags}
use oxgraph.Db.Overlay.{BaseRecords, IndexOps, WriteOverlay}
use oxgraph.Db.Overlay.Log.{op_with, payload_of}
use oxgraph.Db.Overlay.Write.{or_overflow, registered}

abbrev pub ids_list : NextIds → List ℕ
ids_list next =
    next.element ∷ next.relation ∷ next.incidence ∷ next.role ∷ next.label ∷ next.relation_type
    ∷ next.property_key ∷ next.projection ∷ next.index ∷ []

abbrev pub AllLe : List ℕ → List ℕ → Type 0
AllLe (x ∷ xs) (y ∷ ys) = (x ≤ y) × AllLe xs ys
AllLe _ _ = Unit

pub AllLe-refl : (xs : List ℕ) → AllLe xs xs
AllLe-refl [] = tt
AllLe-refl (x ∷ xs) = (omega arith, AllLe-refl xs)

pub AllLe-trans :
    (xs ys zs : List ℕ) → length ys ≡ length zs → AllLe xs ys → AllLe ys zs → AllLe xs zs
AllLe-trans (x ∷ xs) (y ∷ ys) (z ∷ zs) e h k =
    (omega (arith, h.0, k.0), AllLe-trans xs ys zs (omega arith) h.1 k.1)
AllLe-trans (x ∷ xs) [] (z ∷ zs) e h k = absurd (omega arith)
AllLe-trans [] ys zs e h k = tt
AllLe-trans (x ∷ xs) ys [] e h k = tt

AllBelow-append : (n : ℕ) (xs ys : List ℕ) → AllBelow n xs → AllBelow n ys → AllBelow n (xs ++ ys)
AllBelow-append n [] ys h k = k
AllBelow-append n (x ∷ xs) ys h k = (h.0, AllBelow-append n xs ys h.1 k)

AllBelow-take : (n k : ℕ) (xs : List ℕ) → AllBelow n xs → AllBelow n (take k xs)
AllBelow-take n zero xs h = tt
AllBelow-take n (suc k) [] h = tt
AllBelow-take n (suc k) (x ∷ xs) h = (h.0, AllBelow-take n k xs h.1)

length-replicate : (n value : ℕ) → length (replicate n value) ≡ n
length-replicate zero value = refl
length-replicate (suc n) value = ap suc (length-replicate n value)

length-payload_of : (words : List ℕ) → length (payload_of words) ≡ 9
unfolding payload_of
length-payload_of words = omega (
  arith,
  length-take 9 (words ++ replicate 9 0),
  length-append words (replicate 9 0),
  length-replicate 9 0,
)

payload_of-AllBelow :
    (words : List ℕ) → AllBelow (2 ^ 64) words → AllBelow (2 ^ 64) (payload_of words)
unfolding payload_of
payload_of-AllBelow words h =
    AllBelow-take (2 ^ 64) 9 (words ++ replicate 9 0)
      (AllBelow-append (2 ^ 64) words (replicate 9 0) h (omega arith))

pub op_with-IsOp :
    (op_kind flags : ℕ) (words : List ℕ)
    → op_kind < 2 ^ 32
    → flags < 2 ^ 32
    → AllBelow (2 ^ 64) words
    → IsOp (op_with op_kind flags words)
op_with-IsOp op_kind flags words kind_word flags_word h = record {
  kind_word = kind_word;
  flags_word = flags_word;
  payload_len = length-payload_of words;
  payload_words = payload_of-AllBelow words h;
}

pub pack_flags_lt : (low high : ℕ) → pack_flags low high < 2 ^ 32
pack_flags_lt low high = omega arith

pub AreOps-append :
    (xs : List MutationOp) (op : MutationOp) → AreOps xs → IsOp op → AreOps (xs ++ op ∷ [])
AreOps-append [] op h k = (k, tt)
AreOps-append (x ∷ xs) op h k = (h.0, AreOps-append xs op h.1 k)

module _ {I : Type 0} where
  -- The writer's ids are `u64` and have not gone back; its ops are words, if offsets into its blob
  -- are.
  unfoldable pub Worded : WriteOverlay I → WriteOverlay I → Type 0
  Worded start w =
      AllBelow (2 ^ 64) (ids_list w.next)
      × AllLe (ids_list start.next) (ids_list w.next)
      × (length w.log.blob < 2 ^ 64 → AreOps w.log.ops)

  -- A call that logs an op.
  pub Worded-op :
      (start w after : WriteOverlay I) (op : MutationOp)
      → Worded start w
      → AllBelow (2 ^ 64) (ids_list after.next)
      → AllLe (ids_list w.next) (ids_list after.next)
      → length w.log.blob ≤ length after.log.blob
      → after.log.ops ≡ w.log.ops ++ op ∷ []
      → (length after.log.blob < 2 ^ 64 → IsOp op)
      → Worded start after
  unfolding Worded
  Worded-op start w after op (below, le, valid) below2 le2 longer ops_eq step = (
    below2,
    AllLe-trans (ids_list start.next) (ids_list w.next) (ids_list after.next) refl le le2,
    λ small.
        subst AreOps (sym ops_eq)
          (AreOps-append w.log.ops op (valid (omega (arith, longer, small))) (step small)),
  )

  -- A call that logs none.
  pub Worded-quiet :
      (start w after : WriteOverlay I)
      → Worded start w
      → AllBelow (2 ^ 64) (ids_list after.next)
      → AllLe (ids_list w.next) (ids_list after.next)
      → length w.log.blob ≤ length after.log.blob
      → after.log.ops ≡ w.log.ops
      → Worded start after
  unfolding Worded
  Worded-quiet start w after (below, le, valid) below2 le2 longer ops_eq = (
    below2,
    AllLe-trans (ids_list start.next) (ids_list w.next) (ids_list after.next) refl le le2,
    λ small. subst AreOps (sym ops_eq) (valid (omega (arith, longer, small))),
  )

  pub Worded-below :
      (start w : WriteOverlay I) → Worded start w → AllBelow (2 ^ 64) (ids_list w.next)
  unfolding Worded
  Worded-below start w h = h.0

  -- The allocator gives the next `u64`.
  pub Worded-or_overflow :
      (start w : WriteOverlay I) (id : ℕ) (family : IdFamily)
      (go : ℕ → WriteOverlay I × Result DbError ℕ)
      → Worded start w
      → ((n : ℕ) → n < 2 ^ 64 → id ≤ n → Worded start (go n).0)
      → Worded start (or_overflow (checked_next id) family w go).0
  Worded-or_overflow start w id family go h more = elim (Bool-cases (leb (id + 1) u64_max)) [
    | inl e ↦ rw e (more (id + 1) (omega (arith, leb→le (id + 1) u64_max e)) (omega arith))
    | inr e ↦ rw e h
  ]

  pub Worded-registered :
      (start w bumped : WriteOverlay I) (inserted : Result CatalogError Catalog)
      (id op_kind flags : ℕ) (words : List ℕ)
      → Worded start w
      → AllBelow (2 ^ 64) (ids_list bumped.next)
      → AllLe (ids_list w.next) (ids_list bumped.next)
      → length w.log.blob ≤ length bumped.log.blob
      → bumped.log.ops ≡ w.log.ops
      → op_kind < 2 ^ 32
      → flags < 2 ^ 32
      → (length bumped.log.blob < 2 ^ 64 → AllBelow (2 ^ 64) words)
      → Worded start (registered inserted bumped id op_kind flags words).0
  Worded-registered start w bumped (err error) id op_kind flags words h below le longer ops_eq k f
        b =
      Worded-quiet start w bumped h below le longer ops_eq
  Worded-registered start w bumped (ok after) id op_kind flags words h below le longer ops_eq k f
        b =
      Worded-op start w _ (op_with op_kind flags words) h below le longer
        (ap (λ (l : List MutationOp). l ++ op_with op_kind flags words ∷ []) ops_eq)
        (λ small. op_with-IsOp op_kind flags words k f (b small))
