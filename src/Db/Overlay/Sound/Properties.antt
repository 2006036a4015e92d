-- ===== src/Db/Overlay/Sound/Properties.antt =====
-- crates/oxgraph-db/src/overlay/write.rs: the ops of the properties replay.
use oxgraph.Prelude.{
  ℕ, ◌≤◌, ◌≡◌, refl, sym, Bool, true, false, List, [], ◌∷◌, ◌++◌, length, ok, append-nil,
  if◌then◌else◌,
}
use oxgraph.Db.State.{
  PropertySubject, element_subject, relation_subject, incidence_subject, PropertyType, boolean_type,
  integer_type, text_type, PropertyValue, boolean, integer, text, value_type, IsI64,
  cast_signed-cast_unsigned,
}
use oxgraph.Db.Wire.{MutationOp}
use oxgraph.Db.Wire.Tags.{op_set_property, pack_flags, encode_subject, property_type_tag}
use oxgraph.Db.Overlay.{BaseRecords, IndexOps, WriteOverlay}
use oxgraph.Db.Overlay.Log.{MutationLog, op_with, payload_of}
use oxgraph.Db.Overlay.Inner.{set_property_inner}
use oxgraph.Db.Overlay.Write.{log_value, set_property, remove_property, visible_property_is, logged}
use oxgraph.Db.Overlay.Replay.{
  decode_value, apply_set_property, apply_remove_property, apply_replay_op,
}
use oxgraph.Db.Overlay.Blob.{blob_str-intern}
use oxgraph.Db.Overlay.Sound.{Replays, Replays-op, replica}
use oxgraph.Db.Overlay.Sound.Topology.{Replays-logged}

-- A text is UTF-8, and an integer an `i64`.
abbrev pub IsValue : (List ℕ → Bool) → PropertyValue → Type 0
IsValue is_utf8 (boolean flag) = Unit
IsValue is_utf8 (integer number) = IsI64 number
IsValue is_utf8 (text string) = is_utf8 string ≡ true

-- What a value leaves in the blob.
abbrev pub value_bytes : PropertyValue → List ℕ
value_bytes (boolean flag) = []
value_bytes (integer number) = []
value_bytes (text string) = string

abbrev pub value_op : PropertySubject → (key : ℕ) → PropertyValue → MutationLog → MutationOp
value_op subject key value log =
    let (after, scalar, text_off, text_len) = log_value value log in
    op_with op_set_property
      (pack_flags (encode_subject subject).0 (property_type_tag (value_type value)))
      ((encode_subject subject).1 ∷ key ∷ scalar ∷ text_off ∷ text_len ∷ [])

log_value-blob :
    (value : PropertyValue) (log : MutationLog)
    → (log_value value log).0.blob ≡ log.blob ++ value_bytes value
log_value-blob (boolean flag) log = sym (append-nil log.blob)
log_value-blob (integer number) log = sym (append-nil log.blob)
log_value-blob (text string) log = refl

log_value-ops : (value : PropertyValue) (log : MutationLog) → (log_value value log).0.ops ≡ log.ops
log_value-ops (boolean flag) log = refl
log_value-ops (integer number) log = refl
log_value-ops (text string) log = refl

module _ (usize_max : ℕ) (is_utf8 : List ℕ → Bool) where
  decode_value-log_value :
      (subject : PropertySubject) (key : ℕ) (value : PropertyValue) (log : MutationLog)
      (rest : List ℕ) (lsn : ℕ)
      → IsValue is_utf8 value
      → length (log.blob ++ (value_bytes value ++ rest)) ≤ usize_max
      → decode_value usize_max is_utf8
          (value_type value)
          (value_op subject key value log)
          (log.blob ++ (value_bytes value ++ rest))
          lsn
        ≡ ok value
  unfolding decode_value payload_of
  decode_value-log_value subject key (boolean true) log rest lsn valid fits = refl
  decode_value-log_value subject key (boolean false) log rest lsn valid fits = refl
  decode_value-log_value subject key (integer number) log rest lsn valid fits =
      rw (cast_signed-cast_unsigned number valid) refl
  decode_value-log_value subject key (text string) log rest lsn valid fits =
      rw (blob_str-intern usize_max log.blob string rest fits is_utf8 lsn valid) refl

  module _ {I : Type 0} (idx : IndexOps I) (base : BaseRecords) where
    apply_set_property_lem :
        (subject : PropertySubject) (type : PropertyType) (value : PropertyValue)
        (key scalar off len : ℕ) (blob : List ℕ) (lsn : ℕ) (w : WriteOverlay I)
        → let op =
            op_with op_set_property
              (pack_flags (encode_subject subject).0 (property_type_tag type))
              ((encode_subject subject).1 ∷ key ∷ scalar ∷ off ∷ len ∷ []) in
          decode_value usize_max is_utf8 type op blob lsn ≡ ok value
          → apply_set_property usize_max is_utf8 idx base op blob lsn w
            ≡ ok (set_property_inner idx base subject key value w)
    unfolding apply_set_property payload_of
    apply_set_property_lem (element_subject id) boolean_type value key scalar off len blob lsn w h =
        rw h refl
    apply_set_property_lem (element_subject id) integer_type value key scalar off len blob lsn w h =
        rw h refl
    apply_set_property_lem (element_subject id) text_type value key scalar off len blob lsn w h =
        rw h refl
    apply_set_property_lem (relation_subject id) boolean_type value key scalar off len blob lsn w
          h =
        rw h refl
    apply_set_property_lem (relation_subject id) integer_type value key scalar off len blob lsn w
          h =
        rw h refl
    apply_set_property_lem (relation_subject id) text_type value key scalar off len blob lsn w h =
        rw h refl
    apply_set_property_lem (incidence_subject id) boolean_type value key scalar off len blob lsn w
          h =
        rw h refl
    apply_set_property_lem (incidence_subject id) integer_type value key scalar off len blob lsn w
          h =
        rw h refl
    apply_set_property_lem (incidence_subject id) text_type value key scalar off len blob lsn w h =
        rw h refl

    module _ (start w : WriteOverlay I) (so_far : Replays usize_max is_utf8 idx base start w) where
      -- A value set on the writer, which is not the visible one.
      Replays-set_value :
          (subject : PropertySubject) (key : ℕ) (value : PropertyValue)
          → IsValue is_utf8 value
          → let (log, scalar, text_off, text_len) = log_value value w.log in
            Replays usize_max is_utf8 idx base start (
              set_property_inner idx base subject key value (
                logged op_set_property
                  (pack_flags (encode_subject subject).0 (property_type_tag (value_type value)))
                  ((encode_subject subject).1 ∷ key ∷ scalar ∷ text_off ∷ text_len ∷ [])
                  (record w { log = log })))
      unfolding apply_replay_op
      Replays-set_value subject key value valid =
          Replays-op usize_max is_utf8 idx base start w _ (value_bytes value)
            (value_op subject key value w.log) so_far (log_value-blob value w.log)
            (rw (log_value-ops value w.log) refl)
            (λ rest lsn next fits.
              apply_set_property_lem subject (value_type value) value key _ _ _
                (w.log.blob ++ (value_bytes value ++ rest)) lsn (replica w next)
                (decode_value-log_value subject key value w.log rest lsn valid fits))

      Replays-unless :
          (same : Bool) (after : WriteOverlay I)
          → Replays usize_max is_utf8 idx base start after
          → Replays usize_max is_utf8 idx base start (if same then w else after)
      Replays-unless true after h = so_far
      Replays-unless false after h = h

      pub Replays-set_property :
          (subject : PropertySubject) (key : ℕ) (value : PropertyValue)
          → IsValue is_utf8 value
          → Replays usize_max is_utf8 idx base start (set_property idx base subject key value w)
      unfolding set_property
      Replays-set_property subject key value valid =
          Replays-unless (visible_property_is idx base w subject key value) _
            (Replays-set_value subject key value valid)

      pub Replays-remove_property :
          (subject : PropertySubject) (key : ℕ)
          → Replays usize_max is_utf8 idx base start (remove_property idx base subject key w)
      unfolding apply_replay_op apply_remove_property payload_of
      Replays-remove_property (element_subject id) key =
          Replays-logged usize_max is_utf8 idx base start w so_far _ _ refl refl
            (λ rest lsn next fits. refl)
      Replays-remove_property (relation_subject id) key =
          Replays-logged usize_max is_utf8 idx base start w so_far _ _ refl refl
            (λ rest lsn next fits. refl)
      Replays-remove_property (incidence_subject id) key =
          Replays-logged usize_max is_utf8 idx base start w so_far _ _ refl refl
            (λ rest lsn next fits. refl)
