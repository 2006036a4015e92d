-- ===== src/Examples/Store.antt =====
-- crates/oxgraph-db: transactions on a small store, its recovery, and the calls of a writer.
use oxgraph.Prelude.{
  ℕ, ◌≤◌, ◌≡◌, inl, refl, Bool, true, false, Option, none, some, List, [], ◌∷◌, ◌++◌, ok, arith,
  ltb, if◌then◌else◌, ◌^◌, length, le_bytes,
}
use oxgraph.Layout.Crc.{crc32c_append}
use oxgraph.Layout.Crc.Streaming.{crc32c_append-lt}
use oxgraph.Snapshot.Words.{AllBelow}
use oxgraph.Db.Errors.{io, catalog, duplicate_name}
use oxgraph.Db.State.{
  PropertySubject, PropertyValue, element_subject, element_family, integer_type, integer, text,
  negsuc, pos, initial_ids, subject_ord,
}
use oxgraph.Db.Catalog.{insert_named, empty_catalog, graph, ProjectionDefinition, property_equality}
use oxgraph.Db.Wire.Defs.{decode_projection_body}
use oxgraph.Db.Wire.Bodies.{decode_projection_body-encode_projection_body}
use mathlib.Core.List.{flat_map}
use oxgraph.Db.Map.{Map, get, insert, nat_ord, list_ord, cmp_list, remove}
use oxgraph.Db.Wal.{Crc32c}
use oxgraph.Db.Wal.Encode.{IsCrc, AreOps}
use Prim.Native.Nat.{Ordering}
use Prim.Native.Nat.Ordering.{lt, eq, gt}
use oxgraph.Db.Map.Sorted.{IsSorted}
use oxgraph.Db.Index.{OverlayIndex, overlay_index, property_equal, set_contains}
use oxgraph.Db.Index.Order.{EqualityKey, equality_ord}
use oxgraph.Db.Index.Postings.{posted}
use oxgraph.Db.Index.InStep.{==value_refl}
use oxgraph.Db.Index.Scan.{property_equal-run_calls}
use oxgraph.Db.Overlay.View.Maps.{eq_of_==value}
use oxgraph.Db.Overlay.{BaseRecords, WriteOverlay, new_overlay}
use oxgraph.Db.Overlay.Inner.{
  or_default, base_property, visible_property_in, tombstone_subject_properties, put_property,
}
use oxgraph.Db.Overlay.Write.{
  Call, run_call, run_calls, take_frame, call_create_element, call_create_incidence,
  call_tombstone_element, call_add_element_label, call_set_property, call_register_role,
  call_register_property_key, call_register_projection, call_register_index, set_property, value_is,
}
use oxgraph.Db.Overlay.Replay.{apply_ops}
use oxgraph.Db.Overlay.Sound.Frame.{AreCalls, apply_ops-take_frame}
use oxgraph.Db.Overlay.Words.{ids_list, AllLe}
use oxgraph.Db.Overlay.Words.Runs.{AreWordCalls, take_frame-AreOps}
use oxgraph.Db.Overlay.View.{view_of, spec_call}
use oxgraph.Db.Overlay.View.Calls.{view_of-run_call}
use oxgraph.Db.Store.{Store, Transaction, write_all, open_store}
use oxgraph.Db.Store.Durable.{AreTransactions}
use oxgraph.Db.Store.Opened.{fresh_store, open_store-write_all}

abbrev host : ℕ
host = 0xffff_ffff_ffff_ffff

abbrev crc : Crc32c
crc = record { checksum = λ bytes. crc32c_append 0 bytes; checksum_append = crc32c_append }

crc-IsCrc : IsCrc crc
crc-IsCrc = record { checksum_word = λ bytes. crc32c_append-lt 0 bytes; word = crc32c_append-lt }

abbrev is_ascii : List ℕ → Bool
is_ascii [] = true
is_ascii (b ∷ bs) = if ltb b 128 then is_ascii bs else false

abbrev base : BaseRecords
base = record {
  elements = (1, record { id = 1; labels = 4 ∷ [] }) ∷ [];
  relations = [];
  incidences = [];
  properties = (element_subject 1, (1, integer (pos 5)) ∷ []) ∷ [];
}

abbrev start : WriteOverlay OverlayIndex
start = new_overlay overlay_index initial_ids empty_catalog

abbrev knows : ProjectionDefinition
knows = graph (b'k' ∷ []) (2 ∷ 5 ∷ []) 1 2

-- The second registration of the role fails, and so does the set of the value that is there.
abbrev calls : List Call
calls =
    call_create_element
    ∷ call_register_role (b'r' ∷ [])
    ∷ call_register_role (b'r' ∷ [])
    ∷ call_register_property_key (b'p' ∷ []) element_family integer_type
    ∷ call_register_projection knows
    ∷ call_register_index (b'i' ∷ []) (property_equality 1)
    ∷ call_create_incidence 1 1 1
    ∷ call_add_element_label 1 9
    ∷ call_set_property (element_subject 1) 1 (integer (pos 5))
    ∷ call_set_property (element_subject 1) 2 (text (b't' ∷ []))
    ∷ call_tombstone_element 1
    ∷ call_set_property (element_subject 2) 1 (integer (negsuc 0))
    ∷ []

calls-AreCalls : AreCalls is_ascii calls
calls-AreCalls = ground arith

calls-AreWordCalls : AreWordCalls calls
calls-AreWordCalls = omega arith

blob_len : length (run_calls overlay_index base calls start).log.blob ≡ 54
unfolding set_property insert_named insert get nat_ord list_ord cmp_list subject_ord flat_map
    le_bytes tombstone_subject_properties remove put_property
blob_len = refl

apply_ops-take_frame_example :
    let (ops, blob, left) = take_frame (run_calls overlay_index base calls start) in
    apply_ops host is_ascii overlay_index base ops blob 1 (record start { next = initial_ids })
    ≡ ok left
apply_ops-take_frame_example =
    apply_ops-take_frame host is_ascii overlay_index base start calls 1 initial_ids refl
      calls-AreCalls (omega (arith, blob_len))

take_frame-AreOps_example :
    let w = run_calls overlay_index base calls start in
    AllLe (ids_list start.next) (ids_list w.next)
    × AllBelow (2 ^ 64) (ids_list w.next)
    × AreOps (take_frame w).0
take_frame-AreOps_example =
    take_frame-AreOps is_ascii overlay_index base start calls (omega arith) refl calls-AreCalls
      calls-AreWordCalls (omega (arith, blob_len))

view_of-run_call_example :
    view_of base (run_call overlay_index base (call_tombstone_element 1) start)
    ≡ spec_call start.next (call_tombstone_element 1) (view_of base start)
view_of-run_call_example = view_of-run_call overlay_index base (call_tombstone_element 1) start

decode_projection_body-encode_projection_body_example :
    decode_projection_body host 0 (b'k' ∷ []) (1 ∷ 2 ∷ 2 ∷ 2 ∷ 5 ∷ []) ≡ ok knows
decode_projection_body-encode_projection_body_example =
    decode_projection_body-encode_projection_body host knows (omega arith) (omega arith)

-- A transaction, one that is rolled back, one whose write fails in the record, and another one.
abbrev transactions : List Transaction
transactions =
    record { calls = calls; error = none; failure = none }
    ∷ record {
      calls = call_create_element ∷ [];
      error = some (catalog duplicate_name);
      failure = none;
    }
    ∷ record {
      calls = call_create_element ∷ [];
      error = none;
      failure = some (record { written = 50; error = io "append delta-log record" 28 });
    }
    ∷ record { calls = call_create_element ∷ []; error = none; failure = none }
    ∷ []

transactions-AreTransactions : AreTransactions is_ascii transactions
transactions-AreTransactions =
    let one : AreCalls is_ascii (call_create_element ∷ []) = (tt, tt) in
    (
      record { calls_valid = calls-AreCalls; calls_words = calls-AreWordCalls },
      (
        record { calls_valid = one; calls_words = one },
        (
          record { calls_valid = one; calls_words = one },
          (record { calls_valid = one; calls_words = one }, tt),
        ),
      ),
    )

abbrev final : Store OverlayIndex
final =
    write_all crc 2 overlay_index base transactions
      (fresh_store overlay_index initial_ids empty_catalog 7 3)

open_store-write_all_example :
    (txn : ℕ) × (txn ≤ final.last_transaction_id)
    × (open_store host is_ascii crc 2 overlay_index base initial_ids empty_catalog 7 3
          (final.log ++ (1 ∷ 2 ∷ []))
        ≡ some (ok (record final { last_transaction_id = txn })))
open_store-write_all_example =
    open_store-write_all host (omega arith) is_ascii crc crc-IsCrc 2 (omega arith) overlay_index
      base initial_ids empty_catalog 7 3 transactions (1 ∷ 2 ∷ []) (omega arith)
      transactions-AreTransactions (inl (omega arith))

abbrev postings : Map EqualityKey (List PropertySubject)
postings = ((1, integer (pos 5)), element_subject 1 ∷ []) ∷ []

abbrev found : Ordering → Option (Map ℕ PropertyValue)
found eq = some ((1, integer (pos 5)) ∷ [])
found lt = none
found gt = none

found_sorted : (o : Ordering) → IsSorted (or_default (found o))
found_sorted eq = (tt, tt)
found_sorted lt = tt
found_sorted gt = tt

base_sorted : (s : PropertySubject) → IsSorted (or_default (get s base.properties))
unfolding get
base_sorted s = found_sorted (subject_ord.cmp s (element_subject 1))

postings_exact :
    (subject : PropertySubject) (key : ℕ) (value : PropertyValue)
    → posted postings (key, value) subject ≡ value_is (base_property base subject key) value
unfolding get set_contains
postings_exact subject key value = ground (
  arith,
  equality_ord.eq_of_cmp (key, value) (1, integer (pos 5)),
  equality_ord.cmp_refl (1, integer (pos 5)),
  subject_ord.eq_of_cmp subject (element_subject 1),
  nat_ord.eq_of_cmp key 1,
  nat_ord.cmp_refl 1,
  eq_of_==value (integer (pos 5)) value,
  ==value_refl (integer (pos 5)),
)

property_equal-run_calls_example :
    let w = run_calls overlay_index base calls start in
    set_contains (element_subject 2) (property_equal postings 1 (integer (negsuc 0)) w.index)
    ≡ value_is (visible_property_in w.properties base (element_subject 2) 1) (integer (negsuc 0))
property_equal-run_calls_example =
    property_equal-run_calls postings base base_sorted postings_exact initial_ids empty_catalog
      calls (ground arith) (element_subject 2) 1 (integer (negsuc 0))
