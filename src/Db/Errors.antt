-- ===== src/Db/Errors.antt =====
-- crates/oxgraph-db/src/error.rs: the errors of the storage layer. An `io::Error` is the number
-- that stands for it.
use Prim.Native.String.{String}
use oxgraph.Prelude.{ℕ, List}

pub data StorageError : Type 0 where
  already_exists not_found : StorageError
  io : (operation : String) (source : ℕ) → StorageError
  invalid_store : (message : String) → StorageError
  unsupported_format : (found expected : ℕ) → StorageError
  log_corrupt : (lsn : ℕ) (reason : String) → StorageError
  base_generation_mismatch : (expected found : ℕ) → StorageError

-- The names of the id allocators.
pub data IdFamily : Type 0 where
  element_id relation_id incidence_id role_id label_id relation_type_id : IdFamily
  property_key_id projection_id index_id : IdFamily

pub data CatalogError : Type 0 where
  unknown_id : (family : IdFamily) (id : ℕ) → CatalogError
  unknown_name : (kind : String) (name : List ℕ) → CatalogError
  duplicate_name duplicate_id : CatalogError
  schema_conflict : (name : List ℕ) (reason : String) → CatalogError

pub data TxnError : Type 0 where
  writer_lock_held : TxnError
  id_overflow : (family : IdFamily) → TxnError
  transaction_id_overflow commit_seq_overflow : TxnError

-- `DbError` without the errors of queries.
pub data DbError : Type 0 where
  storage : (error : StorageError) → DbError
  catalog : (error : CatalogError) → DbError
  txn_error : (error : TxnError) → DbError
