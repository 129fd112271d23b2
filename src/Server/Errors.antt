-- ===== src/Server/Errors.antt =====
-- server/src/storage/error.rs. The text of an internal error is left out.
use blaze_list.Prelude.{ℕ, List}
use blaze_list.Protocol.Types.{Uuid, Hash}
use blaze_list.Protocol.NonNegative.{NonNegativeI64}
use blaze_list.Protocol.Version.{Version}
use blaze_list.Protocol.Messages.{PushError}

-- rusqlite::Error
pub data SqlError : Type 0 where
  sql_error : SqlError

pub data PushOpError : Type 0 where
  domain : PushError → PushOpError
  internal : PushOpError

pub record BatchError : Type 0 where
  pub index : ℕ
  pub error : PushOpError

pub data StorageError : Type 0 where
  not_found : StorageError
  already_deleted : StorageError
  orphaned_tag_reference : Uuid → List Uuid → StorageError
  orphaned_tag_implies_reference : Uuid → List Uuid → StorageError
  root_hash_mismatch : NonNegativeI64 → Hash → StorageError
  incompatible_version : Version → Version → StorageError
  migration_not_implemented : Version → Version → StorageError
  internal : StorageError

-- From<rusqlite::Error>
abbrev pub push_of_sql : SqlError → PushOpError
push_of_sql sql_error = PushOpError.internal

abbrev pub storage_of_sql : SqlError → StorageError
storage_of_sql sql_error = StorageError.internal

-- From<StorageError> for PushOpError
unfoldable pub push_of_storage : StorageError → PushOpError
push_of_storage StorageError.already_deleted = PushOpError.domain PushError.already_deleted
push_of_storage (StorageError.orphaned_tag_reference tag_id referencing_card_ids) =
    PushOpError.domain (PushError.orphaned_tag_reference tag_id referencing_card_ids)
push_of_storage (StorageError.orphaned_tag_implies_reference tag_id referencing_tag_ids) =
    PushOpError.domain (PushError.orphaned_tag_implies_reference tag_id referencing_tag_ids)
push_of_storage _ = PushOpError.internal
