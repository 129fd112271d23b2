-- ===== src/Server/Handler.antt =====
-- server/src/handler.rs: requests to storage operations, and errors to protocol errors.
pub mod Atomic
pub mod Valid
pub mod Sequence
use blaze_list.Prelude.{ℕ, ◌%◌, ◌^◌, Option, none, some, List}
use blaze_list.Prelude.Result.{Result, ok, err}
use blaze_list.Protocol.Types.{Hash, DateTime}
use blaze_list.Protocol.Messages.{Request, Response, ProtocolError, PushError, BatchItemError}
use blaze_list.Server.Errors.{PushOpError, StorageError, BatchError}
use blaze_list.Server.Db.{Db}
use blaze_list.Server.Storage.{
  push_batch, push_card_versions, push_tag_versions, delete_card, delete_tag,
}
use blaze_list.Server.Reads.{
  get_card, get_tag, get_card_history, get_tag_history, list_cards, list_tags, get_root,
  get_changes_since, get_all_card_histories, get_all_tag_histories,
}
use blaze_list.Server.History.{get_sequence_history}

unfoldable pub push_op_error_to_protocol : PushOpError → ProtocolError
push_op_error_to_protocol (PushOpError.domain push_err) = ProtocolError.push_failed push_err
push_op_error_to_protocol PushOpError.internal = ProtocolError.internal

unfoldable pub storage_error_to_protocol : StorageError → ProtocolError
storage_error_to_protocol StorageError.not_found = ProtocolError.not_found
storage_error_to_protocol StorageError.already_deleted = ProtocolError.already_deleted
storage_error_to_protocol (StorageError.orphaned_tag_reference tag_id ids) =
    ProtocolError.push_failed (PushError.orphaned_tag_reference tag_id ids)
storage_error_to_protocol (StorageError.orphaned_tag_implies_reference tag_id ids) =
    ProtocolError.push_failed (PushError.orphaned_tag_implies_reference tag_id ids)
storage_error_to_protocol (StorageError.root_hash_mismatch sequence expected_hash) =
    ProtocolError.root_hash_mismatch sequence expected_hash
storage_error_to_protocol StorageError.internal = ProtocolError.internal
storage_error_to_protocol (StorageError.incompatible_version _ _) = ProtocolError.internal
storage_error_to_protocol (StorageError.migration_not_implemented _ _) = ProtocolError.internal

unfoldable pub batch_item_error : PushOpError → BatchItemError
batch_item_error (PushOpError.domain push_err) = BatchItemError.push push_err
batch_item_error PushOpError.internal = BatchItemError.internal

unfoldable pub batch_error_to_protocol : BatchError → ProtocolError
unfolding batch_item_error
batch_error_to_protocol e = ProtocolError.batch_failed (e.index % 2 ^ 32) (batch_item_error e.error)

-- The reply to a read, to a push, to a batch and to a deletion.
abbrev pub respond {ℓ} : {A : Type ℓ} → (A → Response) → Result StorageError A → Response
respond f (ok a) = f a
respond f (err e) = Response.error (storage_error_to_protocol e)

abbrev pub respond_found {ℓ} :
    {A : Type ℓ} → (A → Response) → Result StorageError (Option A) → Response
respond_found f (ok (some a)) = f a
respond_found f (ok none) = Response.error ProtocolError.not_found
respond_found f (err e) = Response.error (storage_error_to_protocol e)

abbrev pub respond_push : Result PushOpError (Unit {0}) × Db → Response × Db
respond_push (ok _, db) = (respond Response.root (get_root db), db)
respond_push (err e, db) = (Response.error (push_op_error_to_protocol e), db)

abbrev pub respond_batch : Result BatchError (Unit {0}) × Db → Response × Db
respond_batch (ok _, db) = (respond Response.root (get_root db), db)
respond_batch (err e, db) = (Response.error (batch_error_to_protocol e), db)

module _ (blake3 : List ℕ → Hash) where
  unfoldable pub handle_request : Db → Request → DateTime → Response × Db
  handle_request db (Request.push_card_versions versions) now =
      respond_push (push_card_versions blake3 db versions now)
  handle_request db (Request.get_card id) now =
      (respond_found Response.card (get_card blake3 db id), db)
  handle_request db (Request.get_card_history id limit) now =
      (respond Response.card_history (get_card_history blake3 db id limit), db)
  handle_request db (Request.list_cards filter limit) now =
      (respond Response.cards (list_cards blake3 db filter limit), db)
  handle_request db (Request.delete_card id) now =
      let (r, db') = delete_card blake3 db id now in (respond Response.deleted r, db')
  handle_request db (Request.push_tag_versions versions) now =
      respond_push (push_tag_versions blake3 db versions now)
  handle_request db (Request.get_tag id) now =
      (respond_found Response.tag (get_tag blake3 db id), db)
  handle_request db Request.list_tags now = (respond Response.tags (list_tags blake3 db), db)
  handle_request db (Request.delete_tag id) now =
      let (r, db') = delete_tag blake3 db id now in (respond Response.deleted r, db')
  handle_request db Request.get_root now = (respond Response.root (get_root db), db)
  handle_request db (Request.get_changes_since sequence root_hash) now =
      (respond Response.changes (get_changes_since blake3 db sequence root_hash), db)
  handle_request db (Request.push_batch items) now = respond_batch (push_batch blake3 db items now)
  handle_request db Request.subscribe now = (Response.error ProtocolError.unsupported_request, db)
  handle_request db (Request.get_tag_history id limit) now =
      (respond Response.tag_history (get_tag_history blake3 db id limit), db)
  handle_request db (Request.get_sequence_history after_sequence limit) now =
      (respond Response.sequence_history (get_sequence_history db after_sequence limit), db)
  handle_request db (Request.get_all_card_histories limit_per_card card_ids) now = (
    respond Response.all_card_histories (get_all_card_histories blake3 db limit_per_card card_ids),
    db,
  )
  handle_request db (Request.get_all_tag_histories limit_per_tag tag_ids) now = (
    respond Response.all_tag_histories (get_all_tag_histories blake3 db limit_per_tag tag_ids),
    db,
  )
