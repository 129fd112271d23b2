-- ===== src/Server/Handler/Atomic.antt =====
-- When a request of server/src/handler.rs leaves the tables alone.
use blaze_list.Prelude.{◌≤◌, ℕ, ◌≡◌, refl, false, List, [], ◌∷◌, arith}
use blaze_list.Prelude.Result.{Result, ok, err}
use blaze_list.Protocol.Types.{Hash, DateTime}
use blaze_list.Protocol.Messages.{Request, Response, ProtocolError, is_mutation}
use blaze_list.Server.Errors.{PushOpError, StorageError, BatchError}
use blaze_list.Server.Db.{Db}
use blaze_list.Server.Reads.{get_root}
use blaze_list.Server.Root.History.{read_root_state_lem}
use blaze_list.Server.Storage.Roots.{
  push_batch_tx-Advances, push_card_versions_tx-Advances, push_tag_versions_tx-Advances,
}
use blaze_list.Server.Storage.{
  commit, push_batch, push_batch_tx, push_card_versions, push_tag_versions, delete_card, delete_tag,
  push_card_versions_tx, push_tag_versions_tx, delete_card_tx, delete_tag_tx,
}
use blaze_list.Server.Handler.{handle_request, respond, respond_push, respond_batch}

-- A committed push whose root reads back answers with it, so an error means that it was rolled back.
respond_push-commit :
    (db : Db) (r : Result PushOpError (Db × Unit {0})) (e : ProtocolError)
    → ((x : Db × Unit {0}) → r ≡ ok x → x.0.root_sequence ≤ 9223372036854775807)
    → (respond_push (commit db r)).0 ≡ Response.error e
    → (respond_push (commit db r)).1 ≡ db
unfolding get_root
respond_push-commit db (ok (db', u)) e i h =
    absurd (cc (rw (read_root_state_lem db' (i (db', u) refl)) at h))
respond_push-commit db (err x) e i h = refl

respond_batch-commit :
    (db : Db) (r : Result BatchError (Db × Unit {0})) (e : ProtocolError)
    → ((x : Db × Unit {0}) → r ≡ ok x → x.0.root_sequence ≤ 9223372036854775807)
    → (respond_batch (commit db r)).0 ≡ Response.error e
    → (respond_batch (commit db r)).1 ≡ db
unfolding get_root
respond_batch-commit db (ok (db', u)) e i h =
    absurd (cc (rw (read_root_state_lem db' (i (db', u) refl)) at h))
respond_batch-commit db (err x) e i h = refl

respond_deleted-commit :
    (db : Db) (r : Result StorageError _) (e : ProtocolError)
    → respond Response.deleted (commit db r).0 ≡ Response.error e
    → (commit db r).1 ≡ db
respond_deleted-commit db (ok (db', d)) e h = ground arith
respond_deleted-commit db (err x) e h = refl

module _ (blake3 : List ℕ → Hash) (db : Db) where
  -- A request that is not a mutation leaves the tables as they were.
  pub handle_request_read :
      (req : Request) (now : DateTime)
      → is_mutation req ≡ false
      → (handle_request blake3 db req now).1 ≡ db
  unfolding handle_request is_mutation
  handle_request_read req now h = ground arith

  -- A request that is answered with an error leaves the tables as they were.
  pub handle_request_error :
      (req : Request) (now : DateTime) (e : ProtocolError)
      → (handle_request blake3 db req now).0 ≡ Response.error e
      → (handle_request blake3 db req now).1 ≡ db
  unfolding handle_request push_batch push_card_versions push_tag_versions delete_card delete_tag
  handle_request_error (Request.push_card_versions versions) now e h =
      respond_push-commit db (push_card_versions_tx blake3 db versions now) e
        (λ r m. (push_card_versions_tx-Advances blake3 db versions now r m).in_range) h
  handle_request_error (Request.push_tag_versions versions) now e h =
      respond_push-commit db (push_tag_versions_tx blake3 db versions now) e
        (λ r m. (push_tag_versions_tx-Advances blake3 db versions now r m).in_range) h
  handle_request_error (Request.delete_card id) now e h =
      respond_deleted-commit db (delete_card_tx blake3 db id now) e h
  handle_request_error (Request.delete_tag id) now e h =
      respond_deleted-commit db (delete_tag_tx blake3 db id now) e h
  handle_request_error (Request.push_batch []) now e h = refl
  handle_request_error (Request.push_batch (i ∷ is)) now e h =
      respond_batch-commit db (push_batch_tx blake3 db (i ∷ is) now) e
        (λ r m. (push_batch_tx-Advances blake3 db (i ∷ is) now r m).in_range) h
  handle_request_error req now e h = refl
