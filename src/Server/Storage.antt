-- ===== src/Server/Storage.antt =====
-- The operations of server/src/storage/sqlite/mod.rs that write. Each runs in one transaction: what
-- fails before the commit leaves the tables as they were. The writer's lock makes each atomic. `now`
-- is the clock's reading. A failure of SQLite itself, on the disk or at a lock, is not modelled.
pub mod Effects
pub mod Stamps
pub mod Soundness
pub mod Deletions
pub mod Operations
pub mod Applied
pub mod Conforms
pub mod Rows
pub mod Touches
pub mod Marks
pub mod Moves
pub mod Orderly
pub mod Roots
use blaze_list.Prelude.{ℕ, suc, List, [], ◌∷◌, ◌++◌}
use blaze_list.Prelude.Result.{Result, ok, err, ◌>>=◌, ◌>>◌, map_err}
use blaze_list.Protocol.Types.{Uuid, Hash, DateTime}
use blaze_list.Protocol.Card.{Card}
use blaze_list.Protocol.Tag.{Tag}
use blaze_list.Protocol.Deleted.{DeletedEntity}
use blaze_list.Protocol.Messages.{PushError, PushItem}
use blaze_list.Server.Errors.{
  PushOpError, domain, push_of_sql, storage_of_sql, push_of_storage, StorageError, BatchError,
}
use blaze_list.Server.Db.{Db}
use blaze_list.Server.Write.{
  push_card_versions_inner, push_tag_versions_inner, delete_card_inner, delete_tag_inner,
  stamp_card_sequence, stamp_tag_sequence, stamp_delete_sequence,
}
use blaze_list.Server.Root.{recompute_root_for_ids}
use blaze_list.Server.Implications.{validate_batch_implications}

-- `tx.commit()` after a transaction that succeeds, and its rollback after one that fails.
abbrev pub commit {ℓ} : {E A : Type ℓ} → Db → Result E (Db × A) → Result E A × Db
commit db (ok (db', a)) = (ok a, db')
commit db (err e) = (err e, db)

-- The entities that a batch touches, by kind.
pub record Affected : Type 0 where
  pub card_ids : List Uuid
  pub tag_ids : List Uuid
  pub deleted_ids : List Uuid

abbrev pub none_affected : Affected
none_affected = record { card_ids = []; tag_ids = []; deleted_ids = [] }

abbrev pub first_card_id : List Card → List Uuid
first_card_id [] = []
first_card_id (v ∷ _) = v.id ∷ []

abbrev pub first_tag_id : List Tag → List Uuid
first_tag_id [] = []
first_tag_id (v ∷ _) = v.id ∷ []

unfoldable pub note_item : PushItem → Affected → Affected
note_item (PushItem.cards versions) a = record a { card_ids = a.card_ids ++ first_card_id versions }
note_item (PushItem.tags versions) a = record a { tag_ids = a.tag_ids ++ first_tag_id versions }
note_item (PushItem.delete_card id) a = record a { deleted_ids = a.deleted_ids ++ id ∷ [] }
note_item (PushItem.delete_tag id) a = record a { deleted_ids = a.deleted_ids ++ id ∷ [] }

-- The three loops that stamp the new sequence.
unfoldable pub stamp_each : (Db → Uuid → ℕ → Db) → List Uuid → ℕ → Db → Db
stamp_each stamp [] seq db = db
stamp_each stamp (id ∷ ids) seq db = stamp_each stamp ids seq (stamp db id seq)

unfoldable pub stamp_affected : Affected → ℕ → Db → Db
unfolding stamp_each
stamp_affected a seq db =
    stamp_each stamp_delete_sequence a.deleted_ids seq (
      stamp_each stamp_tag_sequence a.tag_ids seq
        (stamp_each stamp_card_sequence a.card_ids seq db))

abbrev pub batch_err : ℕ → PushOpError → BatchError
batch_err index error = record { index = index; error = error }

module _ (blake3 : List ℕ → Hash) where
  unfoldable pub push_item : Db → PushItem → Result PushOpError Db
  push_item db (PushItem.cards versions) = push_card_versions_inner blake3 db versions
  push_item db (PushItem.tags versions) = push_tag_versions_inner blake3 db versions
  push_item db (PushItem.delete_card id) =
      map_err push_of_storage (delete_card_inner blake3 db id) >>= λ r. ok r.0
  push_item db (PushItem.delete_tag id) =
      map_err push_of_storage (delete_tag_inner blake3 db id) >>= λ r. ok r.0

  -- The loop over the items, with the index of the first one that is left.
  unfoldable pub push_items : ℕ → List PushItem → Db → Affected → Result BatchError (Db × Affected)
  push_items index [] db a = ok (db, a)
  push_items index (item ∷ items) db a = map_err (batch_err index) (push_item db item) >>= λ db'.
      push_items (suc index) items db' (note_item item a)

  -- The root is recomputed once for all affected entities, and they get its sequence.
  unfoldable pub finish_batch : Db → Affected → DateTime → Result BatchError Db
  finish_batch db a now =
      map_err (λ e. batch_err 0 (push_of_sql e))
        (recompute_root_for_ids blake3 db (a.card_ids ++ (a.tag_ids ++ a.deleted_ids)) now)
      >>= λ r. ok (stamp_affected a r.1 r.0)

  unfoldable pub push_batch_tx : Db → List PushItem → DateTime → Result BatchError (Db × Unit {0})
  push_batch_tx db items now = do
    r ← push_items 0 items db none_affected
    map_err (batch_err 0) (validate_batch_implications r.0 items)
    db' ← finish_batch r.0 r.1 now
    ok (db', tt)

  unfoldable pub push_batch : Db → List PushItem → DateTime → Result BatchError (Unit {0}) × Db
  push_batch db [] now = (ok tt, db)
  push_batch db (item ∷ items) now = commit db (push_batch_tx db (item ∷ items) now)

  unfoldable pub push_card_versions_tx :
      Db → List Card → DateTime → Result PushOpError (Db × Unit {0})
  push_card_versions_tx db [] now = err (domain PushError.empty_chain)
  push_card_versions_tx db (first ∷ rest) now = do
    db1 ← push_card_versions_inner blake3 db (first ∷ rest)
    validate_batch_implications db1 (PushItem.cards (first ∷ rest) ∷ [])
    r ← map_err push_of_sql (recompute_root_for_ids blake3 db1 (first.id ∷ []) now)
    ok (stamp_card_sequence r.0 first.id r.1, tt)

  unfoldable pub push_card_versions : Db → List Card → DateTime → Result PushOpError (Unit {0}) × Db
  push_card_versions db versions now = commit db (push_card_versions_tx db versions now)

  unfoldable pub push_tag_versions_tx :
      Db → List Tag → DateTime → Result PushOpError (Db × Unit {0})
  push_tag_versions_tx db [] now = err (domain PushError.empty_chain)
  push_tag_versions_tx db (first ∷ rest) now = do
    db1 ← push_tag_versions_inner blake3 db (first ∷ rest)
    validate_batch_implications db1 (PushItem.tags (first ∷ rest) ∷ [])
    r ← map_err push_of_sql (recompute_root_for_ids blake3 db1 (first.id ∷ []) now)
    ok (stamp_tag_sequence r.0 first.id r.1, tt)

  unfoldable pub push_tag_versions : Db → List Tag → DateTime → Result PushOpError (Unit {0}) × Db
  push_tag_versions db versions now = commit db (push_tag_versions_tx db versions now)

  unfoldable pub delete_card_tx : Db → Uuid → DateTime → Result StorageError (Db × DeletedEntity)
  delete_card_tx db id now = do
    d ← delete_card_inner blake3 db id
    r ← map_err storage_of_sql (recompute_root_for_ids blake3 d.0 (id ∷ []) now)
    ok (stamp_delete_sequence r.0 id r.1, d.1)

  unfoldable pub delete_card : Db → Uuid → DateTime → Result StorageError DeletedEntity × Db
  delete_card db id now = commit db (delete_card_tx db id now)

  unfoldable pub delete_tag_tx : Db → Uuid → DateTime → Result StorageError (Db × DeletedEntity)
  delete_tag_tx db id now = do
    d ← delete_tag_inner blake3 db id
    r ← map_err storage_of_sql (recompute_root_for_ids blake3 d.0 (id ∷ []) now)
    ok (stamp_delete_sequence r.0 id r.1, d.1)

  unfoldable pub delete_tag : Db → Uuid → DateTime → Result StorageError DeletedEntity × Db
  delete_tag db id now = commit db (delete_tag_tx db id now)
