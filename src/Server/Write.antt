-- ===== src/Server/Write.antt =====
-- server/src/storage/sqlite/write.rs: the writes inside a transaction. A chain of versions is its
-- first version and the rest, once it is known not to be empty.
use blaze_list.Prelude.{
  ℕ, Bool, true, false, not, Option, none, some, List, [], ◌∷◌, ◌++◌, filter, find, any, all, map,
  last_or, contains, ◌==◌, ◌&&◌, if◌then◌else◌,
}
use blaze_list.Prelude.Int.{eqb_ℤ}
use blaze_list.Prelude.Result.{Result, ok, err, ◌>>=◌, ◌>>◌, fail_if, map_err}
use blaze_list.Protocol.Types.{Uuid, Hash, zero_hash}
use blaze_list.Protocol.Entity.{Entity, verify}
use blaze_list.Protocol.Card.{Card, card_entity}
use blaze_list.Protocol.Tag.{Tag, tag_entity}
use blaze_list.Protocol.Deleted.{DeletedEntity, new_deleted}
use blaze_list.Protocol.Messages.{PushError}
use blaze_list.Server.Errors.{PushOpError, domain, push_of_sql, StorageError}
use blaze_list.Server.Table.{select, delete, replace, update}
use blaze_list.Server.Db.{
  Db, CardRow, TagRow, CardVersionRow, TagVersionRow, card_key, tag_key, deleted_key, bucket_of,
  is_deleted, card_from_row, tag_from_row,
}

-- `versions.windows(2)`: each version names the hash of the one before it.
unfoldable pub linked : {A : Type 0} → Entity A → A → List A → Bool
linked e v [] = true
linked e v (w ∷ ws) = e.ancestor_hash w == e.hash v && linked e w ws

-- The rows of one version table have distinct pairs of identifier and count.
unfoldable pub has_card_version : Card → List CardVersionRow → Bool
has_card_version v = any (λ r. r.version.id == v.id && r.version.count.value == v.count.value)

unfoldable pub has_tag_version : Tag → List TagVersionRow → Bool
has_tag_version v = any (λ r. r.version.id == v.id && r.version.count.value == v.count.value)

-- `INSERT INTO card_versions` for each version; a primary key that is taken is an SQL error.
unfoldable pub insert_card_versions :
    List Card → List CardVersionRow → Result PushOpError (List CardVersionRow)
insert_card_versions [] rows = ok rows
insert_card_versions (v ∷ vs) rows =
    let rest =
      insert_card_versions vs (rows ++ record { version = v; root_sequence_at = 0 } ∷ []) in
    if has_card_version v rows then err PushOpError.internal else rest

unfoldable pub insert_tag_versions :
    List Tag → List TagVersionRow → Result PushOpError (List TagVersionRow)
insert_tag_versions [] rows = ok rows
insert_tag_versions (v ∷ vs) rows =
    let rest = insert_tag_versions vs (rows ++ record { version = v; root_sequence_at = 0 } ∷ []) in
    if has_tag_version v rows then err PushOpError.internal else rest

-- `SELECT id, priority FROM cards WHERE priority = ? AND id != ? LIMIT 1`
unfoldable pub priority_holder : Db → Card → Option CardRow
priority_holder db latest =
    find (λ r. eqb_ℤ r.card.priority latest.priority && not (r.card.id == latest.id)) db.cards

abbrev pub check_priority : Option CardRow → Result PushOpError (Unit {0})
check_priority none = ok tt
check_priority (some r) = err (domain (PushError.duplicate_priority r.card.id r.card.priority))

-- `INSERT OR REPLACE INTO cards`
unfoldable pub put_card : Db → Card → Db
put_card db latest = record db {
  cards =
      replace card_key
        (record { card = latest; root_sequence_at = 0; bucket = bucket_of latest.id }) db.cards;
}

-- `INSERT OR REPLACE INTO tags`
unfoldable pub put_tag : Db → Tag → Db
put_tag db latest = record db {
  tags =
      replace tag_key (record { tag = latest; root_sequence_at = 0; bucket = bucket_of latest.id })
        db.tags;
}

abbrev pub present : {A : Type 0} → Option A → Bool
present none = false
present (some _) = true

-- The cards that hold a tag, and the other tags that imply it.
unfoldable pub referencing_cards : Db → Uuid → List Uuid
referencing_cards db id = map (λ r. r.card.id) (filter (λ r. contains r.card.tags id) db.cards)

unfoldable pub referencing_tags : Db → Uuid → List Uuid
referencing_tags db id =
    map (λ r. r.tag.id) (filter (λ r. not (r.tag.id == id) && contains r.tag.implies id) db.tags)

abbrev pub is_nil : {A : Type 0} → List A → Bool
is_nil [] = true
is_nil (_ ∷ _) = false

module _ (blake3 : List ℕ → Hash) where
  -- The ancestor of the first version must be the live version, or nothing where there is none.
  unfoldable pub check_card_ancestor : Option CardRow → Card → Result PushOpError (Unit {0})
  check_card_ancestor none first =
      fail_if (not (first.ancestor_hash == zero_hash)) (domain PushError.hash_verification_failed)
  check_card_ancestor (some row) first = if first.ancestor_hash == row.card.hash then ok tt else (do
    latest ← map_err push_of_sql (card_from_row blake3 row.card)
    err (domain (PushError.card_ancestor_mismatch latest)))

  unfoldable pub check_tag_ancestor : Option TagRow → Tag → Result PushOpError (Unit {0})
  check_tag_ancestor none first =
      fail_if (not (first.ancestor_hash == zero_hash)) (domain PushError.hash_verification_failed)
  check_tag_ancestor (some row) first = if first.ancestor_hash == row.tag.hash then ok tt else (do
    latest ← map_err push_of_sql (tag_from_row blake3 row.tag)
    err (domain (PushError.tag_ancestor_mismatch latest)))

  unfoldable pub push_card_chain : Db → Card → List Card → Result PushOpError Db
  push_card_chain db first rest = do
    fail_if (not (all (verify (card_entity blake3)) (first ∷ rest)))
        (domain PushError.hash_verification_failed)
    fail_if (is_deleted db first.id) (domain PushError.already_deleted)
    check_card_ancestor (select card_key first.id db.cards) first
    fail_if (not (linked (card_entity blake3) first rest))
        (domain PushError.hash_verification_failed)
    versions ← insert_card_versions (first ∷ rest) db.card_versions
    check_priority (priority_holder db (last_or first rest))
    ok (put_card (record db { card_versions = versions }) (last_or first rest))

  unfoldable pub push_card_versions_inner : Db → List Card → Result PushOpError Db
  push_card_versions_inner db [] = err (domain PushError.empty_chain)
  push_card_versions_inner db (first ∷ rest) = push_card_chain db first rest

  unfoldable pub push_tag_chain : Db → Tag → List Tag → Result PushOpError Db
  push_tag_chain db first rest = do
    fail_if (not (all (verify (tag_entity blake3)) (first ∷ rest)))
        (domain PushError.hash_verification_failed)
    fail_if (is_deleted db first.id) (domain PushError.already_deleted)
    check_tag_ancestor (select tag_key first.id db.tags) first
    fail_if (not (linked (tag_entity blake3) first rest))
        (domain PushError.hash_verification_failed)
    versions ← insert_tag_versions (first ∷ rest) db.tag_versions
    ok (put_tag (record db { tag_versions = versions }) (last_or first rest))

  unfoldable pub push_tag_versions_inner : Db → List Tag → Result PushOpError Db
  push_tag_versions_inner db [] = err (domain PushError.empty_chain)
  push_tag_versions_inner db (first ∷ rest) = push_tag_chain db first rest

  -- `INSERT OR REPLACE INTO deleted_entities`
  unfoldable pub put_deleted : Db → Uuid → Db
  put_deleted db id = record db {
    deleted_entities =
        replace deleted_key
          (record { entity = new_deleted blake3 id; root_sequence_at = 0; bucket = bucket_of id })
          db.deleted_entities;
  }

  unfoldable pub delete_card_inner : Db → Uuid → Result StorageError (Db × DeletedEntity)
  delete_card_inner db id = do
    fail_if (is_deleted db id) StorageError.already_deleted
    fail_if (not (present (select card_key id db.cards))) StorageError.not_found
    ok (
      put_deleted
          (record db {
            card_versions = filter (λ r. not (r.version.id == id)) db.card_versions;
            cards = delete card_key id db.cards;
          })
          id,
      new_deleted blake3 id,
    )

  unfoldable pub delete_tag_inner : Db → Uuid → Result StorageError (Db × DeletedEntity)
  delete_tag_inner db id = do
    fail_if (is_deleted db id) StorageError.already_deleted
    fail_if (not (present (select tag_key id db.tags))) StorageError.not_found
    fail_if (not (is_nil (referencing_cards db id)))
        (StorageError.orphaned_tag_reference id (referencing_cards db id))
    fail_if (not (is_nil (referencing_tags db id)))
        (StorageError.orphaned_tag_implies_reference id (referencing_tags db id))
    ok (
      put_deleted
          (record db {
            tag_versions = filter (λ r. not (r.version.id == id)) db.tag_versions;
            tags = delete tag_key id db.tags;
          })
          id,
      new_deleted blake3 id,
    )

-- The sequence goes on the live row and on the version rows that have none yet.
unfoldable pub stamp_card_sequence : Db → Uuid → ℕ → Db
stamp_card_sequence db id sequence = record db {
  cards = update card_key id (λ r. record r { root_sequence_at = sequence }) db.cards;
  card_versions =
      map
        (λ r.
          if r.version.id == id && r.root_sequence_at == 0
          then record r { root_sequence_at = sequence }
          else r)
        db.card_versions;
}

unfoldable pub stamp_tag_sequence : Db → Uuid → ℕ → Db
stamp_tag_sequence db id sequence = record db {
  tags = update tag_key id (λ r. record r { root_sequence_at = sequence }) db.tags;
  tag_versions =
      map
        (λ r.
          if r.version.id == id && r.root_sequence_at == 0
          then record r { root_sequence_at = sequence }
          else r)
        db.tag_versions;
}

unfoldable pub stamp_delete_sequence : Db → Uuid → ℕ → Db
stamp_delete_sequence db id sequence = record db {
  deleted_entities =
      update deleted_key id (λ r. record r { root_sequence_at = sequence }) db.deleted_entities;
}
