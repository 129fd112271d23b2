-- ===== src/Server/Storage/Applied.antt =====
-- The common form of the writing operations of server/src/storage/sqlite/mod.rs: items are applied
-- one by one, the root is recomputed once, and its number is stamped on what the items named.
use blaze_list.Prelude.{ℕ, ◌≡◌, ◌∙◌, ap, List, [], ◌∷◌, ◌++◌, arith}
use blaze_list.Prelude.Result.{ok, map_err, >>=-ok, >>-ok, map_err-ok, ok-inj}
use blaze_list.Protocol.Types.{Uuid, Hash, DateTime}
use blaze_list.Protocol.Card.{Card}
use blaze_list.Protocol.Tag.{Tag}
use blaze_list.Protocol.Deleted.{DeletedEntity}
use blaze_list.Protocol.Messages.{PushItem}
use blaze_list.Server.Errors.{push_of_sql, storage_of_sql}
use blaze_list.Server.Db.{Db}
use blaze_list.Server.Root.{recompute_root_for_ids}
use blaze_list.Server.Implications.{validate_batch_implications}
use blaze_list.Server.Write.{
  push_card_versions_inner, push_tag_versions_inner, delete_card_inner, delete_tag_inner,
}
use blaze_list.Server.Storage.{
  Affected, none_affected, batch_err, push_item, push_items, note_item, finish_batch,
  stamp_affected, push_batch_tx, push_card_versions_tx, push_tag_versions_tx, delete_card_tx,
  delete_tag_tx,
}

abbrev pub ids_of : Affected → List Uuid
ids_of a = a.card_ids ++ (a.tag_ids ++ a.deleted_ids)

module _ (blake3 : List ℕ → Hash) where
  pub record Applied (db : Db) (items : List PushItem) (now : DateTime) (db' : Db) : Type 0 where
    pub written : Db
    pub affected : Affected
    pub rooted : Db × ℕ
    pub pushed : push_items blake3 0 items db none_affected ≡ ok (written, affected)
    pub root : recompute_root_for_ids blake3 written (ids_of affected) now ≡ ok rooted
    pub result : stamp_affected affected rooted.1 rooted.0 ≡ db'

  pub push_batch_tx-Applied :
      (db : Db) (items : List PushItem) (now : DateTime) (r : Db × Unit {0})
      → push_batch_tx blake3 db items now ≡ ok r
      → Applied db items now r.0
  unfolding push_batch_tx finish_batch
  push_batch_tx-Applied db items now r h =
      let ((db1, a), h1, h2) = >>=-ok (push_items blake3 0 items db none_affected) _ h in
      let (_, h4) = >>-ok (map_err (batch_err 0) (validate_batch_implications db1 items)) _ h2 in
      let (db2, h5, h6) = >>=-ok (finish_batch blake3 db1 a now) _ h4 in
      let root = recompute_root_for_ids blake3 db1 (ids_of a) now in
      let (s, h7, h8) = >>=-ok (map_err (λ e. batch_err 0 (push_of_sql e)) root) _ h5 in
      record {
        written = db1;
        affected = a;
        rooted = s;
        pushed = h1;
        root = map_err-ok (λ e. batch_err 0 (push_of_sql e)) root h7;
        result = ok-inj h8 ∙ ap (λ (x : Db × Unit {0}). x.0) (ok-inj h6);
      }

  -- One item is a batch of one.
  push_items_one :
      (db db' : Db) (item : PushItem)
      → push_item blake3 db item ≡ ok db'
      → push_items blake3 0 (item ∷ []) db none_affected ≡ ok (db', note_item item none_affected)
  unfolding push_items
  push_items_one db db' item h = ground arith

  pub push_card_versions_tx-Applied :
      (db : Db) (versions : List Card) (now : DateTime) (r : Db × Unit {0})
      → push_card_versions_tx blake3 db versions now ≡ ok r
      → Applied db (PushItem.cards versions ∷ []) now r.0
  unfolding push_card_versions_tx note_item push_item stamp_affected
  push_card_versions_tx-Applied db [] now r h = cc
  push_card_versions_tx-Applied db (first ∷ rest) now r h =
      let item = PushItem.cards (first ∷ rest) in
      let (db1, h1, h2) = >>=-ok (push_card_versions_inner blake3 db (first ∷ rest)) _ h in
      let (_, h4) = >>-ok (validate_batch_implications db1 (item ∷ [])) _ h2 in
      let root = recompute_root_for_ids blake3 db1 (first.id ∷ []) now in
      let (s, h5, h6) = >>=-ok (map_err push_of_sql root) _ h4 in
      record {
        written = db1;
        affected = note_item item none_affected;
        rooted = s;
        pushed = push_items_one db db1 item h1;
        root = map_err-ok push_of_sql root h5;
        result = ap (λ (x : Db × Unit {0}). x.0) (ok-inj h6);
      }

  pub delete_card_tx-Applied :
      (db : Db) (id : Uuid) (now : DateTime) (r : Db × DeletedEntity)
      → delete_card_tx blake3 db id now ≡ ok r
      → Applied db (PushItem.delete_card id ∷ []) now r.0
  unfolding delete_card_tx note_item push_item stamp_affected
  delete_card_tx-Applied db id now r h =
      let item = PushItem.delete_card id in
      let (d, h1, h2) = >>=-ok (delete_card_inner blake3 db id) _ h in
      let root = recompute_root_for_ids blake3 d.0 (id ∷ []) now in
      let (s, h3, h4) = >>=-ok (map_err storage_of_sql root) _ h2 in
      record {
        written = d.0;
        affected = note_item item none_affected;
        rooted = s;
        pushed = push_items_one db d.0 item (ground (arith, h1));
        root = map_err-ok storage_of_sql root h3;
        result = ap (λ (x : Db × DeletedEntity). x.0) (ok-inj h4);
      }

  pub push_tag_versions_tx-Applied :
      (db : Db) (versions : List Tag) (now : DateTime) (r : Db × Unit {0})
      → push_tag_versions_tx blake3 db versions now ≡ ok r
      → Applied db (PushItem.tags versions ∷ []) now r.0
  unfolding push_tag_versions_tx note_item push_item stamp_affected
  push_tag_versions_tx-Applied db [] now r h = cc
  push_tag_versions_tx-Applied db (first ∷ rest) now r h =
      let item = PushItem.tags (first ∷ rest) in
      let (db1, h1, h2) = >>=-ok (push_tag_versions_inner blake3 db (first ∷ rest)) _ h in
      let (_, h4) = >>-ok (validate_batch_implications db1 (item ∷ [])) _ h2 in
      let root = recompute_root_for_ids blake3 db1 (first.id ∷ []) now in
      let (s, h5, h6) = >>=-ok (map_err push_of_sql root) _ h4 in
      record {
        written = db1;
        affected = note_item item none_affected;
        rooted = s;
        pushed = push_items_one db db1 item h1;
        root = map_err-ok push_of_sql root h5;
        result = ap (λ (x : Db × Unit {0}). x.0) (ok-inj h6);
      }

  pub delete_tag_tx-Applied :
      (db : Db) (id : Uuid) (now : DateTime) (r : Db × DeletedEntity)
      → delete_tag_tx blake3 db id now ≡ ok r
      → Applied db (PushItem.delete_tag id ∷ []) now r.0
  unfolding delete_tag_tx note_item push_item stamp_affected
  delete_tag_tx-Applied db id now r h =
      let item = PushItem.delete_tag id in
      let (d, h1, h2) = >>=-ok (delete_tag_inner blake3 db id) _ h in
      let root = recompute_root_for_ids blake3 d.0 (id ∷ []) now in
      let (s, h3, h4) = >>=-ok (map_err storage_of_sql root) _ h2 in
      record {
        written = d.0;
        affected = note_item item none_affected;
        rooted = s;
        pushed = push_items_one db d.0 item (ground (arith, h1));
        root = map_err-ok storage_of_sql root h3;
        result = ap (λ (x : Db × DeletedEntity). x.0) (ok-inj h4);
      }
