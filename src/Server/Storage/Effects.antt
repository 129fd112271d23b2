-- ===== src/Server/Storage/Effects.antt =====
-- What the row operations of server/src/storage/sqlite/write.rs do to the live entities, seen
-- through their keys, and that they keep the keys.
use blaze_list.Prelude.{
  all, not, subst, ap, suc, map, ℕ, ◌≡◌, refl, ◌∙◌, Option, none, some, List, [], ◌∷◌, arith,
  last_or,
}
use blaze_list.Prelude.Result.{ok, >>=-ok, >>-ok, map_err-ok, ok-inj, fail_if, map_err}
use blaze_list.Protocol.Types.{Uuid, Hash}
use blaze_list.Protocol.Entity.{verify}
use blaze_list.Server.Errors.{push_of_storage}
use blaze_list.Protocol.Card.{Card, card_entity}
use blaze_list.Protocol.Tag.{Tag, tag_entity}
use blaze_list.Protocol.Deleted.{DeletedEntity}
use blaze_list.Protocol.Messages.{PushItem}
use blaze_list.Server.Table.{select, select-replace, select-delete}
use blaze_list.Server.Table.Keys.{replace-IsTable, delete-IsTable}
use blaze_list.Server.Db.{
  Db, CardRow, TagRow, card_key, tag_key, deleted_key, bucket_of, is_deleted,
}
use blaze_list.Server.Live.{tag_live, card_live, IsKeyed, row_priority, root_columns}
use blaze_list.Server.Table.Distinct.{replace-IsDistinct, delete-IsDistinct}
use blaze_list.Server.Implications.Overlay.{after, after_all, tag_effect, card_effect}
use blaze_list.Server.Write.{
  push_card_chain, push_tag_chain, push_card_versions_inner, push_tag_versions_inner, put_card,
  put_tag, put_deleted, delete_card_inner, delete_tag_inner, check_card_ancestor,
  check_tag_ancestor, linked, insert_card_versions, insert_tag_versions, check_priority,
  priority_holder, present, is_nil, referencing_cards, referencing_tags,
}
use blaze_list.Server.Storage.{push_item, push_items, note_item, Affected, batch_err}

-- The live entities after one write for each kind, from keyed tables to keyed tables, at the same
-- root.
pub record Writes (tag card : Uuid → Option (List Uuid) → Option (List Uuid)) (db db' : Db)
    : Type 0 where
  pub tags : (j : Uuid) → tag_live db' j ≡ tag j (tag_live db j)
  pub cards : (j : Uuid) → card_live db' j ≡ card j (card_live db j)
  pub keyed : IsKeyed db → IsKeyed db'
  pub root : root_columns db' ≡ root_columns db

check_priority-ok : (o : Option CardRow) → check_priority o ≡ ok tt → o ≡ none
check_priority-ok none h = refl
check_priority-ok (some r) h = absurd (ground arith)

module _ (blake3 : List ℕ → Hash) where
  put_card-Writes :
      (db : Db) (versions : List _) (latest : Card)
      → priority_holder db latest ≡ none
      → Writes
          (λ j o. o)
          (after (some (latest.id, some latest.tags)))
          db
          (put_card (record db { card_versions = versions }) latest)
  unfolding put_card priority_holder
  put_card-Writes db versions latest free =
      let row : CardRow = record {
        card = latest;
        root_sequence_at = 0;
        bucket = bucket_of latest.id;
      } in
      record {
        tags = λ j. refl;
        cards = λ j. ground (arith, select-replace card_key j row db.cards);
        root = refl;
        keyed = λ k. record {
          card_rows = replace-IsTable card_key row db.cards k.card_rows;
          tag_rows = k.tag_rows;
          deleted_rows = k.deleted_rows;
          priorities = replace-IsDistinct card_key row_priority row db.cards free k.priorities;
        };
      }

  put_tag-Writes :
      (db : Db) (versions : List _) (latest : Tag)
      → Writes
          (after (some (latest.id, some latest.implies)))
          (λ j o. o)
          db
          (put_tag (record db { tag_versions = versions }) latest)
  unfolding put_tag
  put_tag-Writes db versions latest =
      let row : TagRow = record {
        tag = latest;
        root_sequence_at = 0;
        bucket = bucket_of latest.id;
      } in
      record {
        tags = λ j. ground (arith, select-replace tag_key j row db.tags);
        cards = λ j. refl;
        root = refl;
        keyed = λ k. record {
          card_rows = k.card_rows;
          tag_rows = replace-IsTable tag_key row db.tags k.tag_rows;
          deleted_rows = k.deleted_rows;
          priorities = k.priorities;
        };
      }

  -- A pushed chain writes its last version.
  push_card_chain-Writes :
      (db : Db) (first : Card) (rest : List Card) {db' : Db}
      → push_card_chain blake3 db first rest ≡ ok db'
      → Writes
          (λ j o. o)
          (after (some ((last_or first rest).id, some (last_or first rest).tags)))
          db
          db'
  unfolding push_card_chain
  push_card_chain-Writes db first rest h =
      let (_, h1) =
        >>-ok (fail_if (not (all (verify (card_entity blake3)) (first ∷ rest))) _) _ h in
      let (_, h2) = >>-ok (fail_if (is_deleted db first.id) _) _ h1 in
      let (_, h3) =
        >>-ok (check_card_ancestor blake3 (select card_key first.id db.cards) first) _ h2 in
      let (_, h4) = >>-ok (fail_if (not (linked (card_entity blake3) first rest)) _) _ h3 in
      let (versions, _, h5) = >>=-ok (insert_card_versions (first ∷ rest) db.card_versions) _ h4 in
      let (free, h6) = >>-ok (check_priority (priority_holder db (last_or first rest))) _ h5 in
      subst (Writes _ _ db) (ok-inj h6) (
        put_card-Writes db versions (last_or first rest)
          (check_priority-ok (priority_holder db (last_or first rest)) free))

  push_tag_chain-Writes :
      (db : Db) (first : Tag) (rest : List Tag) {db' : Db}
      → push_tag_chain blake3 db first rest ≡ ok db'
      → Writes
          (after (some ((last_or first rest).id, some (last_or first rest).implies)))
          (λ j o. o)
          db
          db'
  unfolding push_tag_chain
  push_tag_chain-Writes db first rest h =
      let (_, h1) = >>-ok (fail_if (not (all (verify (tag_entity blake3)) (first ∷ rest))) _) _ h in
      let (_, h2) = >>-ok (fail_if (is_deleted db first.id) _) _ h1 in
      let (_, h3) =
        >>-ok (check_tag_ancestor blake3 (select tag_key first.id db.tags) first) _ h2 in
      let (_, h4) = >>-ok (fail_if (not (linked (tag_entity blake3) first rest)) _) _ h3 in
      let (versions, _, h5) = >>=-ok (insert_tag_versions (first ∷ rest) db.tag_versions) _ h4 in
      subst (Writes _ _ db) (ok-inj h5) (put_tag-Writes db versions (last_or first rest))

  -- A deletion removes its key.
  pub delete_card_inner-Writes :
      (db : Db) (id : Uuid) {r : Db × DeletedEntity}
      → delete_card_inner blake3 db id ≡ ok r
      → Writes (λ j o. o) (after (some (id, none))) db r.0
  unfolding delete_card_inner put_deleted
  delete_card_inner-Writes db id h =
      let (_, h1) = >>-ok (fail_if (is_deleted db id) _) _ h in
      let (_, h2) = >>-ok (fail_if (not (present (select card_key id db.cards))) _) _ h1 in
      subst (λ (r : Db × DeletedEntity). Writes (λ j o. o) (after (some (id, none))) db r.0)
        (ok-inj h2)
        (record {
          tags = λ j. refl;
          cards = λ j. ground (arith, select-delete card_key id j db.cards);
          root = refl;
          keyed = λ k. record {
            card_rows = delete-IsTable card_key id db.cards k.card_rows;
            tag_rows = k.tag_rows;
            deleted_rows = replace-IsTable deleted_key _ db.deleted_entities k.deleted_rows;
            priorities = delete-IsDistinct card_key row_priority id db.cards k.priorities;
          };
        })

  pub delete_tag_inner-Writes :
      (db : Db) (id : Uuid) {r : Db × DeletedEntity}
      → delete_tag_inner blake3 db id ≡ ok r
      → Writes (after (some (id, none))) (λ j o. o) db r.0
  unfolding delete_tag_inner put_deleted
  delete_tag_inner-Writes db id h =
      let (_, h1) = >>-ok (fail_if (is_deleted db id) _) _ h in
      let (_, h2) = >>-ok (fail_if (not (present (select tag_key id db.tags))) _) _ h1 in
      let (_, h3) = >>-ok (fail_if (not (is_nil (referencing_cards db id))) _) _ h2 in
      let (_, h4) = >>-ok (fail_if (not (is_nil (referencing_tags db id))) _) _ h3 in
      subst (λ (r : Db × DeletedEntity). Writes (after (some (id, none))) (λ j o. o) db r.0)
        (ok-inj h4)
        (record {
          tags = λ j. ground (arith, select-delete tag_key id j db.tags);
          cards = λ j. refl;
          root = refl;
          keyed = λ k. record {
            card_rows = k.card_rows;
            tag_rows = delete-IsTable tag_key id db.tags k.tag_rows;
            deleted_rows = replace-IsTable deleted_key _ db.deleted_entities k.deleted_rows;
            priorities = k.priorities;
          };
        })

  pub push_card_versions_inner-Writes :
      (db : Db) (versions : List Card) {db' : Db}
      → push_card_versions_inner blake3 db versions ≡ ok db'
      → Writes
          (after (tag_effect (PushItem.cards versions)))
          (after (card_effect (PushItem.cards versions)))
          db
          db'
  unfolding push_card_versions_inner
  push_card_versions_inner-Writes db [] h = cc
  push_card_versions_inner-Writes db (v ∷ vs) h = push_card_chain-Writes db v vs h

  pub push_tag_versions_inner-Writes :
      (db : Db) (versions : List Tag) {db' : Db}
      → push_tag_versions_inner blake3 db versions ≡ ok db'
      → Writes
          (after (tag_effect (PushItem.tags versions)))
          (after (card_effect (PushItem.tags versions)))
          db
          db'
  unfolding push_tag_versions_inner
  push_tag_versions_inner-Writes db [] h = cc
  push_tag_versions_inner-Writes db (v ∷ vs) h = push_tag_chain-Writes db v vs h

  -- Each item of a batch makes the write that the overlay makes for it.
  pub push_item-Writes :
      (db : Db) (item : PushItem) {db' : Db}
      → push_item blake3 db item ≡ ok db'
      → Writes (after (tag_effect item)) (after (card_effect item)) db db'
  unfolding push_item
  push_item-Writes db (PushItem.cards vs) h = push_card_versions_inner-Writes db vs h
  push_item-Writes db (PushItem.tags vs) h = push_tag_versions_inner-Writes db vs h
  push_item-Writes db (PushItem.delete_card id) h =
      let (r, h1, h2) = >>=-ok (map_err push_of_storage (delete_card_inner blake3 db id)) _ h in
      subst (Writes _ _ db) (ok-inj h2) (
        delete_card_inner-Writes db id
          (map_err-ok push_of_storage (delete_card_inner blake3 db id) h1))
  push_item-Writes db (PushItem.delete_tag id) h =
      let (r, h1, h2) = >>=-ok (map_err push_of_storage (delete_tag_inner blake3 db id)) _ h in
      subst (Writes _ _ db) (ok-inj h2) (
        delete_tag_inner-Writes db id
          (map_err-ok push_of_storage (delete_tag_inner blake3 db id) h1))

  pub push_items-Writes :
      (index : ℕ) (items : List PushItem) (db : Db) (a : Affected) {r : Db × Affected}
      → push_items blake3 index items db a ≡ ok r
      → Writes (after_all (map tag_effect items)) (after_all (map card_effect items)) db r.0
  unfolding push_items
  push_items-Writes index [] db a h =
      subst (λ (r : Db × Affected). Writes (λ j o. o) (λ j o. o) db r.0) (ok-inj h)
        (record { tags = λ j. refl; cards = λ j. refl; keyed = λ k. k; root = refl })
  push_items-Writes index (item ∷ items) db a h =
      let (db1, h1, h2) = >>=-ok (map_err (batch_err index) (push_item blake3 db item)) _ h in
      let w =
        push_item-Writes db item (map_err-ok (batch_err index) (push_item blake3 db item) h1) in
      let ws = push_items-Writes (suc index) items db1 (note_item item a) h2 in
      record {
        tags = λ j. ws.tags j ∙ ap (after_all (map tag_effect items) j) (w.tags j);
        cards = λ j. ws.cards j ∙ ap (after_all (map card_effect items) j) (w.cards j);
        keyed = λ k. ws.keyed (w.keyed k);
        root = ws.root ∙ w.root;
      }
