-- ===== src/Server/Storage/Rows.antt =====
-- The row that each item of a batch leaves in each table of server/src/storage/sqlite/schema.rs.
use blaze_list.Prelude.{
  ℕ, ◌≡◌, refl, sym, ◌∙◌, ap, subst, true, false, not, Option, none, some, List, [], ◌∷◌, ◌==◌,
  arith, all, last_or, if◌then◌else◌,
}
use blaze_list.Prelude.Result.{ok, map_err, fail_if, >>=-ok, >>-ok, map_err-ok, ok-inj}
use blaze_list.Protocol.Types.{Uuid, Hash}
use blaze_list.Protocol.Entity.{verify}
use blaze_list.Protocol.Card.{Card, card_entity}
use blaze_list.Protocol.Tag.{Tag, tag_entity}
use blaze_list.Protocol.Deleted.{DeletedEntity, new_deleted}
use blaze_list.Protocol.Messages.{PushItem}
use blaze_list.Server.Errors.{push_of_storage}
use blaze_list.Server.Table.{select, replace, select-replace, select-delete}
use blaze_list.Server.Db.{
  Db, CardRow, TagRow, DeletedRow, card_key, tag_key, deleted_key, is_deleted, bucket_of,
}
use blaze_list.Server.Write.{
  push_card_chain, push_tag_chain, push_card_versions_inner, push_tag_versions_inner, put_card,
  put_tag, put_deleted, delete_card_inner, delete_tag_inner, check_card_ancestor,
  check_tag_ancestor, linked, insert_card_versions, insert_tag_versions, check_priority,
  priority_holder, present, is_nil, referencing_cards, referencing_tags,
}
use blaze_list.Server.Storage.{push_item}

-- One write to a table, seen at a key.
abbrev pub row_after {ℓ} : {A : Type ℓ} → Option (Uuid × Option A) → Uuid → Option A → Option A
row_after none j o = o
row_after (some (k, v)) j o = if j == k then v else o

module _ (blake3 : List ℕ → Hash) where
  -- The tables after each operation, for a chain with the live row that it leaves.
  pub push_card_chain-rows :
      (db : Db) (v : Card) (vs : List Card) {db' : Db}
      → push_card_chain blake3 db v vs ≡ ok db'
      → (all (verify (card_entity blake3)) (v ∷ vs) ≡ true)
        × (is_deleted db v.id ≡ false)
        × (db'.cards
            ≡ replace card_key
                (record {
                  card = last_or v vs;
                  root_sequence_at = 0;
                  bucket = bucket_of (last_or v vs).id;
                })
                db.cards)
        × (db'.tags ≡ db.tags)
        × (db'.deleted_entities ≡ db.deleted_entities)
  unfolding push_card_chain put_card
  push_card_chain-rows db v vs h =
      let verified = all (verify (card_entity blake3)) (v ∷ vs) in
      let (h0, h1) = >>-ok (fail_if (not verified) _) _ h in
      let (d0, h2) = >>-ok (fail_if (is_deleted db v.id) _) _ h1 in
      let (_, h3) = >>-ok (check_card_ancestor blake3 (select card_key v.id db.cards) v) _ h2 in
      let (_, h4) = >>-ok (fail_if (not (linked (card_entity blake3) v vs)) _) _ h3 in
      let (versions, _, h5) = >>=-ok (insert_card_versions (v ∷ vs) db.card_versions) _ h4 in
      let (_, h6) = >>-ok (check_priority (priority_holder db (last_or v vs))) _ h5 in
      (
        ground arith,
        ground arith,
        ap (λ (d : Db). d.cards) (sym (ok-inj h6)),
        ap (λ (d : Db). d.tags) (sym (ok-inj h6)),
        ap (λ (d : Db). d.deleted_entities) (sym (ok-inj h6)),
      )

  pub push_tag_chain-rows :
      (db : Db) (v : Tag) (vs : List Tag) {db' : Db}
      → push_tag_chain blake3 db v vs ≡ ok db'
      → (all (verify (tag_entity blake3)) (v ∷ vs) ≡ true)
        × (is_deleted db v.id ≡ false)
        × (db'.tags
            ≡ replace tag_key
                (record {
                  tag = last_or v vs;
                  root_sequence_at = 0;
                  bucket = bucket_of (last_or v vs).id;
                })
                db.tags)
        × (db'.cards ≡ db.cards)
        × (db'.deleted_entities ≡ db.deleted_entities)
  unfolding push_tag_chain put_tag
  push_tag_chain-rows db v vs h =
      let verified = all (verify (tag_entity blake3)) (v ∷ vs) in
      let (h0, h1) = >>-ok (fail_if (not verified) _) _ h in
      let (d0, h2) = >>-ok (fail_if (is_deleted db v.id) _) _ h1 in
      let (_, h3) = >>-ok (check_tag_ancestor blake3 (select tag_key v.id db.tags) v) _ h2 in
      let (_, h4) = >>-ok (fail_if (not (linked (tag_entity blake3) v vs)) _) _ h3 in
      let (versions, _, h5) = >>=-ok (insert_tag_versions (v ∷ vs) db.tag_versions) _ h4 in
      (
        ground arith,
        ground arith,
        ap (λ (d : Db). d.tags) (sym (ok-inj h5)),
        ap (λ (d : Db). d.cards) (sym (ok-inj h5)),
        ap (λ (d : Db). d.deleted_entities) (sym (ok-inj h5)),
      )

  -- The row that an item leaves under the key that it writes, in each table.
  abbrev pub card_row : PushItem → Option (Uuid × Option CardRow)
  card_row (PushItem.cards []) = none
  card_row (PushItem.cards (v ∷ vs)) =
      let latest = last_or v vs in
      some (
        latest.id,
        some (record { card = latest; root_sequence_at = 0; bucket = bucket_of latest.id }),
      )
  card_row (PushItem.tags _) = none
  card_row (PushItem.delete_card id) = some (id, none)
  card_row (PushItem.delete_tag _) = none

  abbrev pub tag_row : PushItem → Option (Uuid × Option TagRow)
  tag_row (PushItem.cards _) = none
  tag_row (PushItem.tags []) = none
  tag_row (PushItem.tags (v ∷ vs)) =
      let latest = last_or v vs in
      some (
        latest.id,
        some (record { tag = latest; root_sequence_at = 0; bucket = bucket_of latest.id }),
      )
  tag_row (PushItem.delete_card _) = none
  tag_row (PushItem.delete_tag id) = some (id, none)

  abbrev pub deleted_row : PushItem → Option (Uuid × Option DeletedRow)
  deleted_row (PushItem.cards _) = none
  deleted_row (PushItem.tags _) = none
  deleted_row (PushItem.delete_card id) = some (
    id,
    some (record { entity = new_deleted blake3 id; root_sequence_at = 0; bucket = bucket_of id }),
  )
  deleted_row (PushItem.delete_tag id) = some (
    id,
    some (record { entity = new_deleted blake3 id; root_sequence_at = 0; bucket = bucket_of id }),
  )

  -- What the checks of an item let through.
  abbrev pub Allowed : Db → PushItem → Type 0
  Allowed db (PushItem.cards []) = Unit
  Allowed db (PushItem.cards (v ∷ vs)) =
      (all (verify (card_entity blake3)) (v ∷ vs) ≡ true) × (is_deleted db v.id ≡ false)
  Allowed db (PushItem.tags []) = Unit
  Allowed db (PushItem.tags (v ∷ vs)) =
      (all (verify (tag_entity blake3)) (v ∷ vs) ≡ true) × (is_deleted db v.id ≡ false)
  Allowed db (PushItem.delete_card id) = Unit
  Allowed db (PushItem.delete_tag id) = Unit

  pub record RowWrites (db : Db) (item : PushItem) (db' : Db) : Type 0 where
    pub cards :
        (j : Uuid)
        → select card_key j db'.cards ≡ row_after (card_row item) j (select card_key j db.cards)
    pub tags :
        (j : Uuid)
        → select tag_key j db'.tags ≡ row_after (tag_row item) j (select tag_key j db.tags)
    pub deleted :
        (j : Uuid)
        → select deleted_key j db'.deleted_entities
          ≡ row_after (deleted_row item) j (select deleted_key j db.deleted_entities)
    pub allowed : Allowed db item

  delete_card-RowWrites :
      (db : Db) (id : Uuid) {r : Db × DeletedEntity}
      → delete_card_inner blake3 db id ≡ ok r
      → RowWrites db (PushItem.delete_card id) r.0
  unfolding delete_card_inner put_deleted new_deleted
  delete_card-RowWrites db id h =
      let (_, h1) = >>-ok (fail_if (is_deleted db id) _) _ h in
      let (_, h2) = >>-ok (fail_if (not (present (select card_key id db.cards))) _) _ h1 in
      subst (λ (r : Db × DeletedEntity). RowWrites db (PushItem.delete_card id) r.0) (ok-inj h2)
        (record {
          cards = λ j. select-delete card_key id j db.cards;
          tags = λ j. refl;
          deleted = λ j. select-replace deleted_key j _ db.deleted_entities;
          allowed = tt;
        })

  delete_tag-RowWrites :
      (db : Db) (id : Uuid) {r : Db × DeletedEntity}
      → delete_tag_inner blake3 db id ≡ ok r
      → RowWrites db (PushItem.delete_tag id) r.0
  unfolding delete_tag_inner put_deleted new_deleted
  delete_tag-RowWrites db id h =
      let (_, h1) = >>-ok (fail_if (is_deleted db id) _) _ h in
      let (_, h2) = >>-ok (fail_if (not (present (select tag_key id db.tags))) _) _ h1 in
      let (_, h3) = >>-ok (fail_if (not (is_nil (referencing_cards db id))) _) _ h2 in
      let (_, h4) = >>-ok (fail_if (not (is_nil (referencing_tags db id))) _) _ h3 in
      subst (λ (r : Db × DeletedEntity). RowWrites db (PushItem.delete_tag id) r.0) (ok-inj h4)
        (record {
          cards = λ j. refl;
          tags = λ j. select-delete tag_key id j db.tags;
          deleted = λ j. select-replace deleted_key j _ db.deleted_entities;
          allowed = tt;
        })

  pub push_item-RowWrites :
      (db : Db) (item : PushItem) {db' : Db}
      → push_item blake3 db item ≡ ok db'
      → RowWrites db item db'
  unfolding push_item push_card_versions_inner push_tag_versions_inner
  push_item-RowWrites db (PushItem.cards []) h = cc
  push_item-RowWrites db (PushItem.cards (v ∷ vs)) h =
      let (verified, alive, rows, same_tags, same_deleted) = push_card_chain-rows db v vs h in
      record {
        cards = λ j. ap (select card_key j) rows ∙ select-replace card_key j _ db.cards;
        tags = λ j. ap (select tag_key j) same_tags;
        deleted = λ j. ap (select deleted_key j) same_deleted;
        allowed = (verified, alive);
      }
  push_item-RowWrites db (PushItem.tags []) h = cc
  push_item-RowWrites db (PushItem.tags (v ∷ vs)) h =
      let (verified, alive, rows, same_cards, same_deleted) = push_tag_chain-rows db v vs h in
      record {
        cards = λ j. ap (select card_key j) same_cards;
        tags = λ j. ap (select tag_key j) rows ∙ select-replace tag_key j _ db.tags;
        deleted = λ j. ap (select deleted_key j) same_deleted;
        allowed = (verified, alive);
      }
  push_item-RowWrites db (PushItem.delete_card id) h =
      let inner = delete_card_inner blake3 db id in
      let (r, h1, h2) = >>=-ok (map_err push_of_storage inner) _ h in
      subst (RowWrites db (PushItem.delete_card id)) (ok-inj h2)
        (delete_card-RowWrites db id (map_err-ok push_of_storage inner h1))
  push_item-RowWrites db (PushItem.delete_tag id) h =
      let inner = delete_tag_inner blake3 db id in
      let (r, h1, h2) = >>=-ok (map_err push_of_storage inner) _ h in
      subst (RowWrites db (PushItem.delete_tag id)) (ok-inj h2)
        (delete_tag-RowWrites db id (map_err-ok push_of_storage inner h1))
