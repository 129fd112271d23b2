-- ===== src/Server/Storage/Touches.antt =====
-- Which rows the items of a batch touch: those whose identifiers the batch notes.
use blaze_list.Prelude.{
  ℕ, suc, ◌≡◌, refl, subst, Bool, true, false, Option, none, some, List, [], ◌∷◌, inl, inr, ◌⊎◌,
  arith, In, contains-append, All,
}
use blaze_list.Prelude.Result.{ok, map_err, >>=-ok, map_err-ok, ok-inj}
use blaze_list.Protocol.Types.{Uuid, Hash}
use blaze_list.Protocol.Messages.{PushItem}
use blaze_list.Server.Table.{select}
use blaze_list.Server.Db.{Db, card_key, tag_key, deleted_key}
use blaze_list.Server.Storage.{Affected, none_affected, push_item, push_items, note_item, batch_err}
use blaze_list.Server.Storage.Conforms.{Kinds, Conforms, last_card-id, last_tag-id}
use blaze_list.Server.Storage.Rows.{RowWrites, push_item-RowWrites}

abbrev pub is_some {ℓ} : {A : Type ℓ} → Option A → Bool
is_some none = false
is_some (some _) = true

-- A row is noted and there, or it is as it was, or it is gone and its deletion is noted.
abbrev pub Touched : {A : Type 0} → List Uuid → List Uuid → Uuid → Option A → Option A → Type 0
Touched ids gone j before now =
    (In j ids × (is_some now ≡ true)) ⊎ ((now ≡ before) ⊎ ((now ≡ none) × In j gone))

pub record Touches (db0 db : Db) (a : Affected) : Type 0 where
  pub cards :
      (j : Uuid)
      → Touched a.card_ids a.deleted_ids j
          (select card_key j db0.cards)
          (select card_key j db.cards)
  pub tags :
      (j : Uuid)
      → Touched a.tag_ids a.deleted_ids j (select tag_key j db0.tags) (select tag_key j db.tags)
  pub deleted :
      (j : Uuid)
      → In j a.deleted_ids
        ⊎ (select deleted_key j db.deleted_entities ≡ select deleted_key j db0.deleted_entities)
  pub gone :
      (j : Uuid) → In j a.deleted_ids → is_some (select deleted_key j db.deleted_entities) ≡ true

pub Touches-refl : (db : Db) → Touches db db none_affected
Touches-refl db = record {
  cards = λ j. inr (inl refl);
  tags = λ j. inr (inl refl);
  deleted = λ j. inr refl;
  gone = λ j. cc;
}

module _ (blake3 : List ℕ → Hash) (is_card : Kinds) where
  note_item-Touches :
      (db0 db db' : Db) (a : Affected) (item : PushItem)
      → Conforms is_card item
      → RowWrites blake3 db item db'
      → Touches db0 db a
      → Touches db0 db' (note_item item a)
  unfolding note_item
  note_item-Touches db0 db db' a (PushItem.cards []) c w t = record {
    cards = λ j. ground (arith, contains-append a.card_ids [] j, w.cards j, t.cards j);
    tags = λ j. ground (arith, w.tags j, t.tags j);
    deleted = λ j. ground (arith, w.deleted j, t.deleted j);
    gone = λ j m. ground (arith, w.deleted j, t.gone j);
  }
  note_item-Touches db0 db db' a (PushItem.cards (v ∷ vs)) c w t =
      let same_id = last_card-id v vs c.1 in
      let ids = λ (j : Uuid). contains-append a.card_ids (v.id ∷ []) j in
      record {
        cards = λ j. ground (arith, same_id, ids j, w.cards j, t.cards j);
        tags = λ j. ground (arith, w.tags j, t.tags j);
        deleted = λ j. ground (arith, w.deleted j, t.deleted j);
        gone = λ j m. ground (arith, w.deleted j, t.gone j);
      }
  note_item-Touches db0 db db' a (PushItem.tags []) c w t = record {
    cards = λ j. ground (arith, w.cards j, t.cards j);
    tags = λ j. ground (arith, contains-append a.tag_ids [] j, w.tags j, t.tags j);
    deleted = λ j. ground (arith, w.deleted j, t.deleted j);
    gone = λ j m. ground (arith, w.deleted j, t.gone j);
  }
  note_item-Touches db0 db db' a (PushItem.tags (v ∷ vs)) c w t =
      let same_id = last_tag-id v vs c.1 in
      let ids = λ (j : Uuid). contains-append a.tag_ids (v.id ∷ []) j in
      record {
        cards = λ j. ground (arith, w.cards j, t.cards j);
        tags = λ j. ground (arith, same_id, ids j, w.tags j, t.tags j);
        deleted = λ j. ground (arith, w.deleted j, t.deleted j);
        gone = λ j m. ground (arith, w.deleted j, t.gone j);
      }
  note_item-Touches db0 db db' a (PushItem.delete_card id) c w t =
      let ids = λ (j : Uuid). contains-append a.deleted_ids (id ∷ []) j in
      record {
        cards = λ j. ground (arith, ids j, w.cards j, t.cards j);
        tags = λ j. ground (arith, ids j, w.tags j, t.tags j);
        deleted = λ j. ground (arith, ids j, w.deleted j, t.deleted j);
        gone = λ j m. ground (arith, ids j, w.deleted j, t.gone j);
      }
  note_item-Touches db0 db db' a (PushItem.delete_tag id) c w t =
      let ids = λ (j : Uuid). contains-append a.deleted_ids (id ∷ []) j in
      record {
        cards = λ j. ground (arith, ids j, w.cards j, t.cards j);
        tags = λ j. ground (arith, ids j, w.tags j, t.tags j);
        deleted = λ j. ground (arith, ids j, w.deleted j, t.deleted j);
        gone = λ j m. ground (arith, ids j, w.deleted j, t.gone j);
      }

  -- A property that each item keeps, with what its run is known to do.
  pub push_items-keep :
      (P : Db → Affected → Type 0)
      → ((db db' : Db) (a : Affected) (item : PushItem)
          → Conforms is_card item
          → RowWrites blake3 db item db'
          → P db a
          → P db' (note_item item a))
      → (index : ℕ) (items : List PushItem) (db : Db) (a : Affected) (r : Db × Affected)
      → All (Conforms is_card) items
      → push_items blake3 index items db a ≡ ok r
      → P db a
      → P r.0 r.1
  unfolding push_items
  push_items-keep P keep index [] db a r c h p =
      subst (λ (r : Db × Affected). P r.0 r.1) (ok-inj h) p
  push_items-keep P keep index (item ∷ items) db a r c h p =
      let (db1, h1, h2) = >>=-ok (map_err (batch_err index) (push_item blake3 db item)) _ h in
      let w =
        push_item-RowWrites blake3 db item
          (map_err-ok (batch_err index) (push_item blake3 db item) h1) in
      push_items-keep P keep (suc index) items db1 (note_item item a) r c.1 h2
        (keep db db1 a item c.0 w p)

  pub push_items-Touches :
      (items : List PushItem) (db : Db) (r : Db × Affected)
      → All (Conforms is_card) items
      → push_items blake3 0 items db none_affected ≡ ok r
      → Touches db r.0 r.1
  push_items-Touches items db r c h =
      push_items-keep (Touches db) (note_item-Touches db) 0 items db none_affected r c h
        (Touches-refl db)
