-- ===== src/Server/Storage/Moves.antt =====
-- How an applied batch changes what is found under each identifier: it is marked with the new
-- number, or it is as it was, or it is gone with a tombstone so marked.
use blaze_list.Prelude.{
  ℕ, ◌≤◌, ◌≡◌, refl, ap, subst, Bool, true, false, Option, none, some, List, inl, inr, ◌⊎◌, arith,
  All, ltb,
}
use blaze_list.Protocol.Types.{Uuid, Hash, DateTime}
use blaze_list.Protocol.Messages.{PushItem}
use blaze_list.Server.Table.{select}
use blaze_list.Server.Table.Keys.{changed}
use blaze_list.Server.Db.{Db, CardRow, TagRow, DeletedRow, card_key, tag_key, deleted_key}
use blaze_list.Server.Storage.{none_affected}
use blaze_list.Server.Storage.Conforms.{Kinds, Conforms}
use blaze_list.Server.Storage.Effects.{push_items-Writes}
use blaze_list.Server.Storage.Applied.{Applied}
use blaze_list.Server.Storage.Touches.{push_items-Touches}
use blaze_list.Server.Storage.Marks.{marked_root}

-- The numbers that stand on a live row and on a tombstone.
abbrev pub card_number : Db → Uuid → Option ℕ
card_number db j = changed (λ (r : CardRow). r.root_sequence_at) (select card_key j db.cards)

abbrev pub tag_number : Db → Uuid → Option ℕ
tag_number db j = changed (λ (r : TagRow). r.root_sequence_at) (select tag_key j db.tags)

abbrev pub deleted_number : Db → Uuid → Option ℕ
deleted_number db j =
    changed (λ (r : DeletedRow). r.root_sequence_at) (select deleted_key j db.deleted_entities)

-- A number that is past `s`.
abbrev pub past : ℕ → Option ℕ → Bool
past s none = false
past s (some n) = ltb s n

-- From `old` to `new`, where the root of `old` had the number `s`.
pub record Moves (s : ℕ) (old new : Db) : Type 0 where
  pub cards :
      (j : Uuid)
      → (past s (card_number new j) ≡ true)
        ⊎ ((select card_key j new.cards ≡ select card_key j old.cards)
            ⊎ ((select card_key j new.cards ≡ none) × (past s (deleted_number new j) ≡ true)))
  pub tags :
      (j : Uuid)
      → (past s (tag_number new j) ≡ true)
        ⊎ ((select tag_key j new.tags ≡ select tag_key j old.tags)
            ⊎ ((select tag_key j new.tags ≡ none) × (past s (deleted_number new j) ≡ true)))
  pub deleted :
      (j : Uuid)
      → (past s (deleted_number new j) ≡ true)
        ⊎ (select deleted_key j new.deleted_entities ≡ select deleted_key j old.deleted_entities)

pub Moves-refl : (s : ℕ) (db : Db) → Moves s db db
Moves-refl s db = record {
  cards = λ j. inr (inl refl);
  tags = λ j. inr (inl refl);
  deleted = λ j. inr refl;
}

pub Moves-trans : (s : ℕ) (a b c : Db) → Moves s a b → Moves s b c → Moves s a c
Moves-trans s a b c h i = record {
  cards = λ j. ground (arith, h.cards j, i.cards j, i.deleted j);
  tags = λ j. ground (arith, h.tags j, i.tags j, i.deleted j);
  deleted = λ j. ground (arith, h.deleted j, i.deleted j);
}

module _ (blake3 : List ℕ → Hash) (is_card : Kinds) where
  pub Applied-Moves :
      (s : ℕ) (db : Db) (items : List PushItem) (now : DateTime) (db' : Db)
      → s ≤ db.root_sequence
      → All (Conforms is_card) items
      → Applied blake3 db items now db'
      → Moves s db db'
  Applied-Moves s db items now db' le c a =
      let t = push_items-Touches blake3 is_card items db (a.written, a.affected) c a.pushed in
      let w = push_items-Writes blake3 0 items db none_affected a.pushed in
      let m = marked_root blake3 a.affected a.written _ now a.rooted a.root in
      let number : a.written.root_sequence ≡ db.root_sequence = ap (λ r. r.0) w.root in
      subst (Moves s db) a.result (record {
        cards = λ j. ground (arith, t.cards j, t.gone j, m.cards j, m.deleted j);
        tags = λ j. ground (arith, t.tags j, t.gone j, m.tags j, m.deleted j);
        deleted = λ j. ground (arith, t.deleted j, t.gone j, m.deleted j);
      })
