-- ===== src/Server/Storage/Orderly.antt =====
-- Tables whose live rows can be read back, with identifiers that name one kind of entity and are
-- not both live and deleted.
use blaze_list.Prelude.{
  ℕ, ◌≡◌, refl, subst, Bool, true, false, Option, none, some, List, [], ◌∷◌, inl, inr, ◌⊎◌,
  Bool-cases, ◌==◌, ==_iff, arith, All, all, last_or, contains,
}
use blaze_list.Prelude.Btree.{IsAscending}
use blaze_list.Protocol.Types.{Uuid, Hash, DateTime}
use blaze_list.Protocol.Entity.{verify}
use blaze_list.Protocol.Card.{card_entity}
use blaze_list.Protocol.Tag.{Tag, tag_entity}
use blaze_list.Protocol.Tag.Versions.{IsSealed}
use blaze_list.Protocol.Messages.{PushItem}
use blaze_list.Server.Table.{select}
use blaze_list.Server.Db.{Db, CardRow, TagRow, card_key, tag_key, deleted_key, is_deleted}
use blaze_list.Server.Storage.{Affected, none_affected}
use blaze_list.Server.Storage.Conforms.{Kinds, Conforms, last_card-id, last_tag-id}
use blaze_list.Server.Storage.Rows.{RowWrites, row_after}
use blaze_list.Server.Storage.Applied.{Applied}
use blaze_list.Server.Storage.Touches.{push_items-keep, is_some}
use blaze_list.Server.Storage.Marks.{Marks, marked_root, marked, mark_card, mark_tag}

-- A predicate of what is found, if anything is.
abbrev pub OfSome : {A : Type 0} → (A → Type 0) → Option A → Type 0
OfSome P none = Unit
OfSome P (some a) = P a

OfSome-row_after :
    {A : Type 0} (P : A → Type 0) (w : Option (Uuid × Option A)) (j : Uuid) (o : Option A)
    → OfSome P o
    → (w ≡ none) ⊎ ((k : Uuid) × (v : Option A) × (w ≡ some (k, v)) × OfSome P v)
    → OfSome P (row_after w j o)
OfSome-row_after P w j o h (inl e) = rw e h
OfSome-row_after P w j o h (inr (k, v, e, p)) = elim (Bool-cases (j == k)) [
  | inl b ↦ rw (e, b) p
  | inr b ↦ rw (e, b) h
]

OfSome-marked :
    {A : Type 0} (P : A → Type 0) (f : A → A) (ids : List Uuid) (j : Uuid) (o : Option A)
    → ((a : A) → P a → P (f a))
    → OfSome P o
    → OfSome P (marked f ids j o)
OfSome-marked P f ids j none keep h = elim (Bool-cases (contains ids j)) [
  | inl b ↦ rw b tt
  | inr b ↦ rw b tt
]
OfSome-marked P f ids j (some a) keep h = elim (Bool-cases (contains ids j)) [
  | inl b ↦ rw b (keep a h)
  | inr b ↦ rw b h
]

all-last :
    {A : Type 0} (p : A → Bool) (v : A) (vs : List A)
    → all p (v ∷ vs) ≡ true
    → p (last_or v vs) ≡ true
all-last p v [] h = ground arith
all-last p v (w ∷ ws) h = all-last p w ws (ground arith)

All-last : {A : Type 0} (P : A → Type 0) (v : A) (vs : List A) → All P (v ∷ vs) → P (last_or v vs)
All-last P v [] h = h.0
All-last P v (w ∷ ws) h = All-last P w ws h.1

module _ (blake3 : List ℕ → Hash) (is_card : Kinds) where
  -- What `card_from_row` and `tag_from_row` read back whole.
  abbrev pub CardReads : CardRow → Type 0
  CardReads r = verify (card_entity blake3) r.card ≡ true

  abbrev pub TagReads : TagRow → Type 0
  TagReads r = IsSealed blake3 r.tag

  pub record Orderly (db : Db) : Type 0 where
    pub card_reads : (j : Uuid) → OfSome CardReads (select card_key j db.cards)
    pub tag_reads : (j : Uuid) → OfSome TagReads (select tag_key j db.tags)
    pub card_kind : (j : Uuid) → is_some (select card_key j db.cards) ≡ true → is_card j ≡ true
    pub tag_kind : (j : Uuid) → is_some (select tag_key j db.tags) ≡ true → is_card j ≡ false
    pub card_apart :
        (j : Uuid)
        → is_some (select card_key j db.cards) ≡ true
        → is_some (select deleted_key j db.deleted_entities) ≡ false
    pub tag_apart :
        (j : Uuid)
        → is_some (select tag_key j db.tags) ≡ true
        → is_some (select deleted_key j db.deleted_entities) ≡ false

  item-Orderly :
      (db db' : Db) (a : Affected) (item : PushItem)
      → Conforms is_card item
      → RowWrites blake3 db item db'
      → Orderly db
      → Orderly db'
  unfolding is_deleted
  item-Orderly db db' a (PushItem.cards []) c w o = record {
    card_reads = λ j. rw (w.cards j) (o.card_reads j);
    tag_reads = λ j. rw (w.tags j) (o.tag_reads j);
    card_kind = λ j m. ground (arith, w.cards j, o.card_kind j);
    tag_kind = λ j m. ground (arith, w.tags j, o.tag_kind j);
    card_apart = λ j m. ground (arith, w.cards j, w.deleted j, o.card_apart j);
    tag_apart = λ j m. ground (arith, w.tags j, w.deleted j, o.tag_apart j);
  }
  item-Orderly db db' a (PushItem.cards (v ∷ vs)) c w o =
      let same_id = last_card-id v vs c.1 in
      record {
        card_reads = λ j. rw (w.cards j) (
            OfSome-row_after CardReads _ j _ (o.card_reads j)
              (inr (_, _, refl, all-last (verify (card_entity blake3)) v vs w.allowed.0)));
        tag_reads = λ j. rw (w.tags j) (o.tag_reads j);
        card_kind = λ j m. ground (arith, same_id, w.cards j, o.card_kind j, ==_iff j v.id);
        tag_kind = λ j m. ground (arith, w.tags j, o.tag_kind j);
        card_apart =
            λ j m. ground (arith, same_id, w.cards j, w.deleted j, o.card_apart j, ==_iff j v.id);
        tag_apart = λ j m. ground (arith, w.tags j, w.deleted j, o.tag_apart j);
      }
  item-Orderly db db' a (PushItem.tags []) c w o = record {
    card_reads = λ j. rw (w.cards j) (o.card_reads j);
    tag_reads = λ j. rw (w.tags j) (o.tag_reads j);
    card_kind = λ j m. ground (arith, w.cards j, o.card_kind j);
    tag_kind = λ j m. ground (arith, w.tags j, o.tag_kind j);
    card_apart = λ j m. ground (arith, w.cards j, w.deleted j, o.card_apart j);
    tag_apart = λ j m. ground (arith, w.tags j, w.deleted j, o.tag_apart j);
  }
  item-Orderly db db' a (PushItem.tags (v ∷ vs)) c w o =
      let same_id = last_tag-id v vs c.1 in
      record {
        card_reads = λ j. rw (w.cards j) (o.card_reads j);
        tag_reads = λ j. rw (w.tags j) (
            OfSome-row_after TagReads _ j _ (o.tag_reads j) (
              inr (
                _,
                _,
                refl,
                record {
                  sealed = all-last (verify (tag_entity blake3)) v vs w.allowed.0;
                  normal = All-last (λ (t : Tag). IsAscending t.implies) v vs c.2;
                },
              )));
        card_kind = λ j m. ground (arith, w.cards j, o.card_kind j);
        tag_kind = λ j m. ground (arith, same_id, w.tags j, o.tag_kind j, ==_iff j v.id);
        card_apart = λ j m. ground (arith, w.cards j, w.deleted j, o.card_apart j);
        tag_apart =
            λ j m. ground (arith, same_id, w.tags j, w.deleted j, o.tag_apart j, ==_iff j v.id);
      }
  item-Orderly db db' a (PushItem.delete_card id) c w o = record {
    card_reads = λ j.
        rw (w.cards j) (OfSome-row_after CardReads _ j _ (o.card_reads j) (inr (_, _, refl, tt)));
    tag_reads = λ j. rw (w.tags j) (o.tag_reads j);
    card_kind = λ j m. ground (arith, w.cards j, o.card_kind j);
    tag_kind = λ j m. ground (arith, w.tags j, o.tag_kind j);
    card_apart = λ j m. ground (arith, w.cards j, w.deleted j, o.card_apart j);
    tag_apart =
        λ j m. ground (arith, w.tags j, w.deleted j, o.tag_apart j, o.tag_kind j, ==_iff j id);
  }
  item-Orderly db db' a (PushItem.delete_tag id) c w o = record {
    card_reads = λ j. rw (w.cards j) (o.card_reads j);
    tag_reads =
        λ j. rw (w.tags j) (OfSome-row_after TagReads _ j _ (o.tag_reads j) (inr (_, _, refl, tt)));
    card_kind = λ j m. ground (arith, w.cards j, o.card_kind j);
    tag_kind = λ j m. ground (arith, w.tags j, o.tag_kind j);
    card_apart =
        λ j m. ground (arith, w.cards j, w.deleted j, o.card_apart j, o.card_kind j, ==_iff j id);
    tag_apart = λ j m. ground (arith, w.tags j, w.deleted j, o.tag_apart j);
  }

  Marks-Orderly : (a : Affected) (n : ℕ) (db db' : Db) → Marks a n db db' → Orderly db → Orderly db'
  Marks-Orderly a n db db' m o = record {
    card_reads = λ j.
        rw (m.cards j)
          (OfSome-marked CardReads (mark_card n) a.card_ids j _ (λ r h. h) (o.card_reads j));
    tag_reads = λ j.
        rw (m.tags j)
          (OfSome-marked TagReads (mark_tag n) a.tag_ids j _ (λ r h. h) (o.tag_reads j));
    card_kind = λ j h. ground (arith, m.cards j, o.card_kind j);
    tag_kind = λ j h. ground (arith, m.tags j, o.tag_kind j);
    card_apart = λ j h. ground (arith, m.cards j, m.deleted j, o.card_apart j);
    tag_apart = λ j h. ground (arith, m.tags j, m.deleted j, o.tag_apart j);
  }

  pub Applied-Orderly :
      (db : Db) (items : List PushItem) (now : DateTime) (db' : Db)
      → All (Conforms is_card) items
      → Applied blake3 db items now db'
      → Orderly db
      → Orderly db'
  Applied-Orderly db items now db' c a o =
      let written =
        push_items-keep blake3 is_card (λ d _. Orderly d)
          (λ d d' b item ci w od. item-Orderly d d' b item ci w od) 0 items db none_affected
          (a.written, a.affected) c a.pushed o in
      let m = marked_root blake3 a.affected a.written _ now a.rooted a.root in
      subst Orderly a.result (Marks-Orderly a.affected _ a.written _ m written)
