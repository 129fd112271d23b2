-- ===== src/Server/Storage/Marks.antt =====
-- What the stamps of server/src/storage/sqlite/write.rs leave in the tables: the new number on the
-- live rows and tombstones whose identifiers are noted.
use blaze_list.Prelude.{
  leb, ◌||◌, any, ℕ, suc, ◌≡◌, refl, sym, ◌∙◌, ap, subst, Option, List, [], ◌∷◌, inl, inr,
  Bool-cases, ◌==◌, arith, contains, if◌then◌else◌, any, set,
}
use blaze_list.Prelude.Result.{ok, ok-inj}
use blaze_list.Protocol.Types.{Uuid, Hash, DateTime}
use blaze_list.Server.Table.{select}
use blaze_list.Server.Table.Keys.{changed, select-update}
use blaze_list.Server.Db.{Db, CardRow, TagRow, DeletedRow, card_key, tag_key, deleted_key}
use blaze_list.Server.Root.{
  recompute_root_for_ids, recompute_root_from_buckets, recompute_buckets, recompute_bucket_hash,
  affected_buckets,
}
use blaze_list.Server.Write.{stamp_card_sequence, stamp_tag_sequence, stamp_delete_sequence}
use blaze_list.Server.Storage.{Affected, stamp_each, stamp_affected}

abbrev pub mark_card : ℕ → CardRow → CardRow
mark_card n r = record r { root_sequence_at = n }

abbrev pub mark_tag : ℕ → TagRow → TagRow
mark_tag n r = record r { root_sequence_at = n }

abbrev pub mark_deleted : ℕ → DeletedRow → DeletedRow
mark_deleted n r = record r { root_sequence_at = n }

-- Seen at a key: the rows named are marked.
abbrev pub marked : {A : Type 0} → (A → A) → List Uuid → Uuid → Option A → Option A
marked f ids j o = if contains ids j then changed f o else o

stamp_cards-rows :
    (ids : List Uuid) (n : ℕ) (db : Db) (j : Uuid)
    → (select card_key j (stamp_each stamp_card_sequence ids n db).cards
        ≡ marked (mark_card n) ids j (select card_key j db.cards))
      × ((stamp_each stamp_card_sequence ids n db).tags ≡ db.tags)
      × ((stamp_each stamp_card_sequence ids n db).deleted_entities ≡ db.deleted_entities)
unfolding stamp_each stamp_card_sequence
stamp_cards-rows [] n db j = (refl, refl, refl)
stamp_cards-rows (id ∷ ids) n db j =
    let (cards, tags, deleted) = stamp_cards-rows ids n (stamp_card_sequence db id n) j in
    (
      cards ∙ ground (arith, select-update card_key id j (mark_card n) db.cards (λ r. refl)),
      tags,
      deleted,
    )

stamp_tags-rows :
    (ids : List Uuid) (n : ℕ) (db : Db) (j : Uuid)
    → (select tag_key j (stamp_each stamp_tag_sequence ids n db).tags
        ≡ marked (mark_tag n) ids j (select tag_key j db.tags))
      × ((stamp_each stamp_tag_sequence ids n db).cards ≡ db.cards)
      × ((stamp_each stamp_tag_sequence ids n db).deleted_entities ≡ db.deleted_entities)
unfolding stamp_each stamp_tag_sequence
stamp_tags-rows [] n db j = (refl, refl, refl)
stamp_tags-rows (id ∷ ids) n db j =
    let (tags, cards, deleted) = stamp_tags-rows ids n (stamp_tag_sequence db id n) j in
    (
      tags ∙ ground (arith, select-update tag_key id j (mark_tag n) db.tags (λ r. refl)),
      cards,
      deleted,
    )

stamp_deleted-rows :
    (ids : List Uuid) (n : ℕ) (db : Db) (j : Uuid)
    → (select deleted_key j (stamp_each stamp_delete_sequence ids n db).deleted_entities
        ≡ marked (mark_deleted n) ids j (select deleted_key j db.deleted_entities))
      × ((stamp_each stamp_delete_sequence ids n db).cards ≡ db.cards)
      × ((stamp_each stamp_delete_sequence ids n db).tags ≡ db.tags)
unfolding stamp_each stamp_delete_sequence
stamp_deleted-rows [] n db j = (refl, refl, refl)
stamp_deleted-rows (id ∷ ids) n db j =
    let (deleted, cards, tags) = stamp_deleted-rows ids n (stamp_delete_sequence db id n) j in
    (
      deleted
          ∙ ground (
            arith,
            select-update deleted_key id j (mark_deleted n) db.deleted_entities (λ r. refl),
          ),
      cards,
      tags,
    )

pub record Marks (a : Affected) (n : ℕ) (db db' : Db) : Type 0 where
  pub cards :
      (j : Uuid)
      → select card_key j db'.cards ≡ marked (mark_card n) a.card_ids j (select card_key j db.cards)
  pub tags :
      (j : Uuid)
      → select tag_key j db'.tags ≡ marked (mark_tag n) a.tag_ids j (select tag_key j db.tags)
  pub deleted :
      (j : Uuid)
      → select deleted_key j db'.deleted_entities
        ≡ marked (mark_deleted n) a.deleted_ids j (select deleted_key j db.deleted_entities)

stamp_affected-Marks : (a : Affected) (n : ℕ) (db : Db) → Marks a n db (stamp_affected a n db)
unfolding stamp_affected
stamp_affected-Marks a n db =
    let db1 = stamp_each stamp_card_sequence a.card_ids n db in
    let db2 = stamp_each stamp_tag_sequence a.tag_ids n db1 in
    record {
      cards = λ j.
          let (c, _, _) = stamp_cards-rows a.card_ids n db j in
          let (_, c', _) = stamp_tags-rows a.tag_ids n db1 j in
          let (_, c'', _) = stamp_deleted-rows a.deleted_ids n db2 j in
          ap (select card_key j) (c'' ∙ c') ∙ c;
      tags = λ j.
          let (_, t, _) = stamp_cards-rows a.card_ids n db j in
          let (t', _, _) = stamp_tags-rows a.tag_ids n db1 j in
          let (_, _, t'') = stamp_deleted-rows a.deleted_ids n db2 j in
          ap (select tag_key j) t''
          ∙ t'
          ∙ ap (λ rs. marked (mark_tag n) a.tag_ids j (select tag_key j rs)) t;
      deleted = λ j.
          let (_, _, d) = stamp_cards-rows a.card_ids n db j in
          let (_, _, d') = stamp_tags-rows a.tag_ids n db1 j in
          let (d'', _, _) = stamp_deleted-rows a.deleted_ids n db2 j in
          d''
          ∙ ap (λ rs. marked (mark_deleted n) a.deleted_ids j (select deleted_key j rs)) (d' ∙ d);
    }

module _ (blake3 : List ℕ → Hash) where
  -- The root leaves the entities alone and has the next number.
  recompute_buckets-tables :
      (db : Db) (bs : List ℕ)
      → ((recompute_buckets blake3 db bs).cards ≡ db.cards)
        × ((recompute_buckets blake3 db bs).tags ≡ db.tags)
        × ((recompute_buckets blake3 db bs).deleted_entities ≡ db.deleted_entities)
        × ((recompute_buckets blake3 db bs).root_sequence ≡ db.root_sequence)
  unfolding recompute_buckets
  recompute_buckets-tables db [] = (refl, refl, refl, refl)
  recompute_buckets-tables db (b ∷ bs) =
      recompute_buckets-tables
        (record db { root_buckets = set db.root_buckets b (recompute_bucket_hash blake3 db b) }) bs

  recompute_root-tables :
      (db : Db) (now : DateTime) (r : Db × ℕ)
      → recompute_root_from_buckets blake3 db now ≡ ok r
      → (r.0.cards ≡ db.cards)
        × (r.0.tags ≡ db.tags)
        × (r.0.deleted_entities ≡ db.deleted_entities)
        × (r.1 ≡ suc db.root_sequence)
  unfolding recompute_root_from_buckets
  recompute_root-tables db now r h =
      elim (Bool-cases (
        leb 9223372036854775807 db.root_sequence
        || any (λ row. row.sequence == suc db.root_sequence) db.root_history)) [
          | inl b ↦ absurd (ground arith)
          | inr b ↦
              let e = ok-inj (rw b at h) in
              (
                ap (λ (r : Db × ℕ). r.0.cards) (sym e),
                ap (λ (r : Db × ℕ). r.0.tags) (sym e),
                ap (λ (r : Db × ℕ). r.0.deleted_entities) (sym e),
                ap (λ (r : Db × ℕ). r.1) (sym e),
              )
        ]

  pub marked_root :
      (a : Affected) (db : Db) (ids : List Uuid) (now : DateTime) (r : Db × ℕ)
      → recompute_root_for_ids blake3 db ids now ≡ ok r
      → Marks a (suc db.root_sequence) db (stamp_affected a r.1 r.0)
  unfolding recompute_root_for_ids
  marked_root a db ids now r h =
      let bs = affected_buckets ids in
      let (c, t, d, s) = recompute_buckets-tables db bs in
      let (c', t', d', s') = recompute_root-tables (recompute_buckets blake3 db bs) now r h in
      let number : r.1 ≡ suc db.root_sequence = s' ∙ ap suc s in
      let m =
        subst (λ n. Marks a n r.0 (stamp_affected a r.1 r.0)) number
          (stamp_affected-Marks a r.1 r.0) in
      let n = suc db.root_sequence in
      record {
        cards = λ j.
            m.cards j
            ∙ ap (λ rs. marked (mark_card n) a.card_ids j (select card_key j rs)) (c' ∙ c);
        tags = λ j.
            m.tags j ∙ ap (λ rs. marked (mark_tag n) a.tag_ids j (select tag_key j rs)) (t' ∙ t);
        deleted = λ j.
            m.deleted j
            ∙ ap (λ rs. marked (mark_deleted n) a.deleted_ids j (select deleted_key j rs)) (d' ∙ d);
      }
