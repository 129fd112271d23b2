-- ===== src/System/Converge.antt =====
-- A client that held the server's entities holds them again after it applies the changes since its
-- root: server/src/storage/sqlite/mod.rs with clients/lib/src/sync.rs.
use blaze_list.Prelude.{ℕ, ◌≡◌, ◌∙◌, Option, List, arith, All}
use blaze_list.Prelude.Result.{ok}
use blaze_list.Protocol.Types.{Uuid, Hash, DateTime}
use blaze_list.Protocol.Card.{Card}
use blaze_list.Protocol.Tag.{Tag}
use blaze_list.Protocol.Messages.{Request, ChangeSet}
use blaze_list.Server.Table.{select}
use blaze_list.Server.Table.Keys.{changed}
use blaze_list.Server.Db.{Db, CardRow, TagRow, card_key, tag_key, read_root_state}
use blaze_list.Server.Root.History.{read_root_state_lem}
use blaze_list.Server.Reads.{get_changes_since}
use blaze_list.Server.Reads.Changes.{
  get_changes_since_lem, changes_past, latest-new_cards, latest-new_tags, contains-new_deleted,
}
use blaze_list.Server.Storage.Conforms.{Kinds}
use blaze_list.Server.Storage.Moves.{Moves, Moves-refl}
use blaze_list.Client.Sync.{card_id, tag_id, apply_card_changeset, apply_tag_changeset}
use blaze_list.Client.Sync.Laws.{held, HasDistinctIds, apply_tag_changeset_lem}
use blaze_list.Client.Sync.Held.{latest-eq-held}
use blaze_list.Client.Sync.Cards.{apply_card_changeset_lem}
use blaze_list.System.Trace.{run, ConformsTo, Good, run-Good, run-Moves}

-- The live card and tag under an identifier.
abbrev pub card_at : Db → Uuid → Option Card
card_at db j = changed (λ (r : CardRow). r.card) (select card_key j db.cards)

abbrev pub tag_at : Db → Uuid → Option Tag
tag_at db j = changed (λ (r : TagRow). r.tag) (select tag_key j db.tags)

-- A client's lists hold each live card and tag of the server once, and nothing else.
pub record InSync (db : Db) (cards : List Card) (tags : List Tag) : Type 0 where
  pub cards_once : HasDistinctIds card_id cards
  pub cards_held : (j : Uuid) → held card_id j cards ≡ card_at db j
  pub tags_once : HasDistinctIds tag_id tags
  pub tags_held : (j : Uuid) → held tag_id j tags ≡ tag_at db j

module _ (blake3 : List ℕ → Hash) (is_card : Kinds) where
  module _ (old new : Db) (cards : List Card) (tags : List Tag)
      (m : Moves old.root_sequence old new) (g : Good blake3 is_card new)
      (c : InSync old cards tags) where
    abbrev changes : ChangeSet
    changes = changes_past blake3 is_card new old.root_sequence

    changes-InSync :
        InSync new (apply_card_changeset cards changes) (apply_tag_changeset tags changes)
    changes-InSync =
        let (_, cards_once, cards_held) = apply_card_changeset_lem cards changes in
        let (tags_once, tags_held) = apply_tag_changeset_lem tags changes in
        let k = g.valid.keyed in
        let s = old.root_sequence in
        record {
          cards_once = cards_once;
          cards_held = λ j.
              cards_held j
              ∙ ground (
                arith,
                latest-new_cards blake3 is_card new s j k,
                contains-new_deleted blake3 is_card new s j k,
                latest-eq-held card_id j cards c.cards_once,
                c.cards_held j,
                m.cards j,
                g.orderly.card_apart j,
              );
          tags_once = tags_once;
          tags_held = λ j.
              tags_held j
              ∙ ground (
                arith,
                latest-new_tags blake3 is_card new s j k,
                contains-new_deleted blake3 is_card new s j k,
                latest-eq-held tag_id j tags c.tags_once,
                c.tags_held j,
                m.tags j,
                g.orderly.tag_apart j,
              );
        }

  -- A client in step with a server whose tables are good asks, after requests that conform, for the
  -- changes since its root: it is answered, and in step again once it has applied them.
  pub sync_converges :
      (db : Db) (reqs : List (Request × DateTime)) (cards : List Card) (tags : List Tag)
      → Good blake3 is_card db
      → All (ConformsTo is_card) reqs
      → InSync db cards tags
      → (changes : ChangeSet) × (get_changes_since blake3
            (run blake3 db reqs)
            (record { value = db.root_sequence })
            db.root_hash
          ≡ ok changes)
        × (read_root_state (run blake3 db reqs) ≡ ok changes.root)
        × InSync
            (run blake3 db reqs)
            (apply_card_changeset cards changes)
            (apply_tag_changeset tags changes)
  sync_converges db reqs cards tags g conform c =
      let new = run blake3 db reqs in
      let g' = run-Good blake3 is_card db reqs conform g in
      let (m, agrees) =
        run-Moves blake3 is_card db db reqs db.root_hash conform g (omega arith)
          (Moves-refl db.root_sequence db) g.recorded in
      (
        changes_past blake3 is_card new db.root_sequence,
        get_changes_since_lem blake3 is_card new (record { value = db.root_sequence }) db.root_hash
            g'.valid.keyed g'.orderly g'.in_range agrees,
        read_root_state_lem new g'.in_range,
        changes-InSync db new cards tags m g' c,
      )
