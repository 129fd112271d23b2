-- ===== src/Server/Implications.antt =====
-- server/src/storage/sqlite/implications.rs: the check of the tag implications after a batch.
pub mod Overlay
pub mod Checks
use blaze_list.Prelude.{not, none, some, List, [], ◌∷◌, filter, map, contains, last_or}
use blaze_list.Prelude.Btree.{keys, map_insert, map_remove}
use blaze_list.Prelude.Result.{Result, ok, err, ◌>>◌}
use blaze_list.Protocol.Types.{Uuid}
use blaze_list.Protocol.Bytes.{sort_ids}
use blaze_list.Protocol.Tag.{dedup}
use blaze_list.Protocol.Graph.{TagGraph, pairs_into, from_pairs, missing_for_card}
use blaze_list.Protocol.Graph.Cycle.{detect_cycle}
use blaze_list.Protocol.Messages.{PushError, PushItem}
use blaze_list.Server.Errors.{PushOpError, domain}
use blaze_list.Server.Db.{Db, TagRow, CardRow}

abbrev pub UuidMap : Type 0
UuidMap = List (Uuid × List Uuid)

-- The live tags with what they imply, and the live cards with their tags.
unfoldable pub tag_snapshot : Db → UuidMap
tag_snapshot db = pairs_into (map (λ (r : TagRow). (r.tag.id, r.tag.implies)) db.tags) []

unfoldable pub card_snapshot : Db → UuidMap
card_snapshot db = pairs_into (map (λ (r : CardRow). (r.card.id, r.card.tags)) db.cards) []

-- The last version of each item, or its removal.
unfoldable pub overlay_tags : List PushItem → UuidMap → UuidMap
overlay_tags [] m = m
overlay_tags (PushItem.tags [] ∷ items) m = overlay_tags items m
overlay_tags (PushItem.tags (v ∷ vs) ∷ items) m =
    let latest = last_or v vs in overlay_tags items (map_insert latest.id latest.implies m)
overlay_tags (PushItem.cards versions ∷ items) m = overlay_tags items m
overlay_tags (PushItem.delete_tag id ∷ items) m = overlay_tags items (map_remove id m)
overlay_tags (PushItem.delete_card id ∷ items) m = overlay_tags items m

unfoldable pub overlay_cards : List PushItem → UuidMap → UuidMap
overlay_cards [] m = m
overlay_cards (PushItem.tags versions ∷ items) m = overlay_cards items m
overlay_cards (PushItem.cards [] ∷ items) m = overlay_cards items m
overlay_cards (PushItem.cards (v ∷ vs) ∷ items) m =
    let latest = last_or v vs in overlay_cards items (map_insert latest.id latest.tags m)
overlay_cards (PushItem.delete_tag id ∷ items) m = overlay_cards items m
overlay_cards (PushItem.delete_card id ∷ items) m = overlay_cards items (map_remove id m)

-- The first tag, in the order of the map, that implies a tag which is not live.
unfoldable pub check_dangling : List Uuid → UuidMap → Result PushOpError (Unit {0})
check_dangling live [] = ok tt
check_dangling live ((tag_id, implies) ∷ m) =
    let rest = check_dangling live m in
    elim (filter (λ p. not (contains live p)) implies) [
      | [] ↦ rest
      | x ∷ xs ↦ err (domain (PushError.tag_implies_unknown tag_id (dedup (sort_ids (x ∷ xs)))))
    ]

unfoldable pub check_acyclic : TagGraph → Result PushOpError (Unit {0})
check_acyclic g = elim (detect_cycle g) [
  | none ↦ ok tt
  | some cycle ↦ err (domain (PushError.tag_implication_cycle cycle))
]

-- The first card, in the order of the map, whose tags are not closed.
unfoldable pub check_closed : TagGraph → UuidMap → Result PushOpError (Unit {0})
check_closed g [] = ok tt
check_closed g ((card_id, tags) ∷ m) =
    let rest = check_closed g m in
    elim (missing_for_card g tags) [
      | [] ↦ rest
      | x ∷ xs ↦ err (domain (PushError.tag_implication_violation card_id (x ∷ xs)))
    ]

unfoldable pub check_snapshots : UuidMap → UuidMap → Result PushOpError (Unit {0})
check_snapshots tag_implies card_tags = do
  check_dangling (keys tag_implies) tag_implies
  let graph = from_pairs tag_implies
  check_acyclic graph
  check_closed graph card_tags

unfoldable pub validate_batch_implications : Db → List PushItem → Result PushOpError (Unit {0})
validate_batch_implications db items =
    check_snapshots (overlay_tags items (tag_snapshot db)) (overlay_cards items (card_snapshot db))
