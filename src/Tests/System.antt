-- ===== src/Tests/System.antt =====
-- A server that began with empty tables, and a client in step with it, on sample data.
use blaze_list.Prelude.{◌≡◌, ◌==◌, refl, none, List, [], ◌∷◌, All}
use blaze_list.Prelude.Int.{pos}
use blaze_list.Prelude.Btree.{set_insert, set_of}
use blaze_list.Prelude.Result.{Result, ok}
use blaze_list.Protocol.Types.{DateTime}
use blaze_list.Protocol.Card.{Card}
use blaze_list.Protocol.Tag
use blaze_list.Protocol.Tag.{Tag, first_with_implies, dedup, normalize_implies}
use blaze_list.Protocol.Bytes.{sort_ids}
use blaze_list.Protocol.Messages.{Request, Response, ChangeSet, extinguished_cards}
use blaze_list.Protocol.Card
use blaze_list.Prelude.Sort.{insert_by, sort_by}
use blaze_list.Server.Db.{Db, empty_db, read_root_state}
use blaze_list.Server.Table.{select}
use blaze_list.Server.Storage.Conforms.{Kinds}
use blaze_list.Server.Reads.{get_changes_since}
use blaze_list.Client.Sync.{apply_card_changeset, apply_tag_changeset}
use blaze_list.System.Trace.{run, ConformsTo, Good, run-Good, empty_db-Good}
use blaze_list.System.Converge.{InSync, sync_converges}
use blaze_list.Client.Requests
use blaze_list.Client.Requests.{ClientError}
use blaze_list.System.Answers.{served, IsExpected, client-IsExpected}
use blaze_list.Tests.Data.{sample_hash, batch, plain_card, plain_tag, three_cards}

-- The third identifier is a card's.
abbrev third_is_card : Kinds
third_is_card id = id == 3

abbrev requests : List (Request × DateTime)
requests = (Request.push_batch batch, pos 9) ∷ (Request.delete_card 3, pos 12) ∷ []

requests_conform : All (ConformsTo third_is_card) requests
unfolding Tag.seal first_with_implies Card.seal Card.first normalize_implies dedup set_of set_insert
    insert_by sort_by sort_ids
requests_conform =
    (((refl, tt, (tt, tt)), ((refl, tt, ((tt, tt), tt)), ((refl, tt), tt))), ((refl, tt), tt))

empty-InSync : InSync empty_db [] []
unfolding empty_db select
empty-InSync = record {
  cards_once = tt;
  cards_held = λ j. refl;
  tags_once = tt;
  tags_held = λ j. refl;
}

run-Good_example : Good sample_hash third_is_card (run sample_hash empty_db requests)
run-Good_example =
    run-Good sample_hash third_is_card empty_db requests requests_conform
      (empty_db-Good sample_hash third_is_card)

sync_converges_example :
    (changes : ChangeSet) × (get_changes_since sample_hash
        (run sample_hash empty_db requests)
        (record { value = empty_db.root_sequence })
        empty_db.root_hash
      ≡ ok changes)
    × (read_root_state (run sample_hash empty_db requests) ≡ ok changes.root)
    × InSync
        (run sample_hash empty_db requests)
        (apply_card_changeset [] changes)
        (apply_tag_changeset [] changes)
sync_converges_example =
    sync_converges sample_hash third_is_card empty_db requests [] []
      (empty_db-Good sample_hash third_is_card) requests_conform empty-InSync

abbrev server : Db → Request → Db × Result ClientError Response
server = served sample_hash (pos 9)

client-IsExpected_example :
    IsExpected (Requests.list_cards server empty_db extinguished_cards).1
    × IsExpected (Requests.push_card server empty_db (plain_card 1 (pos 3) [])).1
    × IsExpected (Requests.push_card_versions server empty_db three_cards).1
    × IsExpected (Requests.delete_card server empty_db 1).1
    × IsExpected (Requests.get_card_history server empty_db 1).1
    × IsExpected (Requests.get_card server empty_db 1).1
    × IsExpected (Requests.get_root server empty_db).1
    × IsExpected (Requests.get_changes_since server empty_db (record { value = 0 }) 0).1
    × IsExpected (Requests.get_tag_history server empty_db 1).1
    × IsExpected (Requests.list_tags server empty_db).1
    × IsExpected (Requests.push_tag server empty_db (plain_tag 2 [])).1
    × IsExpected (Requests.delete_tag server empty_db 1).1
    × IsExpected (Requests.get_sequence_history server empty_db).1
    × IsExpected (Requests.push_batch server empty_db batch).1
    × IsExpected (Requests.get_all_card_histories server empty_db none none).1
    × IsExpected (Requests.get_all_tag_histories server empty_db none none).1
client-IsExpected_example =
    client-IsExpected sample_hash (pos 9) empty_db extinguished_cards (plain_card 1 (pos 3) [])
      three_cards (plain_tag 2 []) 1 batch (record { value = 0 }) 0 none none
