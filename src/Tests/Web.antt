-- ===== src/Tests/Web.antt =====
-- The burst of moves and the offline queue on sample data.
use blaze_list.Prelude.{inl, ◌≡◌, refl, false, some, List, [], ◌∷◌, map, arith}
use blaze_list.Prelude.Int.{ℤ, pos}
use blaze_list.Prelude.Btree.{IsAscending}
use blaze_list.Protocol.Types.{Uuid}
use blaze_list.Protocol.Card.{Card}
use blaze_list.Server.Db.{Db, empty_db}
use blaze_list.Client.Sync.{card_id}
use blaze_list.Client.Sync.Laws.{held}
use blaze_list.Web.Burst.{new_burst, apply_moves, build_versions}
use blaze_list.Web.Burst.Laws.{first_base, last_target, all_siblings, final_priority}
use blaze_list.Web.Burst.Versions.{HasNext, OfSome, IsMoveOf, Shifted, build_versions_lem}
use blaze_list.Prelude.Result.{Result, err}
use blaze_list.Protocol.Messages.{Request, Response}
use blaze_list.Client.Requests.{ClientError}
use blaze_list.Web.Queue.{Flush, flush_each}
use blaze_list.Web.Queue.Watched.{Watched, watch, CalmFlush}
use blaze_list.Web.Queue.Lost.{flush_each-IsCalm}
use blaze_list.Web.Push.{Local}
use blaze_list.Web.Drag.{below, drop_position}
use blaze_list.Web.Drag.Laws.{IsDrop, drop_position_lem}
use blaze_list.Tests.Data.{sample_hash, same_text, plain_card, three_cards}

-- Two moves of the first card; the second sibling is shifted twice.
abbrev moves : List (ℤ × List (Card × ℤ))
moves =
    (pos 15, (plain_card 2 (pos 20) [], pos 21) ∷ (plain_card 3 (pos 30) [], pos 31) ∷ [])
    ∷ (pos 16, (plain_card 2 (pos 21) [], pos 22) ∷ [])
    ∷ []

siblings_have_next : (j : Uuid) → OfSome HasNext (first_base j (all_siblings moves))
siblings_have_next j = ground arith

build_versions_lem_example :
    (primary : Card) × (siblings : List Card) × (build_versions sample_hash
        (pos 9)
        (apply_moves moves (new_burst (plain_card 1 (pos 10) []) (pos 10)))
      ≡ some (primary, siblings))
    × IsMoveOf sample_hash
        (pos 9)
        (plain_card 1 (pos 10) [])
        (final_priority (pos 10) moves)
        primary
    × IsAscending (map card_id siblings)
    × ((j : Uuid)
        → Shifted sample_hash
            (pos 9)
            (first_base j (all_siblings moves))
            (last_target j (all_siblings moves))
            (held card_id j siblings))
build_versions_lem_example =
    build_versions_lem sample_hash (pos 9) (plain_card 1 (pos 10) []) (pos 10) moves (omega arith)
      siblings_have_next

-- No request is answered.
abbrev dead : Db → Request → Db × Result ClientError Response
dead db req = (db, err ClientError.connection_lost)

abbrev unasked : Flush (Watched Db)
unasked = record {
  server = record { inner = empty_db; lost = false; late = false };
  cards = three_cards;
  hit_connection_error = false;
}

flush_each-IsCalm_example :
    CalmFlush dead
      (flush_each (watch dead) sample_hash (λ n. 0) (pos 9) same_text unasked three_cards)
flush_each-IsCalm_example =
    flush_each-IsCalm dead sample_hash (λ n. 0) (pos 9) same_text unasked three_cards
      (refl, inl refl)

drop_position_lem_example : IsDrop three_cards 1 3 below (drop_position three_cards 1 3 below)
drop_position_lem_example = drop_position_lem three_cards 1 3 below (refl, (refl, (refl, tt)))

abbrev local : Local Db
local = record {
  server = some empty_db;
  cards = three_cards;
  offline_queue = plain_card 1 (pos 7) [] ∷ [];
}
