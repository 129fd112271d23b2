-- ===== src/Tests/Links.antt =====
-- The links between cards on sample data.
use blaze_list.Prelude.{ℕ, ◌≡◌, ◌↔◌, refl, false, List, [], ◌∷◌, map, contains, In, ◌==◌}
use blaze_list.Prelude.Int.{pos}
use blaze_list.Prelude.Btree.{IsAscending, map_get, map_insert}
use blaze_list.Protocol.Types.{Uuid}
use blaze_list.Protocol.Card.{Card}
use blaze_list.Client.Links.{
  extract_card_links, expand_linked_cards, links_into, expand_loop, enqueue_neighbors, enqueue_each,
  forward_links, extract_back_links, links_back, card_of, link_ids,
}
use blaze_list.Client.Links.Found.{IsDistinct}
use blaze_list.Client.Links.Connected.{Connected, expand_linked_cards-iff_Connected}
use blaze_list.Client.Links.Counts.{
  counts_of, compute_all_link_counts, compute_all_link_counts_recursive, set_transitive_each,
  set_transitive, count_links, classify_each, classify, outgoing_links, outgoing_into, bump,
}
use blaze_list.Client.Links.Counts.Total.{
  linking, card_links, IsCounted, compute_all_link_counts_lem,
}
use blaze_list.Tests.Data.{plain_card}

-- A text's identifiers are its bytes, in the place of what the expression matches.
abbrev sample_links : List ℕ → List Uuid
sample_links t = t

abbrev linked_card : Uuid → List ℕ → Card
linked_card id content = record (plain_card id (pos 3) []) { content = content }

-- The first card links to the second and to one that does not exist, the third to the first.
abbrev linked_cards : List Card
linked_cards = linked_card 1 (2 ∷ 9 ∷ []) ∷ linked_card 2 (1 ∷ []) ∷ linked_card 3 (1 ∷ []) ∷ []

expand_linked_cards-iff_Connected_example :
    IsDistinct (expand_linked_cards sample_links contains 2 linked_cards)
    × ((x : Uuid)
        → In x (expand_linked_cards sample_links contains 2 linked_cards)
          ↔ (Connected sample_links contains linked_cards 2 x × ((x == 2) ≡ false)))
expand_linked_cards-iff_Connected_example =
    expand_linked_cards-iff_Connected sample_links contains linked_cards 2

compute_all_link_counts_lem_example :
    IsAscending (linking sample_links contains linked_cards)
    × ((y : Uuid)
        → contains (linking sample_links contains linked_cards) y
          ≡ contains (map (λ (c : Card). c.id) linked_cards) y)
    × IsCounted
        (card_links sample_links contains linked_cards)
        (linking sample_links contains linked_cards)
        1
        (counts_of (compute_all_link_counts sample_links contains linked_cards) 1)
compute_all_link_counts_lem_example =
    compute_all_link_counts_lem sample_links contains linked_cards 1

-- A link to a card that does not exist counts as a card that is reached through others.
dangling_transitive :
    (counts_of
      (compute_all_link_counts_recursive sample_links contains (linked_card 1 (9 ∷ []) ∷ []))
      1).transitive
    ≡ 1
unfolding compute_all_link_counts_recursive set_transitive_each set_transitive
    compute_all_link_counts count_links classify_each classify outgoing_links outgoing_into bump
    map_get map_insert extract_card_links links_into expand_linked_cards expand_loop
    enqueue_neighbors enqueue_each forward_links extract_back_links links_back card_of link_ids
dangling_transitive = refl
