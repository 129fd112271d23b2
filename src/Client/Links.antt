-- ===== src/Client/Links.antt =====
-- The links between cards in clients/lib/src/display.rs. A `HashSet` is the list of its members, and
-- a `HashMap` of cards is read by the identifier, where the last card put in stays.
pub mod Found
pub mod Queued
pub mod Linked
pub mod Connected
pub mod Counts
use blaze_list.Prelude.{
  ℕ, zero, suc, ◌+◌, Bool, true, false, not, ◌&&◌, Option, none, some, List, [], ◌∷◌, ◌++◌, length,
  map, filter, contains, ◌==◌, if◌then◌else◌,
}
use blaze_list.Protocol.Types.{Uuid, Text}
use blaze_list.Protocol.Card.{Card}

-- The loop of `extract_card_links` over the identifiers that are matched.
unfoldable pub links_into : Uuid → List Uuid → List Uuid → List Uuid
links_into own_id seen [] = []
links_into own_id seen (u ∷ us) =
    let new = not (u == own_id) && not (contains seen u) in
    let rest = links_into own_id (if new then u ∷ seen else seen) us in
    if new then u ∷ rest else rest

-- `card_map.get`
unfoldable pub card_of : Uuid → List Card → Option Card
card_of id [] = none
card_of id (c ∷ cs) = elim (card_of id cs) [
  | some d ↦ some d
  | none ↦ if c.id == id then some c else none
]

-- `if visited.insert(id) { queue.push_back(id) }` for each identifier.
unfoldable pub enqueue_each : List Uuid → List Uuid × List Uuid → List Uuid × List Uuid
enqueue_each [] s = s
enqueue_each (id ∷ ids) (visited, queue) =
    enqueue_each ids
      (if contains visited id then (visited, queue) else (id ∷ visited, queue ++ id ∷ []))

-- `uuids_in` is what `UUID_RE` captures and `Uuid` parses, and `mentions` whether a text contains an
-- identifier as `Uuid` prints it.
module _ (uuids_in : Text → List Uuid) (mentions : Text → Uuid → Bool) where
  unfoldable pub extract_card_links : Text → Uuid → List Uuid
  extract_card_links content own_id = links_into own_id [] (uuids_in content)

  unfoldable pub links_back : Uuid → Card → Bool
  links_back card_id c =
      not (c.id == card_id)
      && mentions c.content card_id
      && contains (extract_card_links c.content c.id) card_id

  unfoldable pub extract_back_links : Uuid → List Card → List Uuid
  extract_back_links card_id all_cards =
      map (λ (c : Card). c.id) (filter (links_back card_id) all_cards)

  -- The links of a node's card, where it has one.
  unfoldable pub forward_links : Uuid → List Card → List Uuid
  forward_links node all_cards = elim (card_of node all_cards) [
    | none ↦ []
    | some card ↦ extract_card_links card.content node
  ]

  unfoldable pub enqueue_neighbors :
      Uuid → List Card → List Uuid × List Uuid → List Uuid × List Uuid
  enqueue_neighbors node all_cards s =
      enqueue_each (extract_back_links node all_cards)
        (enqueue_each (forward_links node all_cards) s)

  -- The `while let` loop.
  unfoldable pub expand_loop : List Card → ℕ → List Uuid × List Uuid → List Uuid → List Uuid
  expand_loop all_cards zero s result = result
  expand_loop all_cards (suc fuel) (visited, []) result = result
  expand_loop all_cards (suc fuel) (visited, current ∷ queue) result =
      expand_loop all_cards fuel (enqueue_neighbors current all_cards (visited, queue))
        (result ++ current ∷ [])

  -- The identifiers that the loop can meet: those that the cards mention, and the cards'.
  unfoldable pub link_ids : List Card → List Uuid
  link_ids [] = []
  link_ids (c ∷ cs) = c.id ∷ (uuids_in c.content ++ link_ids cs)

  unfoldable pub expand_linked_cards : Uuid → List Card → List Uuid
  expand_linked_cards card_id all_cards =
      expand_loop all_cards (length (link_ids all_cards))
        (enqueue_neighbors card_id all_cards (card_id ∷ [], [])) []
