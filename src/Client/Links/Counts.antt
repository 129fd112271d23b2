-- ===== src/Client/Links/Counts.antt =====
-- `compute_all_link_counts` and its recursive form in clients/lib/src/display.rs. A `HashMap` is
-- read in the order of its keys: the counts are sums, and no order of the entries shows in them.
pub mod Laws
pub mod Total
use blaze_list.Prelude.{
  ℕ, ◌+◌, ◌-◌, Bool, true, false, Option, none, some, List, [], ◌∷◌, length, filter, map, contains,
  if◌then◌else◌,
}
use blaze_list.Prelude.Btree.{map_get, map_insert}
use blaze_list.Protocol.Types.{Uuid, Text}
use blaze_list.Protocol.Card.{Card}
use blaze_list.Protocol.Graph.{or_empty}
use blaze_list.Client.Links.{extract_card_links, expand_linked_cards}

pub record LinkCounts : Type 0 where
  pub forward : ℕ
  pub back : ℕ
  pub mutual_links : ℕ
  pub transitive : ℕ

abbrev pub default_counts : LinkCounts
default_counts = record { forward = 0; back = 0; mutual_links = 0; transitive = 0 }

-- `entry(id).or_default()`
abbrev pub or_default : Option LinkCounts → LinkCounts
or_default none = default_counts
or_default (some c) = c

abbrev pub counts_of : List (Uuid × LinkCounts) → Uuid → LinkCounts
counts_of counts id = or_default (map_get id counts)

unfoldable pub bump :
    Uuid → (LinkCounts → LinkCounts) → List (Uuid × LinkCounts) → List (Uuid × LinkCounts)
bump id f counts = map_insert id (f (counts_of counts id)) counts

abbrev pub add_forward : LinkCounts → LinkCounts
add_forward c = record c { forward = c.forward + 1 }

abbrev pub add_back : LinkCounts → LinkCounts
add_back c = record c { back = c.back + 1 }

abbrev pub add_mutual : LinkCounts → LinkCounts
add_mutual c = record c { mutual_links = c.mutual_links + 1 }

abbrev pub targets_of : List (Uuid × List Uuid) → Uuid → List Uuid
targets_of outgoing id = or_empty (map_get id outgoing)

-- The body of the inner loop.
unfoldable pub classify :
    List (Uuid × List Uuid) → Uuid → Uuid → List (Uuid × LinkCounts) → List (Uuid × LinkCounts)
classify outgoing own target counts =
    if contains (targets_of outgoing target) own
    then bump own add_mutual counts
    else bump target add_back (bump own add_forward counts)

unfoldable pub classify_each :
    List (Uuid × List Uuid) → Uuid → List Uuid → List (Uuid × LinkCounts) → List (Uuid × LinkCounts)
classify_each outgoing own [] counts = counts
classify_each outgoing own (target ∷ links) counts =
    classify_each outgoing own links (classify outgoing own target counts)

unfoldable pub count_links :
    List (Uuid × List Uuid)
    → List (Uuid × List Uuid)
    → List (Uuid × LinkCounts)
    → List (Uuid × LinkCounts)
count_links outgoing [] counts = counts
count_links outgoing ((own, links) ∷ rest) counts =
    count_links outgoing rest (classify_each outgoing own links counts)

-- `counts.entry(id).or_default().transitive = …` for each card.
abbrev pub with_transitive : ℕ → LinkCounts → LinkCounts
with_transitive n c = record c { transitive = n }

module _ (uuids_in : Text → List Uuid) (mentions : Text → Uuid → Bool) where
  unfoldable pub outgoing_into :
      List Uuid → List Card → List (Uuid × List Uuid) → List (Uuid × List Uuid)
  outgoing_into card_ids [] m = m
  outgoing_into card_ids (c ∷ cs) m = outgoing_into card_ids cs (
      map_insert c.id
        (filter (contains card_ids) (extract_card_links uuids_in mentions c.content c.id)) m)

  -- Each card's links to cards that exist.
  unfoldable pub outgoing_links : List Card → List (Uuid × List Uuid)
  outgoing_links cards = outgoing_into (map (λ (c : Card). c.id) cards) cards []

  unfoldable pub compute_all_link_counts : List Card → List (Uuid × LinkCounts)
  compute_all_link_counts cards =
      let outgoing = outgoing_links cards in count_links outgoing outgoing []

  -- The body of the loop of `compute_all_link_counts_recursive`.
  unfoldable pub set_transitive :
      List Card → Card → List (Uuid × LinkCounts) → List (Uuid × LinkCounts)
  set_transitive cards card counts =
      let expanded = expand_linked_cards uuids_in mentions card.id cards in
      let lc = counts_of counts card.id in
      bump card.id (with_transitive (length expanded - (lc.forward + lc.back + lc.mutual_links)))
        counts

  unfoldable pub set_transitive_each :
      List Card → List Card → List (Uuid × LinkCounts) → List (Uuid × LinkCounts)
  set_transitive_each cards [] counts = counts
  set_transitive_each cards (card ∷ rest) counts =
      set_transitive_each cards rest (set_transitive cards card counts)

  unfoldable pub compute_all_link_counts_recursive : List Card → List (Uuid × LinkCounts)
  compute_all_link_counts_recursive cards =
      set_transitive_each cards cards (compute_all_link_counts cards)
