-- ===== src/Client/Links/Found.antt =====
-- What `extract_card_links` and `extract_back_links` find.
use blaze_list.Prelude.{
  ◌≡◌, refl, Bool, false, not, ◌&&◌, some, List, [], ◌∷◌, contains, contains-append, In, ◌==◌,
  ==_iff, Option-cases, inl, inr, arith,
}
use blaze_list.Protocol.Types.{Uuid, Text}
use blaze_list.Protocol.Card.{Card}
use blaze_list.Client.Links.{
  links_into, card_of, extract_card_links, extract_back_links, forward_links, link_ids,
}

abbrev pub IsDistinct : List Uuid → Type 0
IsDistinct [] = Unit
IsDistinct (x ∷ xs) = (contains xs x ≡ false) × IsDistinct xs

pub contains-links_into :
    (own : Uuid) (seen us : List Uuid) (x : Uuid)
    → contains (links_into own seen us) x
      ≡ (contains us x && not (x == own) && not (contains seen x))
unfolding links_into
contains-links_into own seen [] x = refl
contains-links_into own seen (u ∷ us) x =
    ground (
      arith,
      contains-links_into own (u ∷ seen) us x,
      contains-links_into own seen us x,
      ==_iff x u,
    )

links_into-IsDistinct : (own : Uuid) (seen us : List Uuid) → IsDistinct (links_into own seen us)
unfolding links_into
links_into-IsDistinct own seen [] = tt
links_into-IsDistinct own seen (u ∷ us) = ground (
  arith,
  links_into-IsDistinct own (u ∷ seen) us,
  links_into-IsDistinct own seen us,
  contains-links_into own (u ∷ seen) us u,
)

module _ (uuids_in : Text → List Uuid) (mentions : Text → Uuid → Bool) where
  -- The links of a text are the identifiers in it other than its own, each once.
  pub extract_card_links_lem :
      (content : Text) (own : Uuid)
      → IsDistinct (extract_card_links uuids_in mentions content own)
        × ((x : Uuid)
            → contains (extract_card_links uuids_in mentions content own) x
              ≡ (contains (uuids_in content) x && not (x == own)))
  unfolding extract_card_links
  extract_card_links_lem content own = (
    links_into-IsDistinct own [] (uuids_in content),
    λ x. ground (arith, contains-links_into own [] (uuids_in content) x),
  )

  card_of-link_ids :
      (cards : List Card) (node x : Uuid) (card : Card)
      → card_of node cards ≡ some card
      → In x (uuids_in card.content)
      → In x (link_ids uuids_in mentions cards)
  unfolding card_of link_ids
  card_of-link_ids [] node x card e m = cc
  card_of-link_ids (c ∷ cs) node x card e m = ground (
    arith,
    contains-append (uuids_in c.content) (link_ids uuids_in mentions cs) x,
    card_of-link_ids cs node x card,
  )

  -- What a node's card links to is mentioned by a card.
  pub forward_links-link_ids :
      (cards : List Card) (node x : Uuid)
      → In x (forward_links uuids_in mentions node cards)
      → In x (link_ids uuids_in mentions cards)
  unfolding forward_links
  forward_links-link_ids cards node x m = elim (Option-cases (card_of node cards)) [
    | inl e ↦ absurd (ground (arith))
    | inr (c, e) ↦
        card_of-link_ids cards node x c e
          (ground (arith, (extract_card_links_lem c.content node).1 x))
  ]

  pub back_links-link_ids :
      (cards : List Card) (node x : Uuid)
      → In x (extract_back_links uuids_in mentions node cards)
      → In x (link_ids uuids_in mentions cards)
  unfolding extract_back_links link_ids
  back_links-link_ids [] node x m = cc
  back_links-link_ids (c ∷ cs) node x m = ground (
    arith,
    contains-append (uuids_in c.content) (link_ids uuids_in mentions cs) x,
    back_links-link_ids cs node x,
  )
