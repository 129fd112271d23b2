-- ===== src/Client/Links/Linked.antt =====
-- The links between cards, said of the cards' texts alone, and the neighbours that `expand_linked_cards`
-- of clients/lib/src/display.rs takes up.
use blaze_list.Prelude.{
  ◌≡◌, ◌⊎◌, inl, inr, ◌↔◌, Bool, true, false, some, List, [], ◌∷◌, contains, In, ◌==◌, ==_iff,
  arith, Bool-cases, Option-cases,
}
use blaze_list.Protocol.Types.{Uuid, Text}
use blaze_list.Protocol.Card.{Card}
use blaze_list.Client.Links.{card_of, extract_back_links, links_back, forward_links}
use blaze_list.Client.Links.Found.{extract_card_links_lem}

module _ (uuids_in : Text → List Uuid) (mentions : Text → Uuid → Bool) where
  -- A link of the card that the map holds under `u`.
  abbrev pub LinksTo : List Card → Uuid → Uuid → Type 0
  LinksTo cards u v =
      (c : Card) × (card_of u cards ≡ some c) × In v (uuids_in c.content) × ((v == u) ≡ false)

  -- A card of the list, under `v`, whose text has a link to `u`, and has it as `Uuid` prints it.
  abbrev pub LinkedFrom : List Card → Uuid → Uuid → Type 0
  LinkedFrom [] u v = ⊥
  LinkedFrom (c ∷ cs) u v =
      ((c.id ≡ v) × ((v == u) ≡ false) × In u (uuids_in c.content) × (mentions c.content u ≡ true))
      ⊎ LinkedFrom cs u v

  pub forward_links-iff_LinksTo :
      (cards : List Card) (u v : Uuid)
      → In v (forward_links uuids_in mentions u cards) ↔ LinksTo cards u v
  unfolding forward_links
  forward_links-iff_LinksTo cards u v = (
    λ m. elim (Option-cases (card_of u cards)) [
      | inl e ↦ absurd (ground arith)
      | inr (c, e) ↦ (
        c,
        e,
        ground (arith, (extract_card_links_lem uuids_in mentions c.content u).1 v),
        ground (arith, (extract_card_links_lem uuids_in mentions c.content u).1 v),
      )
    ],
    λ (c, e, m, n).
        rw (e, forward_links)
          (ground (arith, (extract_card_links_lem uuids_in mentions c.content u).1 v)),
  )

  extract_back_links-LinkedFrom :
      (cards : List Card) (u v : Uuid)
      → In v (extract_back_links uuids_in mentions u cards)
      → LinkedFrom cards u v
  unfolding extract_back_links links_back
  extract_back_links-LinkedFrom [] u v m = cc
  extract_back_links-LinkedFrom (c ∷ cs) u v m =
      elim (Bool-cases (contains (extract_back_links uuids_in mentions u cs) v)) [
        | inl later ↦ inr (extract_back_links-LinkedFrom cs u v later)
        | inr new ↦
            let same : c.id ≡ v = ground (arith, ==_iff c.id v, ==_iff v c.id) in
            inl (
              same,
              ground (
                arith,
                same,
                (extract_card_links_lem uuids_in mentions c.content c.id).1 u,
                ==_iff v u,
              ),
              ground (arith, (extract_card_links_lem uuids_in mentions c.content c.id).1 u),
              ground arith,
            )
      ]

  LinkedFrom-extract_back_links :
      (cards : List Card) (u v : Uuid)
      → LinkedFrom cards u v
      → In v (extract_back_links uuids_in mentions u cards)
  unfolding extract_back_links links_back
  LinkedFrom-extract_back_links [] u v h = elim h [ ]
  LinkedFrom-extract_back_links (c ∷ cs) u v (inl (same, n, m, k)) = ground (
    arith,
    (extract_card_links_lem uuids_in mentions c.content c.id).1 u,
    ==_iff c.id v,
    ==_iff v c.id,
    ==_iff c.id u,
    ==_iff u c.id,
    ==_iff v u,
  )
  LinkedFrom-extract_back_links (c ∷ cs) u v (inr later) =
      ground (arith, LinkedFrom-extract_back_links cs u v later)

  pub extract_back_links-iff_LinkedFrom :
      (cards : List Card) (u v : Uuid)
      → In v (extract_back_links uuids_in mentions u cards) ↔ LinkedFrom cards u v
  extract_back_links-iff_LinkedFrom cards u v =
      (extract_back_links-LinkedFrom cards u v, LinkedFrom-extract_back_links cards u v)
