-- ===== src/Client/Links/Counts/Total.antt =====
-- The counts of all cards, in terms of the links to cards that exist.
use blaze_list.Prelude.{
  ℕ, ◌≡◌, refl, ◌∙◌, ap, subst, Bool, false, not, ◌&&◌, ◌||◌, none, some, List, [], ◌∷◌, filter,
  map, contains, contains-filter, ◌==◌, ==_iff, arith, All,
}
use blaze_list.Prelude.Btree.{
  map_get, map_insert, map_get-map_insert, keys, IsAscending, map_insert-IsAscending,
}
use blaze_list.Protocol.Types.{Uuid, Text}
use blaze_list.Protocol.Card.{Card}
use blaze_list.Protocol.Graph.{or_empty}
use blaze_list.Client.Links.{extract_card_links, forward_links, card_of}
use blaze_list.Client.Links.Found.{IsDistinct, extract_card_links_lem}
use blaze_list.Client.Links.Counts.{
  LinkCounts, counts_of, targets_of, count_links, outgoing_into, outgoing_links,
  compute_all_link_counts,
}
use blaze_list.Client.Links.Counts.Laws.{count, count_links-adds}

filter-IsDistinct : (p : Uuid → Bool) (xs : List Uuid) → IsDistinct xs → IsDistinct (filter p xs)
filter-IsDistinct p [] d = tt
filter-IsDistinct p (x ∷ xs) d = ground (arith, filter-IsDistinct p xs d.1, contains-filter p xs x)

All-entries-map_insert :
    {V : Type 0} (P : V → Type 0) (k : ℕ) (v : V) (m : List (ℕ × V))
    → P v
    → All (λ (e : ℕ × V). P e.1) m
    → All (λ (e : ℕ × V). P e.1) (map_insert k v m)
unfolding map_insert
All-entries-map_insert P k v [] p a = (p, tt)
All-entries-map_insert P k v ((j, w) ∷ m) p a = ground (arith, All-entries-map_insert P k v m p a.1)

map_get_not_key :
    {V : Type 0} (x : ℕ) (m : List (ℕ × V)) → contains (keys m) x ≡ false → map_get x m ≡ none
unfolding map_get
map_get_not_key x [] h = refl
map_get_not_key x ((j, v) ∷ m) h = ground (arith, map_get_not_key x m)

-- The counts of a card's links: those that only it has, those that only others have to it, and
-- those both ways.
abbrev pub IsCounted : (Uuid → List Uuid) → List Uuid → Uuid → LinkCounts → Type 0
IsCounted links linking x c =
    (c.forward ≡ count (λ t. not (contains (links t) x)) (links x))
    × (c.back ≡ count (λ u. contains (links u) x && not (contains (links x) u)) linking)
    × (c.mutual_links ≡ count (λ t. contains (links t) x) (links x))
    × (c.transitive ≡ 0)

contains-keys-map_insert :
    {V : Type 0} (k : ℕ) (v : V) (m : List (ℕ × V)) (y : ℕ)
    → contains (keys (map_insert k v m)) y ≡ (y == k || contains (keys m) y)
unfolding map_insert
contains-keys-map_insert k v [] y = refl
contains-keys-map_insert k v ((j, w) ∷ m) y =
    ground (arith, contains-keys-map_insert k v m y, ==_iff y k, ==_iff y j)

module _ (uuids_in : Text → List Uuid) (mentions : Text → Uuid → Bool) where
  outgoing_into-IsAscending :
      (ids : List Uuid) (cards : List Card) (m : List (Uuid × List Uuid))
      → IsAscending (keys m)
      → IsAscending (keys (outgoing_into uuids_in mentions ids cards m))
  unfolding outgoing_into
  outgoing_into-IsAscending ids [] m a = a
  outgoing_into-IsAscending ids (c ∷ cs) m a =
      outgoing_into-IsAscending ids cs _ (map_insert-IsAscending c.id _ m a)

  outgoing_into-IsDistinct :
      (ids : List Uuid) (cards : List Card) (m : List (Uuid × List Uuid))
      → All (λ (e : Uuid × List Uuid). IsDistinct e.1) m
      → All (λ (e : Uuid × List Uuid). IsDistinct e.1) (outgoing_into uuids_in mentions ids cards m)
  unfolding outgoing_into
  outgoing_into-IsDistinct ids [] m a = a
  outgoing_into-IsDistinct ids (c ∷ cs) m a = outgoing_into-IsDistinct ids cs _ (
      All-entries-map_insert IsDistinct c.id _ m
        (filter-IsDistinct (contains ids) _
          (extract_card_links_lem uuids_in mentions c.content c.id).0)
        a)

  contains-keys-outgoing_into :
      (ids : List Uuid) (cards : List Card) (m : List (Uuid × List Uuid)) (y : Uuid)
      → contains (keys (outgoing_into uuids_in mentions ids cards m)) y
        ≡ (contains (keys m) y || contains (map (λ (c : Card). c.id) cards) y)
  unfolding outgoing_into
  contains-keys-outgoing_into ids [] m y = ground arith
  contains-keys-outgoing_into ids (c ∷ cs) m y =
      let links = filter (contains ids) (extract_card_links uuids_in mentions c.content c.id) in
      ground (
        arith,
        contains-keys-outgoing_into ids cs (map_insert c.id links m) y,
        contains-keys-map_insert c.id links m y,
      )

  map_get-outgoing_into :
      (ids : List Uuid) (cards : List Card) (m : List (Uuid × List Uuid)) (x : Uuid)
      → map_get x (outgoing_into uuids_in mentions ids cards m) ≡ elim (card_of x cards) [
        | none ↦ map_get x m
        | some c ↦ some (filter (contains ids) (extract_card_links uuids_in mentions c.content x))
      ]
  unfolding outgoing_into card_of
  map_get-outgoing_into ids [] m x = refl
  map_get-outgoing_into ids (c ∷ cs) m x =
      let links = filter (contains ids) (extract_card_links uuids_in mentions c.content c.id) in
      ground (
        arith,
        map_get-outgoing_into ids cs (map_insert c.id links m) x,
        map_get-map_insert c.id x links m,
        ==_iff c.id x,
        ==_iff x c.id,
      )

  module _ (cards : List Card) where
    -- The cards that a card links to, among those that exist.
    abbrev pub card_links : Uuid → List Uuid
    card_links x =
        filter (contains (map (λ (c : Card). c.id) cards)) (forward_links uuids_in mentions x cards)

    targets_of-outgoing_links :
        (x : Uuid) → targets_of (outgoing_links uuids_in mentions cards) x ≡ card_links x
    unfolding outgoing_links forward_links map_get
    targets_of-outgoing_links x =
        ground (arith, map_get-outgoing_into (map (λ (c : Card). c.id) cards) cards [] x)

    -- The identifiers of the cards, each once.
    abbrev pub linking : List Uuid
    linking = keys (outgoing_links uuids_in mentions cards)

    -- A link one way counts forward for the card that has it and back for the other, a link both
    -- ways once for each.
    pub compute_all_link_counts_lem :
        (x : Uuid)
        → IsAscending linking
          × ((y : Uuid) → contains linking y ≡ contains (map (λ (c : Card). c.id) cards) y)
          × IsCounted card_links linking x
              (counts_of (compute_all_link_counts uuids_in mentions cards) x)
    unfolding compute_all_link_counts map_get
    compute_all_link_counts_lem x =
        let ids = map (λ (c : Card). c.id) cards in
        let outgoing = outgoing_links uuids_in mentions cards in
        let ascending : IsAscending linking =
          unfold outgoing_links in outgoing_into-IsAscending ids cards [] tt in
        let distinct : All (λ (e : Uuid × List Uuid). IsDistinct e.1) outgoing =
          unfold outgoing_links in outgoing_into-IsDistinct ids cards [] tt in
        let same : targets_of outgoing ≡ card_links = λ i x. targets_of-outgoing_links x i in
        let (f, b, m, t) =
          count_links-adds outgoing outgoing [] x ascending distinct (λ u i. refl) in
        let bare = λ (h : contains linking x ≡ false). ap or_empty (map_get_not_key x outgoing h) in
        (
          ascending,
          λ y. unfold outgoing_links in contains-keys-outgoing_into ids cards [] y,
          subst
              (λ links. IsCounted links linking x (counts_of (count_links outgoing outgoing []) x))
              same (f ∙ ground (arith, bare), b ∙ omega arith, m ∙ ground (arith, bare), t),
        )
