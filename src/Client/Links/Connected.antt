-- ===== src/Client/Links/Connected.antt =====
-- `expand_linked_cards` of clients/lib/src/display.rs, and the identifiers that links lead to.
use blaze_list.Prelude.{
  ℕ, zero, suc, ◌≤◌, ◌≡◌, refl, sym, subst, ◌⊎◌, inl, inr, ◌↔◌, Bool, true, false, ◌||◌, List, [],
  ◌∷◌, ◌++◌, contains, contains-append, In, Bool-cases, ◌==◌, ==_iff, ==_refl, arith,
}
use blaze_list.Protocol.Types.{Uuid, Text}
use blaze_list.Protocol.Card.{Card}
use blaze_list.Client.Links.{
  enqueue_each, extract_back_links, forward_links, enqueue_neighbors, expand_loop, link_ids,
  expand_linked_cards,
}
use blaze_list.Client.Links.Found.{IsDistinct, forward_links-link_ids, back_links-link_ids}
use blaze_list.Client.Links.Linked.{
  LinksTo, LinkedFrom, forward_links-iff_LinksTo, extract_back_links-iff_LinkedFrom,
}
use blaze_list.Client.Links.Queued.{
  unseen_le, Queued, contains-enqueue_each, enqueue_each-Queued, enqueue_each-work, work,
  append_assoc, append-nil,
}

module _ (uuids_in : Text → List Uuid) (mentions : Text → Uuid → Bool) (all_cards : List Card) where
  -- A link either way: a card's own, or that of a card which links to it.
  abbrev pub Linked : Uuid → Uuid → Type 0
  Linked u v = LinksTo uuids_in mentions all_cards u v ⊎ LinkedFrom uuids_in mentions all_cards u v

  -- The same, as the code finds it.
  abbrev Neighbor : Uuid → Uuid → Type 0
  Neighbor u v =
      In v (forward_links uuids_in mentions u all_cards)
      ⊎ In v (extract_back_links uuids_in mentions u all_cards)

  Linked-iff_Neighbor : (u v : Uuid) → Linked u v ↔ Neighbor u v
  Linked-iff_Neighbor u v =
      let (f, f') = forward_links-iff_LinksTo uuids_in mentions all_cards u v in
      let (b, b') = extract_back_links-iff_LinkedFrom uuids_in mentions all_cards u v in
      (
        λ l. elim l [ inl m ↦ inl (f' m) | inr m ↦ inr (b' m) ],
        λ n. elim n [ inl m ↦ inl (f m) | inr m ↦ inr (b m) ],
      )

  -- What links lead to.
  pub data Connected (start : Uuid) : Uuid → Type 0 where
    here : Connected start start
    along : {u v : Uuid} → Connected start u → Linked u v → Connected start v

  abbrev known : List Uuid
  known = link_ids uuids_in mentions all_cards

  abbrev after : Uuid → List Uuid → List Uuid → List Uuid × List Uuid
  after node visited queue = enqueue_neighbors uuids_in mentions node all_cards (visited, queue)

  contains-after :
      (node : Uuid) (visited queue : List Uuid) (x : Uuid)
      → contains (after node visited queue).0 x ≡ (
          contains visited x
          || (contains (forward_links uuids_in mentions node all_cards) x
              || contains (extract_back_links uuids_in mentions node all_cards) x))
  unfolding enqueue_neighbors
  contains-after node visited queue x = ground (
    arith,
    contains-enqueue_each (forward_links uuids_in mentions node all_cards) visited queue x,
    contains-enqueue_each (extract_back_links uuids_in mentions node all_cards)
        (enqueue_each (forward_links uuids_in mentions node all_cards) (visited, queue)).0
        (enqueue_each (forward_links uuids_in mentions node all_cards) (visited, queue)).1 x,
  )

  after-work :
      (node : Uuid) (visited queue : List Uuid)
      → work known (after node visited queue) ≤ work known (visited, queue)
  unfolding enqueue_neighbors
  after-work node visited queue = omega (
    arith,
    enqueue_each-work known (forward_links uuids_in mentions node all_cards) visited queue
        (λ x m. forward_links-link_ids uuids_in mentions all_cards node x m),
    enqueue_each-work known (extract_back_links uuids_in mentions node all_cards)
        (enqueue_each (forward_links uuids_in mentions node all_cards) (visited, queue)).0
        (enqueue_each (forward_links uuids_in mentions node all_cards) (visited, queue)).1
        (λ x m. back_links-link_ids uuids_in mentions all_cards node x m),
  )

  after-Queued :
      (start node : Uuid) (result visited queue : List Uuid)
      → Queued start result visited queue
      → Queued start result (after node visited queue).0 (after node visited queue).1
  unfolding enqueue_neighbors
  after-Queued start node result visited queue q =
      enqueue_each-Queued start result (extract_back_links uuids_in mentions node all_cards) _ _ (
        enqueue_each-Queued start result (forward_links uuids_in mentions node all_cards) visited
          queue q)

  module _ (start : Uuid) where
    record Inv (result visited queue : List Uuid) : Type 0 where
      queued : Queued start result visited queue
      reached : (x : Uuid) → In x visited → Connected start x
      closed : (u v : Uuid) → (u == start || contains result u) ≡ true → Neighbor u v → In v visited

    Connected-after :
        (node x : Uuid) (visited queue : List Uuid)
        → Connected start node
        → ((x : Uuid) → In x visited → Connected start x)
        → In x (after node visited queue).0
        → Connected start x
    Connected-after node x visited queue n k m = elim (Bool-cases (contains visited x)) [
      | inl old ↦ k x old
      | inr new ↦ elim (Bool-cases (contains (forward_links uuids_in mentions node all_cards) x)) [
        | inl f ↦ along n ((Linked-iff_Neighbor node x).1 (inl f))
        | inr f ↦ along n (
            (Linked-iff_Neighbor node x).1
              (inr (ground (arith, contains-after node visited queue x))))
      ]
    ]

    Inv-start : Inv [] (after start (start ∷ []) []).0 (after start (start ∷ []) []).1
    Inv-start = record {
      queued =
          after-Queued start start [] (start ∷ []) []
            (record { members = λ x. ground arith; distinct = tt; apart = refl });
      reached = λ x.
          Connected-after start x (start ∷ []) [] here
            λ y m. subst (Connected start) (sym ((==_iff y start).0 (ground arith))) here;
      closed = λ u v m l.
          subst (λ n. Neighbor n v → In v (after start (start ∷ []) []).0)
            (sym ((==_iff u start).0 (ground arith)))
            (λ k. ground (arith, contains-after start (start ∷ []) [] v)) l;
    }

    Inv-round :
        (result visited queue : List Uuid) (current : Uuid)
        → Inv result visited (current ∷ queue)
        → Inv
            (result ++ current ∷ [])
            (after current visited queue).0
            (after current visited queue).1
    Inv-round result visited queue current h =
        let flat = append_assoc result (current ∷ []) queue in
        let q : Queued start (result ++ current ∷ []) visited queue = record {
          members = λ x. rw flat (h.queued.members x);
          distinct = rw flat h.queued.distinct;
          apart = rw flat h.queued.apart;
        } in
        let waiting : In current visited = ground (
          arith,
          h.queued.members current,
          contains-append result (current ∷ queue) current,
          ==_refl current,
        ) in
        record {
          queued = after-Queued start current (result ++ current ∷ []) visited queue q;
          reached =
              λ x. Connected-after current x visited queue (h.reached current waiting) h.reached;
          closed = λ u v m l. elim (Bool-cases (u == current)) [
            | inl e ↦
                subst (λ n. Neighbor n v → In v (after current visited queue).0)
                  (sym ((==_iff u current).0 e))
                  (λ k. ground (arith, contains-after current visited queue v)) l
            | inr e ↦ ground (
              arith,
              contains-after current visited queue v,
              h.closed u v (ground (arith, contains-append result (current ∷ []) u)) l,
            )
          ];
        }

    Ended : List Uuid → Type 0
    Ended result = (visited : List Uuid) × Inv result visited []

    expand_loop-Ended :
        (fuel : ℕ) (result visited queue : List Uuid)
        → Inv result visited queue
        → work known (visited, queue) ≤ fuel
        → Ended (expand_loop uuids_in mentions all_cards fuel (visited, queue) result)
    unfolding expand_loop Ended
    expand_loop-Ended zero result visited [] h w = (visited, h)
    expand_loop-Ended zero result visited (current ∷ queue) h w = absurd (omega arith)
    expand_loop-Ended (suc fuel) result visited [] h w = (visited, h)
    expand_loop-Ended (suc fuel) result visited (current ∷ queue) h w =
        expand_loop-Ended fuel (result ++ current ∷ []) (after current visited queue).0
          (after current visited queue).1 (Inv-round result visited queue current h)
          (omega (arith, after-work current visited queue))

    expand_linked_cards-Ended : Ended (expand_linked_cards uuids_in mentions start all_cards)
    unfolding expand_linked_cards
    expand_linked_cards-Ended =
        expand_loop-Ended _ [] (after start (start ∷ []) []).0 (after start (start ∷ []) []).1
          Inv-start (omega (arith, after-work start (start ∷ []) [], unseen_le (start ∷ []) known))

    Connected-met :
        (result visited : List Uuid) (x : Uuid)
        → Inv result visited []
        → Connected start x
        → (x == start || contains result x) ≡ true
    Connected-met result visited x h here = ground (arith, ==_refl start)
    Connected-met result visited x h (along {u} r l) = ground (
      arith,
      h.queued.members x,
      contains-append result [] x,
      h.closed u x (Connected-met result visited u h r) ((Linked-iff_Neighbor u x).0 l),
    )

  -- The identifiers found from a card are all that links lead to, along them, or against them where
  -- the linking text has the identifier as `Uuid` prints it, without the card's own and each once.
  pub expand_linked_cards-iff_Connected :
      (card_id : Uuid)
      → IsDistinct (expand_linked_cards uuids_in mentions card_id all_cards)
        × ((x : Uuid)
            → In x (expand_linked_cards uuids_in mentions card_id all_cards)
              ↔ (Connected card_id x × ((x == card_id) ≡ false)))
  unfolding Ended
  expand_linked_cards-iff_Connected card_id =
      let found = expand_linked_cards uuids_in mentions card_id all_cards in
      let (visited, h) = expand_linked_cards-Ended card_id in
      let all : found ++ [] ≡ found = append-nil found in
      (
        subst IsDistinct all h.queued.distinct,
        λ x. (
          λ m. (
            h.reached x (ground (arith, h.queued.members x, contains-append found [] x)),
            ground (
              arith,
              h.queued.apart,
              contains-append found [] x,
              contains-append found [] card_id,
              ==_iff x card_id,
            ),
          ),
          λ (c, n). ground (arith, Connected-met card_id found visited x h c),
        ),
      )
