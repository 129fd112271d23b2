-- ===== src/Web/Queue.antt =====
-- The offline queue of clients/wasm/src/state/sync.rs with `upsert_card` of store.rs: edits that could
-- not be pushed, and the flush that pushes them after a sync. The transport is a parameter, a
-- function from the state of the other side. A panic is `none`. The writes to the browser's storage
-- and the toast are left out, and one time is read for the whole flush.
pub mod Fates
pub mod Steps
pub mod Branches
pub mod Pushed
pub mod Kept
pub mod Watched
pub mod Lost
use blaze_list.Prelude.{
  ℕ, Bool, true, false, not, Option, none, some, List, [], ◌∷◌, ◌++◌, map, filter, ◌==◌,
  if◌then◌else◌,
}
use blaze_list.Prelude.Int.{ℤ}
use blaze_list.Prelude.Result.{Result, ok, err}
use blaze_list.Protocol.Types.{Uuid, Hash, DateTime, Text, zero_hash}
use blaze_list.Protocol.Card
use blaze_list.Protocol.Card.{Card, next}
use blaze_list.Protocol.Messages.{Request, Response, ProtocolError, PushError, PushItem, RootState}
use blaze_list.Client.Priority.{
  Placement, simple, rebalanced, resolve_collision, build_shifted_versions,
}
use blaze_list.Client.SortOrder.{sort_by_priority}
use blaze_list.Client.Sync.{reconcile_offline_queue}
use blaze_list.Client.Requests.{ClientError, push_card, push_batch, get_card}

unfoldable pub upsert_card : Card → List Card → List Card
upsert_card card cards = filter (λ (c : Card). not (c.id == card.id)) cards ++ card ∷ []

unfoldable pub upsert_each : List Card → List Card → List Card
upsert_each cards [] = cards
upsert_each cards (c ∷ cs) = upsert_each (upsert_card c cards) cs

module _ (blake3 : List ℕ → Hash) (now : DateTime) where
  unfoldable pub rebuild_card : Card → ℤ → Option Card → Option Card
  rebuild_card card priority (some a) =
      next blake3 a card.content priority card.tags card.blazed now card.due_date
  rebuild_card card priority none = some (
      Card.first blake3 card.id card.content priority card.tags card.blazed card.created_at
        card.due_date)

-- What becomes of a queued card: a version of it was accepted, it stays in the queue, or it goes.
pub data Fate : Type 0 where
  sent kept : Card → Fate
  dropped : Fate

-- The state that the loop of the flush changes, the queue apart.
pub record Flush (S : Type 0) : Type 0 where
  pub server : S
  pub cards : List Card
  pub hit_connection_error : Bool

-- After a push that is tried again: a failure keeps the card.
abbrev pub settled :
    {S : Type 0}
    → List Card
    → List Card
    → Fate
    → Card
    → S × Result ClientError RootState
    → Flush S × Fate
settled old new done card (s, ok root) =
    (record { server = s; cards = new; hit_connection_error = false }, done)
settled old new done card (s, err ClientError.connection_lost) =
    (record { server = s; cards = old; hit_connection_error = true }, kept card)
settled old new done card (s, err e) =
    (record { server = s; cards = old; hit_connection_error = false }, kept card)

-- After a push of a rebased card: a rejection drops it.
abbrev pub settled_rebase :
    {S : Type 0} → List Card → Card → Card → S × Result ClientError RootState → Flush S × Fate
settled_rebase cards rebased card (s, ok root) = (
  record { server = s; cards = upsert_card rebased cards; hit_connection_error = false },
  sent rebased,
)
settled_rebase cards rebased card (s, err ClientError.connection_lost) =
    (record { server = s; cards = cards; hit_connection_error = true }, kept card)
settled_rebase cards rebased card (s, err e) =
    (record { server = s; cards = cards; hit_connection_error = false }, dropped)

-- The cards that stay in the queue.
unfoldable pub remaining_of : List Fate → List Card
remaining_of [] = []
remaining_of (sent c ∷ fates) = remaining_of fates
remaining_of (kept c ∷ fates) = c ∷ remaining_of fates
remaining_of (dropped ∷ fates) = remaining_of fates

module _ {S : Type 0} (request : S → Request → S × Result ClientError Response)
    (blake3 : List ℕ → Hash) (random : ℕ → ℕ) (now : DateTime) where
  -- A card whose priority is taken gets a new one, and others are shifted where that is needed.
  unfoldable pub place_with :
      Flush S → Card → List Card → Option Card → Placement → Option (Flush S × Fate)
  place_with st card cards ancestor (simple new_priority) =
      elim (rebuild_card blake3 now card new_priority ancestor) [
        | none ↦ none
        | some retry ↦ some (
            settled st.cards (upsert_card retry st.cards) (sent retry) card
              (push_card request st.server retry))
      ]
  place_with st card cards ancestor (rebalanced priority shifted) =
      elim (rebuild_card blake3 now card priority ancestor) [
        | none ↦ none
        | some retry ↦ elim (build_shifted_versions blake3 shifted cards now) [
          | none ↦ none
          | some shifted_cards ↦ some (
              settled st.cards (upsert_card retry (upsert_each st.cards shifted_cards)) (sent retry)
                card
                (push_batch request st.server (
                  map (λ (c : Card). PushItem.cards (c ∷ [])) shifted_cards
                  ++ PushItem.cards (retry ∷ []) ∷ [])))
        ]
      ]

  abbrev pub place_again : Flush S → Card → List Card → Option Card → Option (Flush S × Fate)
  place_again st card cards ancestor =
      place_with st card cards ancestor (resolve_collision random cards card.priority)

  -- A card that follows a version of the server's is placed on top of the server's latest.
  unfoldable pub place_on :
      Flush S → Card → List Card → S × Result ClientError Card → Option (Flush S × Fate)
  place_on st card cards (s, ok server_card) =
      place_again (record st { server = s }) card cards (some server_card)
  place_on st card cards (s, err ClientError.connection_lost) =
      some (record st { server = s; hit_connection_error = true }, kept card)
  place_on st card cards (s, err e) = some (record st { server = s }, kept card)

  -- The branch of a priority collision.
  unfoldable pub collide : (Text → Text) → Flush S → Card → Option (Flush S × Fate)
  collide to_lowercase st card =
      let others = filter (λ (c : Card). not (c.id == card.id)) st.cards in
      let cards = sort_by_priority to_lowercase others in
      if card.ancestor_hash == zero_hash
      then place_again st card cards none
      else place_on st card cards (get_card request st.server card.id)

  -- The branch of a stale ancestor.
  unfoldable pub rebase : Flush S → Card → Card → Option (Flush S × Fate)
  rebase st card server_card =
      elim (rebuild_card blake3 now card card.priority (some server_card)) [
        | none ↦ none
        | some rebased ↦
            some (settled_rebase st.cards rebased card (push_card request st.server rebased))
      ]

  -- The branch of a card that the server does not have.
  unfoldable pub recreate : Flush S → Card → Option (Flush S × Fate)
  recreate st card = elim (rebuild_card blake3 now card card.priority none) [
    | none ↦ none
    | some recreated ↦ some (
        settled st.cards (upsert_card recreated st.cards) (sent recreated) recreated
          (push_card request st.server recreated))
  ]

  -- The branches on what a push answers.
  unfoldable pub on_pushed :
      (Text → Text) → Flush S → Card → S × Result ClientError RootState → Option (Flush S × Fate)
  on_pushed to_lowercase st card (s, ok root) =
      some (record st { server = s; cards = upsert_card card st.cards }, sent card)
  on_pushed to_lowercase st card
        (
          s,
          err (ClientError.protocol (ProtocolError.push_failed (PushError.duplicate_priority _ _))),
        ) =
      collide to_lowercase (record st { server = s }) card
  on_pushed to_lowercase st card
        (
          s,
          err (
              ClientError.protocol
                (ProtocolError.push_failed (PushError.card_ancestor_mismatch server_card))),
        ) =
      rebase (record st { server = s }) card server_card
  on_pushed to_lowercase st card
        (
          s,
          err (ClientError.protocol (ProtocolError.push_failed PushError.hash_verification_failed)),
        ) =
      recreate (record st { server = s }) card
  on_pushed to_lowercase st card
        (s, err (ClientError.protocol (ProtocolError.push_failed PushError.already_deleted))) =
      some (record st { server = s }, dropped)
  on_pushed to_lowercase st card (s, err e) =
      some (record st { server = s; hit_connection_error = true }, kept card)

  -- The body of the loop.
  unfoldable pub flush_card : (Text → Text) → Flush S → Card → Option (Flush S × Fate)
  flush_card to_lowercase st card =
      let pushed = on_pushed to_lowercase st card (push_card request st.server card) in
      if st.hit_connection_error then some (st, kept card) else pushed

  unfoldable pub flush_each : (Text → Text) → Flush S → List Card → Option (Flush S × List Fate)
  flush_each to_lowercase st [] = some (st, [])
  flush_each to_lowercase st (card ∷ queue) = elim (flush_card to_lowercase st card) [
    | none ↦ none
    | some (st', fate) ↦ elim (flush_each to_lowercase st' queue) [
      | none ↦ none
      | some (st'', fates) ↦ some (st'', fate ∷ fates)
    ]
  ]

  -- The server, the cards and the queue after the flush.
  unfoldable pub flush_offline_queue :
      (Text → Text) → S → List Card → List Card → Option (S × List Card × List Card)
  flush_offline_queue to_lowercase server local_cards queue =
      let st : Flush S = record {
        server = server;
        cards = local_cards;
        hit_connection_error = false;
      } in
      elim (flush_each to_lowercase st (reconcile_offline_queue queue local_cards)) [
        | none ↦ none
        | some (st', fates) ↦ some (st'.server, st'.cards, remaining_of fates)
      ]
