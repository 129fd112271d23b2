-- ===== src/Web/Push.antt =====
-- `push_card_or_queue` of clients/wasm/src/state/sync.rs: an edit is pushed, or waits in the offline
-- queue. `none` for the server is a client that never connected.
pub mod Outcomes
pub mod Laws
use blaze_list.Prelude.{ℕ, not, Option, none, some, List, [], ◌∷◌, filter, ◌==◌}
use blaze_list.Prelude.Result.{Result, ok, err}
use blaze_list.Protocol.Types.{Uuid, Hash, DateTime}
use blaze_list.Protocol.Card.{Card}
use blaze_list.Protocol.Messages.{Request, Response, ProtocolError, PushError, RootState}
use blaze_list.Client.Requests.{ClientError, push_card}
use blaze_list.Web.Queue.{rebuild_card, upsert_card}

-- The client's side that a push changes, with the server's.
pub record Local (S : Type 0) : Type 0 where
  pub server : Option S
  pub cards : List Card
  pub offline_queue : List Card

-- Removing nothing where nothing is queued is the same.
unfoldable pub clear_queued_card : List Card → Uuid → List Card
clear_queued_card queue card_id = filter (λ (c : Card). not (c.id == card_id)) queue

-- After the push of a version that was rebuilt: a failure queues the given card.
abbrev pub second_push :
    {S : Type 0} → Local S → Uuid → Card → Card → S × Result ClientError RootState → Local S
second_push st card_id version fallback (s, ok root) = record {
  server = some s;
  cards = upsert_card version st.cards;
  offline_queue = clear_queued_card st.offline_queue card_id;
}
second_push st card_id version fallback (s, err e) = record st {
  server = some s;
  offline_queue = upsert_card fallback st.offline_queue;
}

module _ {S : Type 0} (request : S → Request → S × Result ClientError Response)
    (blake3 : List ℕ → Hash) (now : DateTime) where
  unfoldable pub on_first_push :
      Local S → Card → S × Result ClientError RootState → Option (Local S)
  on_first_push st card (s, ok root) =
      some
        (record st { server = some s; offline_queue = clear_queued_card st.offline_queue card.id })
  on_first_push st card
        (
          s,
          err (
              ClientError.protocol
                (ProtocolError.push_failed (PushError.card_ancestor_mismatch server_card))),
        ) =
      elim (rebuild_card blake3 now card card.priority (some server_card)) [
        | none ↦ none
        | some rebased ↦ some (second_push st card.id rebased card (push_card request s rebased))
      ]
  on_first_push st card
        (
          s,
          err (ClientError.protocol (ProtocolError.push_failed PushError.hash_verification_failed)),
        ) =
      elim (rebuild_card blake3 now card card.priority none) [
        | none ↦ none
        | some recreated ↦
            some (second_push st card.id recreated recreated (push_card request s recreated))
      ]
  on_first_push st card (s, err e) =
      some (record st { server = some s; offline_queue = upsert_card card st.offline_queue })

  unfoldable pub push_card_or_queue : Local S → Card → Option (Local S)
  push_card_or_queue st card = elim st.server [
    | none ↦ some (record st { offline_queue = upsert_card card st.offline_queue })
    | some server ↦ on_first_push st card (push_card request server card)
  ]
