-- ===== src/Client/Requests.antt =====
-- The `Client` trait of clients/lib/src/client.rs with error.rs: one method for each request. The
-- transport's `request` is a parameter, a function from the state of the other side.
use blaze_list.Prelude.{ℕ, Option, none, List, [], ◌∷◌}
use blaze_list.Prelude.Result.{Result, ok, err}
use blaze_list.Protocol.Types.{Uuid, Hash}
use blaze_list.Protocol.NonNegative.{NonNegativeI64}
use blaze_list.Protocol.Version.{Version}
use blaze_list.Protocol.Card.{Card}
use blaze_list.Protocol.Tag.{Tag}
use blaze_list.Protocol.Messages.{
  Request, Response, ProtocolError, RootState, ChangeSet, SequenceHistoryEntry, CardFilter,
  PushItem,
}
use blaze_list.Protocol.Extract.{
  ResponseExtractError, into_root, into_card, into_cards, into_tags, into_deleted, into_changes,
  into_card_history, into_tag_history, into_sequence_history, into_all_card_histories,
  into_all_tag_histories,
}

pub data ClientError : Type 0 where
  protocol : ProtocolError → ClientError
  unexpected_response : ClientError
  version_mismatch : Version → ClientError
  connection_lost : ClientError

-- `impl From<ResponseExtractError> for ClientError`
unfoldable pub client_error : ResponseExtractError → ClientError
client_error (ResponseExtractError.protocol p) = ClientError.protocol p
client_error ResponseExtractError.unexpected_variant = ClientError.unexpected_response

module _ {S : Type 0} where
  -- `self.request(…).await?` and the extraction of its response.
  abbrev pub extracted :
      {A : Type 0}
      → (Response → Result ResponseExtractError A)
      → S × Result ClientError Response
      → S × Result ClientError A
  extracted into (s, err e) = (s, err e)
  extracted into (s, ok r) = elim (into r) [ ok a ↦ (s, ok a) | err e ↦ (s, err (client_error e)) ]

  -- `Ok(())` after the extraction.
  abbrev pub ignored : {A : Type 0} → S × Result ClientError A → S × Result ClientError (Unit {0})
  ignored (s, ok a) = (s, ok tt)
  ignored (s, err e) = (s, err e)

  module _ (request : S → Request → S × Result ClientError Response) where
    unfoldable pub list_cards : S → CardFilter → S × Result ClientError (List Card)
    list_cards s filter = extracted into_cards (request s (Request.list_cards filter none))

    unfoldable pub push_card : S → Card → S × Result ClientError RootState
    push_card s card = extracted into_root (request s (Request.push_card_versions (card ∷ [])))

    unfoldable pub push_card_versions : S → List Card → S × Result ClientError RootState
    push_card_versions s versions =
        extracted into_root (request s (Request.push_card_versions versions))

    unfoldable pub delete_card : S → Uuid → S × Result ClientError (Unit {0})
    delete_card s id = ignored (extracted into_deleted (request s (Request.delete_card id)))

    unfoldable pub get_card_history : S → Uuid → S × Result ClientError (List Card)
    get_card_history s id =
        extracted into_card_history (request s (Request.get_card_history id none))

    unfoldable pub get_card : S → Uuid → S × Result ClientError Card
    get_card s id = extracted into_card (request s (Request.get_card id))

    unfoldable pub get_root : S → S × Result ClientError RootState
    get_root s = extracted into_root (request s Request.get_root)

    unfoldable pub get_changes_since : S → NonNegativeI64 → Hash → S × Result ClientError ChangeSet
    get_changes_since s sequence root_hash =
        extracted into_changes (request s (Request.get_changes_since sequence root_hash))

    unfoldable pub get_tag_history : S → Uuid → S × Result ClientError (List Tag)
    get_tag_history s id = extracted into_tag_history (request s (Request.get_tag_history id none))

    unfoldable pub list_tags : S → S × Result ClientError (List Tag)
    list_tags s = extracted into_tags (request s Request.list_tags)

    unfoldable pub push_tag : S → Tag → S × Result ClientError RootState
    push_tag s tag = extracted into_root (request s (Request.push_tag_versions (tag ∷ [])))

    unfoldable pub delete_tag : S → Uuid → S × Result ClientError (Unit {0})
    delete_tag s id = ignored (extracted into_deleted (request s (Request.delete_tag id)))

    unfoldable pub get_sequence_history : S → S × Result ClientError (List SequenceHistoryEntry)
    get_sequence_history s =
        extracted into_sequence_history (request s (Request.get_sequence_history none none))

    unfoldable pub push_batch : S → List PushItem → S × Result ClientError RootState
    push_batch s items = extracted into_root (request s (Request.push_batch items))

    unfoldable pub get_all_card_histories :
        S → Option ℕ → Option (List Uuid) → S × Result ClientError (List (Uuid × List Card))
    get_all_card_histories s limit_per_card card_ids =
        extracted into_all_card_histories
          (request s (Request.get_all_card_histories limit_per_card card_ids))

    unfoldable pub get_all_tag_histories :
        S → Option ℕ → Option (List Uuid) → S × Result ClientError (List (Uuid × List Tag))
    get_all_tag_histories s limit_per_tag tag_ids =
        extracted into_all_tag_histories
          (request s (Request.get_all_tag_histories limit_per_tag tag_ids))
