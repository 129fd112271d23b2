-- ===== src/System/Answers.antt =====
-- What server/src/handler.rs answers is what the methods of clients/lib/src/client.rs extract.
use blaze_list.Prelude.{ℕ, ◌≡◌, ◌≢◌, refl, inl, inr, ◌⊎◌, Option, none, some, List, [], ◌∷◌, arith}
use blaze_list.Prelude.Result.{Result, ok, err}
use blaze_list.Protocol.Types.{Uuid, Hash, DateTime}
use blaze_list.Protocol.NonNegative.{NonNegativeI64}
use blaze_list.Protocol.Card.{Card}
use blaze_list.Protocol.Tag.{Tag}
use blaze_list.Protocol.Messages.{Request, Response, ProtocolError, CardFilter, PushItem}
use blaze_list.Protocol.Extract.{
  ResponseExtractError, into_root, into_card, into_cards, into_tags, into_deleted, into_changes,
  into_card_history, into_tag_history, into_sequence_history, into_all_card_histories,
  into_all_tag_histories,
}
use blaze_list.Server.Errors.{PushOpError, StorageError, BatchError}
use blaze_list.Server.Db.{Db}
use blaze_list.Server.Storage.{
  push_batch, push_card_versions, push_tag_versions, delete_card, delete_tag,
}
use blaze_list.Server.Reads.{
  get_root, get_card, get_card_history, get_tag_history, list_cards, list_tags, get_changes_since,
  get_all_card_histories, get_all_tag_histories,
}
use blaze_list.Server.History.{get_sequence_history}
use blaze_list.Server.Handler.{handle_request, respond, respond_found, respond_push, respond_batch}
use blaze_list.Client.Requests.{ClientError, client_error, extracted, ignored}
use blaze_list.Client.Requests

-- A response that is an error or has a form.
abbrev Fits : {A : Type 0} → (A → Response) → Response → Type 0
Fits {A} f r = ((e : ProtocolError) × (r ≡ Response.error e)) ⊎ ((a : A) × (r ≡ f a))

respond-Fits : {A : Type 0} (f : A → Response) (r : Result StorageError A) → Fits f (respond f r)
respond-Fits f (ok a) = inr (a, refl)
respond-Fits f (err e) = inl (_, refl)

respond_found-Fits :
    {A : Type 0} (f : A → Response) (r : Result StorageError (Option A))
    → Fits f (respond_found f r)
respond_found-Fits f (ok (some a)) = inr (a, refl)
respond_found-Fits f (ok none) = inl (_, refl)
respond_found-Fits f (err e) = inl (_, refl)

respond_push-Fits : (r : Result PushOpError (Unit {0}) × Db) → Fits Response.root (respond_push r).0
respond_push-Fits (ok u, db) = respond-Fits Response.root (get_root db)
respond_push-Fits (err e, db) = inl (_, refl)

respond_batch-Fits :
    (r : Result BatchError (Unit {0}) × Db) → Fits Response.root (respond_batch r).0
respond_batch-Fits (ok u, db) = respond-Fits Response.root (get_root db)
respond_batch-Fits (err e, db) = inl (_, refl)

-- What a client gets is not an unexpected response.
abbrev pub IsExpected : {A : Type 0} → Result ClientError A → Type 0
IsExpected r = r ≢ err ClientError.unexpected_response

-- Extraction from a response that fits does not find another variant.
extracted-IsExpected :
    {S A : Type 0} (f : A → Response) (into : Response → Result ResponseExtractError A) (s : S)
    (r : Response)
    → Fits f r
    → ((a : A) → into (f a) ≡ ok a)
    → ((e : ProtocolError) → into (Response.error e) ≡ err (ResponseExtractError.protocol e))
    → IsExpected (extracted into (s, ok r)).1
unfolding client_error
extracted-IsExpected f into s r (inl (e, same)) good bad x = ground (arith, bad e)
extracted-IsExpected f into s r (inr (a, same)) good bad x = ground (arith, good a)

ignored-IsExpected :
    {S A : Type 0} (m : S × Result ClientError A) → IsExpected m.1 → IsExpected (ignored m).1
ignored-IsExpected (s, ok a) h x = cc
ignored-IsExpected (s, err e) h x = h (ground arith)

module _ (blake3 : List ℕ → Hash) (now : DateTime) where
  -- The server as the other side of a client's requests.
  abbrev pub served : Db → Request → Db × Result ClientError Response
  served db req = let (r, db') = handle_request blake3 db req now in (db', ok r)

  -- Whatever a client asks the server, the response is the variant that its method extracts, or an
  -- error of the protocol.
  pub client-IsExpected :
      (db : Db) (filter : CardFilter) (card : Card) (versions : List Card) (tag : Tag) (id : Uuid)
      (items : List PushItem) (sequence : NonNegativeI64) (root_hash : Hash) (limit : Option ℕ)
      (ids : Option (List Uuid))
      → IsExpected (Requests.list_cards served db filter).1
        × IsExpected (Requests.push_card served db card).1
        × IsExpected (Requests.push_card_versions served db versions).1
        × IsExpected (Requests.delete_card served db id).1
        × IsExpected (Requests.get_card_history served db id).1
        × IsExpected (Requests.get_card served db id).1
        × IsExpected (Requests.get_root served db).1
        × IsExpected (Requests.get_changes_since served db sequence root_hash).1
        × IsExpected (Requests.get_tag_history served db id).1
        × IsExpected (Requests.list_tags served db).1
        × IsExpected (Requests.push_tag served db tag).1
        × IsExpected (Requests.delete_tag served db id).1
        × IsExpected (Requests.get_sequence_history served db).1
        × IsExpected (Requests.push_batch served db items).1
        × IsExpected (Requests.get_all_card_histories served db limit ids).1
        × IsExpected (Requests.get_all_tag_histories served db limit ids).1
  unfolding handle_request Requests.list_cards Requests.push_card Requests.push_card_versions
      Requests.delete_card Requests.get_card_history Requests.get_card Requests.get_root
      Requests.get_changes_since Requests.get_tag_history Requests.list_tags Requests.push_tag
      Requests.delete_tag Requests.get_sequence_history Requests.push_batch
      Requests.get_all_card_histories Requests.get_all_tag_histories into_all_card_histories
      into_all_tag_histories into_card into_card_history into_cards into_changes into_deleted
      into_root into_sequence_history into_tag_history into_tags
  client-IsExpected db filter card versions tag id items sequence root_hash limit ids = (
    extracted-IsExpected Response.cards into_cards _ _
        (respond-Fits Response.cards (list_cards blake3 db filter none)) (λ a. refl) (λ e. refl),
    extracted-IsExpected Response.root into_root _ _
        (respond_push-Fits (push_card_versions blake3 db (card ∷ []) now)) (λ a. refl) (λ e. refl),
    extracted-IsExpected Response.root into_root _ _
        (respond_push-Fits (push_card_versions blake3 db versions now)) (λ a. refl) (λ e. refl),
    ignored-IsExpected _ (
        extracted-IsExpected Response.deleted into_deleted _ _
          (respond-Fits Response.deleted (delete_card blake3 db id now).0) (λ a. refl) (λ e. refl)),
    extracted-IsExpected Response.card_history into_card_history _ _
        (respond-Fits Response.card_history (get_card_history blake3 db id none)) (λ a. refl)
        (λ e. refl),
    extracted-IsExpected Response.card into_card _ _
        (respond_found-Fits Response.card (get_card blake3 db id)) (λ a. refl) (λ e. refl),
    extracted-IsExpected Response.root into_root _ _ (respond-Fits Response.root (get_root db))
        (λ a. refl) (λ e. refl),
    extracted-IsExpected Response.changes into_changes _ _
        (respond-Fits Response.changes (get_changes_since blake3 db sequence root_hash)) (λ a. refl)
        (λ e. refl),
    extracted-IsExpected Response.tag_history into_tag_history _ _
        (respond-Fits Response.tag_history (get_tag_history blake3 db id none)) (λ a. refl)
        (λ e. refl),
    extracted-IsExpected Response.tags into_tags _ _
        (respond-Fits Response.tags (list_tags blake3 db)) (λ a. refl) (λ e. refl),
    extracted-IsExpected Response.root into_root _ _
        (respond_push-Fits (push_tag_versions blake3 db (tag ∷ []) now)) (λ a. refl) (λ e. refl),
    ignored-IsExpected _ (
        extracted-IsExpected Response.deleted into_deleted _ _
          (respond-Fits Response.deleted (delete_tag blake3 db id now).0) (λ a. refl) (λ e. refl)),
    extracted-IsExpected Response.sequence_history into_sequence_history _ _
        (respond-Fits Response.sequence_history (get_sequence_history db none none)) (λ a. refl)
        (λ e. refl),
    extracted-IsExpected Response.root into_root _ _
        (respond_batch-Fits (push_batch blake3 db items now)) (λ a. refl) (λ e. refl),
    extracted-IsExpected Response.all_card_histories into_all_card_histories _ _
        (respond-Fits Response.all_card_histories (get_all_card_histories blake3 db limit ids))
        (λ a. refl) (λ e. refl),
    extracted-IsExpected Response.all_tag_histories into_all_tag_histories _ _
        (respond-Fits Response.all_tag_histories (get_all_tag_histories blake3 db limit ids))
        (λ a. refl) (λ e. refl),
  )
