-- ===== src/Web/Queue/Pushed.antt =====
-- What holds of each branch of `flush_offline_queue` in clients/wasm/src/state/sync.rs on the answer to
-- a push holds of them all.
use blaze_list.Prelude.{ℕ, true, Option, some, List}
use blaze_list.Prelude.Result.{Result, ok, err}
use blaze_list.Protocol.Types.{Hash, DateTime, Text}
use blaze_list.Protocol.Card.{Card}
use blaze_list.Protocol.Messages.{Request, Response, ProtocolError, PushError, RootState}
use blaze_list.Client.Requests.{ClientError}
use blaze_list.Web.Queue.{
  Fate, sent, kept, dropped, Flush, on_pushed, upsert_card, collide, rebase, recreate,
}

module _ {S : Type 0} (request : S → Request → S × Result ClientError Response)
    (blake3 : List ℕ → Hash) (random : ℕ → ℕ) (now : DateTime) (to_lowercase : Text → Text)
    (st : Flush S) (card : Card)
    (P : S × Result ClientError RootState → Option (Flush S × Fate) → Type 0) where
  abbrev failed : S → PushError → S × Result ClientError RootState
  failed s e = (s, err (ClientError.protocol (ProtocolError.push_failed e)))

  pub on_pushed-by :
      ((s : S) (root : RootState)
        → P
            (s, ok root)
            (some (record st { server = s; cards = upsert_card card st.cards }, sent card)))
      → ((s : S) (x : _) (y : _)
          → P
              (failed s (PushError.duplicate_priority x y))
              (collide request blake3 random now to_lowercase (record st { server = s }) card))
      → ((s : S) (c : Card)
          → P
              (failed s (PushError.card_ancestor_mismatch c))
              (rebase request blake3 random now (record st { server = s }) card c))
      → ((s : S)
          → P
              (failed s PushError.hash_verification_failed)
              (recreate request blake3 random now (record st { server = s }) card))
      → ((s : S)
          → P (failed s PushError.already_deleted) (some (record st { server = s }, dropped)))
      → ((s : S) (e : ClientError)
          → P (s, err e) (some (record st { server = s; hit_connection_error = true }, kept card)))
      → (m : S × Result ClientError RootState)
      → P m (on_pushed request blake3 random now to_lowercase st card m)
  unfolding on_pushed
  on_pushed-by on_ok on_duplicate on_mismatch on_rejected_hash on_deleted on_other (s', ok root) =
      on_ok s' root
  on_pushed-by on_ok on_duplicate on_mismatch on_rejected_hash on_deleted on_other
        (
          s',
          err (ClientError.protocol (ProtocolError.push_failed (PushError.duplicate_priority x y))),
        ) =
      on_duplicate s' x y
  on_pushed-by on_ok on_duplicate on_mismatch on_rejected_hash on_deleted on_other
        (
          s',
          err (
              ClientError.protocol
                (ProtocolError.push_failed (PushError.card_ancestor_mismatch c))),
        ) =
      on_mismatch s' c
  on_pushed-by on_ok on_duplicate on_mismatch on_rejected_hash on_deleted on_other
        (
          s',
          err (ClientError.protocol (ProtocolError.push_failed PushError.hash_verification_failed)),
        ) =
      on_rejected_hash s'
  on_pushed-by on_ok on_duplicate on_mismatch on_rejected_hash on_deleted on_other
        (s', err (ClientError.protocol (ProtocolError.push_failed PushError.already_deleted))) =
      on_deleted s'
  on_pushed-by on_ok on_duplicate on_mismatch on_rejected_hash on_deleted on_other
        (
          s',
          err (
              ClientError.protocol (ProtocolError.push_failed (PushError.tag_ancestor_mismatch x))),
        ) =
      on_other s' _
  on_pushed-by on_ok on_duplicate on_mismatch on_rejected_hash on_deleted on_other
        (
          s',
          err (
              ClientError.protocol
                (ProtocolError.push_failed (PushError.orphaned_tag_reference x y))),
        ) =
      on_other s' _
  on_pushed-by on_ok on_duplicate on_mismatch on_rejected_hash on_deleted on_other
        (s', err (ClientError.protocol (ProtocolError.push_failed PushError.empty_chain))) =
      on_other s' _
  on_pushed-by on_ok on_duplicate on_mismatch on_rejected_hash on_deleted on_other
        (
          s',
          err (
              ClientError.protocol
                (ProtocolError.push_failed (PushError.tag_implication_violation x y))),
        ) =
      on_other s' _
  on_pushed-by on_ok on_duplicate on_mismatch on_rejected_hash on_deleted on_other
        (
          s',
          err (
              ClientError.protocol (ProtocolError.push_failed (PushError.tag_implication_cycle x))),
        ) =
      on_other s' _
  on_pushed-by on_ok on_duplicate on_mismatch on_rejected_hash on_deleted on_other
        (
          s',
          err (
              ClientError.protocol
                (ProtocolError.push_failed (PushError.orphaned_tag_implies_reference x y))),
        ) =
      on_other s' _
  on_pushed-by on_ok on_duplicate on_mismatch on_rejected_hash on_deleted on_other
        (
          s',
          err (
              ClientError.protocol (ProtocolError.push_failed (PushError.tag_implies_unknown x y))),
        ) =
      on_other s' _
  on_pushed-by on_ok on_duplicate on_mismatch on_rejected_hash on_deleted on_other
        (s', err (ClientError.protocol ProtocolError.not_found)) =
      on_other s' _
  on_pushed-by on_ok on_duplicate on_mismatch on_rejected_hash on_deleted on_other
        (s', err (ClientError.protocol ProtocolError.already_deleted)) =
      on_other s' _
  on_pushed-by on_ok on_duplicate on_mismatch on_rejected_hash on_deleted on_other
        (s', err (ClientError.protocol (ProtocolError.batch_failed x y))) =
      on_other s' _
  on_pushed-by on_ok on_duplicate on_mismatch on_rejected_hash on_deleted on_other
        (s', err (ClientError.protocol (ProtocolError.root_hash_mismatch x y))) =
      on_other s' _
  on_pushed-by on_ok on_duplicate on_mismatch on_rejected_hash on_deleted on_other
        (s', err (ClientError.protocol ProtocolError.unsupported_request)) =
      on_other s' _
  on_pushed-by on_ok on_duplicate on_mismatch on_rejected_hash on_deleted on_other
        (s', err (ClientError.protocol ProtocolError.internal)) =
      on_other s' _
  on_pushed-by on_ok on_duplicate on_mismatch on_rejected_hash on_deleted on_other
        (s', err ClientError.unexpected_response) =
      on_other s' _
  on_pushed-by on_ok on_duplicate on_mismatch on_rejected_hash on_deleted on_other
        (s', err (ClientError.version_mismatch v)) =
      on_other s' _
  on_pushed-by on_ok on_duplicate on_mismatch on_rejected_hash on_deleted on_other
        (s', err ClientError.connection_lost) =
      on_other s' _
