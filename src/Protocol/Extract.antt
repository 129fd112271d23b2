-- ===== src/Protocol/Extract.antt =====
-- The extraction methods of protocol/src/types/response.rs with response_extract_error.rs.
use blaze_list.Prelude.{List}
use blaze_list.Prelude.Result.{Result, ok, err}
use blaze_list.Protocol.Types.{Uuid}
use blaze_list.Protocol.Card.{Card}
use blaze_list.Protocol.Tag.{Tag}
use blaze_list.Protocol.Deleted.{DeletedEntity}
use blaze_list.Protocol.Messages.{
  Response, ProtocolError, RootState, ChangeSet, SequenceHistoryEntry,
}

pub data ResponseExtractError : Type 0 where
  protocol : ProtocolError → ResponseExtractError
  unexpected_variant : ResponseExtractError

unfoldable pub into_ok : Response → Result ResponseExtractError (Unit {0})
into_ok Response.done = ok tt
into_ok (Response.error e) = err (ResponseExtractError.protocol e)
into_ok _ = err ResponseExtractError.unexpected_variant

unfoldable pub into_card : Response → Result ResponseExtractError Card
into_card (Response.card x) = ok x
into_card (Response.error e) = err (ResponseExtractError.protocol e)
into_card _ = err ResponseExtractError.unexpected_variant

unfoldable pub into_cards : Response → Result ResponseExtractError (List Card)
into_cards (Response.cards x) = ok x
into_cards (Response.error e) = err (ResponseExtractError.protocol e)
into_cards _ = err ResponseExtractError.unexpected_variant

unfoldable pub into_tag : Response → Result ResponseExtractError Tag
into_tag (Response.tag x) = ok x
into_tag (Response.error e) = err (ResponseExtractError.protocol e)
into_tag _ = err ResponseExtractError.unexpected_variant

unfoldable pub into_tags : Response → Result ResponseExtractError (List Tag)
into_tags (Response.tags x) = ok x
into_tags (Response.error e) = err (ResponseExtractError.protocol e)
into_tags _ = err ResponseExtractError.unexpected_variant

unfoldable pub into_root : Response → Result ResponseExtractError RootState
into_root (Response.root x) = ok x
into_root (Response.error e) = err (ResponseExtractError.protocol e)
into_root _ = err ResponseExtractError.unexpected_variant

unfoldable pub into_deleted : Response → Result ResponseExtractError DeletedEntity
into_deleted (Response.deleted x) = ok x
into_deleted (Response.error e) = err (ResponseExtractError.protocol e)
into_deleted _ = err ResponseExtractError.unexpected_variant

unfoldable pub into_changes : Response → Result ResponseExtractError ChangeSet
into_changes (Response.changes x) = ok x
into_changes (Response.error e) = err (ResponseExtractError.protocol e)
into_changes _ = err ResponseExtractError.unexpected_variant

unfoldable pub into_notification : Response → Result ResponseExtractError RootState
into_notification (Response.notification x) = ok x
into_notification (Response.error e) = err (ResponseExtractError.protocol e)
into_notification _ = err ResponseExtractError.unexpected_variant

unfoldable pub into_card_history : Response → Result ResponseExtractError (List Card)
into_card_history (Response.card_history x) = ok x
into_card_history (Response.error e) = err (ResponseExtractError.protocol e)
into_card_history _ = err ResponseExtractError.unexpected_variant

unfoldable pub into_tag_history : Response → Result ResponseExtractError (List Tag)
into_tag_history (Response.tag_history x) = ok x
into_tag_history (Response.error e) = err (ResponseExtractError.protocol e)
into_tag_history _ = err ResponseExtractError.unexpected_variant

unfoldable pub into_sequence_history :
    Response → Result ResponseExtractError (List SequenceHistoryEntry)
into_sequence_history (Response.sequence_history x) = ok x
into_sequence_history (Response.error e) = err (ResponseExtractError.protocol e)
into_sequence_history _ = err ResponseExtractError.unexpected_variant

unfoldable pub into_all_card_histories :
    Response → Result ResponseExtractError (List (Uuid × List Card))
into_all_card_histories (Response.all_card_histories x) = ok x
into_all_card_histories (Response.error e) = err (ResponseExtractError.protocol e)
into_all_card_histories _ = err ResponseExtractError.unexpected_variant

unfoldable pub into_all_tag_histories :
    Response → Result ResponseExtractError (List (Uuid × List Tag))
into_all_tag_histories (Response.all_tag_histories x) = ok x
into_all_tag_histories (Response.error e) = err (ResponseExtractError.protocol e)
into_all_tag_histories _ = err ResponseExtractError.unexpected_variant
