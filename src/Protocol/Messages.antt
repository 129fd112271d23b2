-- ===== src/Protocol/Messages.antt =====
-- protocol/src/types and protocol/src/root: what client and server send each other.
use blaze_list.Prelude.{ℕ, Bool, true, false, Option, List}
use blaze_list.Prelude.Int.{ℤ}
use blaze_list.Protocol.Types.{Uuid, Hash, DateTime, zero_hash}
use blaze_list.Protocol.NonNegative.{NonNegativeI64}
use blaze_list.Protocol.Card.{Card}
use blaze_list.Protocol.Tag.{Tag}
use blaze_list.Protocol.Deleted.{DeletedEntity}

pub record RootState : Type 0 where
  pub hash : Hash
  pub sequence : NonNegativeI64

unfoldable pub empty_root : RootState
empty_root = record { hash = zero_hash; sequence = record { value = 0 } }

pub data PushError : Type 0 where
  card_ancestor_mismatch : Card → PushError
  tag_ancestor_mismatch : Tag → PushError
  already_deleted : PushError
  orphaned_tag_reference : Uuid → List Uuid → PushError
  hash_verification_failed : PushError
  empty_chain : PushError
  duplicate_priority : Uuid → ℤ → PushError
  tag_implication_violation : Uuid → List Uuid → PushError
  tag_implication_cycle : List Uuid → PushError
  orphaned_tag_implies_reference : Uuid → List Uuid → PushError
  tag_implies_unknown : Uuid → List Uuid → PushError

pub data BatchItemError : Type 0 where
  push : PushError → BatchItemError
  not_found already_deleted internal : BatchItemError

pub data ProtocolError : Type 0 where
  not_found : ProtocolError
  already_deleted : ProtocolError
  push_failed : PushError → ProtocolError
  batch_failed : ℕ → BatchItemError → ProtocolError
  root_hash_mismatch : NonNegativeI64 → Hash → ProtocolError
  unsupported_request : ProtocolError
  internal : ProtocolError

pub data PushItem : Type 0 where
  cards : List Card → PushItem
  tags : List Tag → PushItem
  delete_card : Uuid → PushItem
  delete_tag : Uuid → PushItem

pub data CardFilter : Type 0 where
  all_cards blazed_cards extinguished_cards : CardFilter

pub record ChangeSet : Type 0 where
  pub cards : List Card
  pub tags : List Tag
  pub deleted : List DeletedEntity
  pub root : RootState

pub data SequenceOperationKind : Type 0 where
  card_created card_updated tag_created tag_updated entity_deleted : SequenceOperationKind

pub record SequenceOperation : Type 0 where
  pub entity_id : Uuid
  pub kind : SequenceOperationKind

pub record SequenceHistoryEntry : Type 0 where
  pub sequence : NonNegativeI64
  pub hash : Hash
  pub operations : List SequenceOperation
  pub created_at : DateTime

pub data Request : Type 0 where
  push_card_versions : List Card → Request
  get_card : Uuid → Request
  get_card_history : Uuid → Option ℕ → Request
  list_cards : CardFilter → Option ℕ → Request
  delete_card : Uuid → Request
  push_tag_versions : List Tag → Request
  get_tag : Uuid → Request
  list_tags : Request
  delete_tag : Uuid → Request
  get_root : Request
  get_changes_since : NonNegativeI64 → Hash → Request
  push_batch : List PushItem → Request
  subscribe : Request
  get_tag_history : Uuid → Option ℕ → Request
  get_sequence_history : Option NonNegativeI64 → Option ℕ → Request
  get_all_card_histories : Option ℕ → Option (List Uuid) → Request
  get_all_tag_histories : Option ℕ → Option (List Uuid) → Request

unfoldable pub is_streaming : Request → Bool
is_streaming Request.subscribe = true
is_streaming _ = false

unfoldable pub is_mutation : Request → Bool
is_mutation (Request.push_card_versions _) = true
is_mutation (Request.push_tag_versions _) = true
is_mutation (Request.push_batch _) = true
is_mutation (Request.delete_card _) = true
is_mutation (Request.delete_tag _) = true
is_mutation _ = false

-- A `HashMap` of histories is a list of pairs, in ascending order of its keys.
pub data Response : Type 0 where
  done : Response
  card : Card → Response
  cards : List Card → Response
  tag : Tag → Response
  tags : List Tag → Response
  root : RootState → Response
  deleted : DeletedEntity → Response
  changes : ChangeSet → Response
  notification : RootState → Response
  error : ProtocolError → Response
  card_history : List Card → Response
  tag_history : List Tag → Response
  sequence_history : List SequenceHistoryEntry → Response
  all_card_histories : List (Uuid × List Card) → Response
  all_tag_histories : List (Uuid × List Tag) → Response
