-- ===== src/Protocol/Card.antt =====
-- protocol/src/card/card.rs
pub mod Versions
use blaze_list.Prelude.{ℕ, ◌+◌, Bool, Option, none, some, List, if◌then◌else◌}
use blaze_list.Prelude.Int.{ℤ}
use blaze_list.Prelude.Result.{Result, ok, err}
use blaze_list.Protocol.Types.{Uuid, Hash, DateTime, Text, zero_hash}
use blaze_list.Protocol.NonNegative.{NonNegativeI64, to_i64, to_u64, try_from_u64}
use blaze_list.Protocol.Bytes.{canonical_card_hash, sort_ids}
use blaze_list.Protocol.Entity.{Entity, verify, HashVerificationError, hash_verification_error}

pub record Card : Type 0 where
  pub id : Uuid
  pub content : Text
  pub priority : ℤ
  pub tags : List Uuid
  pub blazed : Bool
  pub created_at : DateTime
  pub modified_at : DateTime
  pub due_date : Option DateTime
  pub count : NonNegativeI64
  pub ancestor_hash : Hash
  pub hash : Hash

module _ (blake3 : List ℕ → Hash) where
  unfoldable pub expected_hash : Card → Hash
  expected_hash c =
      canonical_card_hash blake3 c.id c.content c.priority c.tags c.blazed c.created_at
        c.modified_at (to_i64 c.count) c.ancestor_hash c.due_date

  -- `impl Entity for Card`
  abbrev pub card_entity : Entity Card
  card_entity = record {
    id = λ c. c.id;
    created_at = λ c. c.created_at;
    modified_at = λ c. c.modified_at;
    count = λ c. c.count;
    ancestor_hash = λ c. c.ancestor_hash;
    hash = λ c. c.hash;
    expected_hash = expected_hash;
  }

  -- Reconstruction from stored fields.
  unfoldable pub from_parts : Card → Result HashVerificationError Card
  from_parts c = if verify card_entity c then ok c else err hash_verification_error

  -- `card.hash = card.expected_hash()`
  unfoldable pub seal : Card → Card
  seal c = record c { hash = expected_hash c }

  unfoldable pub first : Uuid → Text → ℤ → List Uuid → Bool → DateTime → Option DateTime → Card
  unfolding seal
  first id content priority tags blazed created_at due_date = seal (record {
    id = id;
    content = content;
    priority = priority;
    tags = sort_ids tags;
    blazed = blazed;
    created_at = created_at;
    modified_at = created_at;
    due_date = due_date;
    count = record { value = 1 };
    ancestor_hash = zero_hash;
    hash = zero_hash;
  })

  -- The version that `next` builds once the count is known.
  unfoldable pub successor :
      Card → Text → ℤ → List Uuid → Bool → DateTime → Option DateTime → NonNegativeI64 → Card
  unfolding seal
  successor self content priority tags blazed modified_at due_date count = seal (record {
    id = self.id;
    content = content;
    priority = priority;
    tags = sort_ids tags;
    blazed = blazed;
    created_at = self.created_at;
    modified_at = modified_at;
    due_date = due_date;
    count = count;
    ancestor_hash = self.hash;
    hash = zero_hash;
  })

  -- `none` is the panic of `unwrap` where the count is past the range.
  unfoldable pub next :
      Card → Text → ℤ → List Uuid → Bool → DateTime → Option DateTime → Option Card
  next self content priority tags blazed modified_at due_date =
      elim (try_from_u64 (to_u64 self.count + 1)) [
        | err e ↦ none
        | ok count ↦ some (successor self content priority tags blazed modified_at due_date count)
      ]
