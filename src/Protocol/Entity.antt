-- ===== src/Protocol/Entity.antt =====
-- The trait `Entity` of protocol/src/hash/hash.rs: a versioned value with a hash chain.
use blaze_list.Prelude.{Bool, ◌==◌}
use blaze_list.Protocol.Types.{Uuid, Hash, DateTime}
use blaze_list.Protocol.NonNegative.{NonNegativeI64}

pub record Entity (A : Type 0) : Type 0 where
  pub id : A → Uuid
  pub created_at : A → DateTime
  pub modified_at : A → DateTime
  pub count : A → NonNegativeI64
  pub ancestor_hash : A → Hash
  pub hash : A → Hash
  pub expected_hash : A → Hash

-- protocol/src/hash/error.rs
pub data HashVerificationError : Type 0 where
  hash_verification_error : HashVerificationError

-- The provided method `verify`.
abbrev pub verify : {A : Type 0} → Entity A → A → Bool
verify e a = e.hash a == e.expected_hash a
