-- ===== src/Protocol/Deleted.antt =====
-- protocol/src/deleted_entity/deleted_entity.rs
use blaze_list.Prelude.{ℕ, ◌≡◌, true, Bool, List, ◌==◌, ==_refl}
use blaze_list.Protocol.Types.{Uuid, Hash}
use blaze_list.Protocol.Bytes.{be_bytes}

pub record DeletedEntity : Type 0 where
  pub id : Uuid
  pub hash : Hash

module _ (blake3 : List ℕ → Hash) where
  unfoldable pub new_deleted : Uuid → DeletedEntity
  new_deleted id = record { id = id; hash = blake3 (be_bytes 16 id) }

  unfoldable pub verify_deleted : DeletedEntity → Bool
  verify_deleted d = d.hash == blake3 (be_bytes 16 d.id)

  pub new_deleted-verify : (id : Uuid) → verify_deleted (new_deleted id) ≡ true
  unfolding new_deleted verify_deleted
  new_deleted-verify id = ==_refl _
