-- ===== src/Server/Storage/Operations.antt =====
-- The storage operations of server/src/storage/sqlite/mod.rs and the live entities.
use blaze_list.Prelude.{ℕ, ◌≡◌, subst, List, [], ◌∷◌, ◌++◌}
use blaze_list.Prelude.Result.{ok, map_err, >>=-ok, >>-ok, map_err-ok, ok-inj}
use blaze_list.Protocol.Types.{Uuid, Hash, DateTime}
use blaze_list.Protocol.Card.{Card}
use blaze_list.Protocol.Tag.{Tag}
use blaze_list.Protocol.Deleted.{DeletedEntity}
use blaze_list.Protocol.Messages.{PushItem}
use blaze_list.Server.Errors.{push_of_sql, storage_of_sql}
use blaze_list.Server.Db.{Db}
use blaze_list.Server.Live.{IsKeyed}
use blaze_list.Server.Root.{recompute_root_for_ids}
use blaze_list.Server.Implications.{validate_batch_implications}
use blaze_list.Server.Write.{
  push_card_versions_inner, push_tag_versions_inner, delete_card_inner, delete_tag_inner,
}
use blaze_list.Server.Storage.{
  push_items, finish_batch, push_batch_tx, push_card_versions_tx, push_tag_versions_tx,
  delete_card_tx, delete_tag_tx, none_affected, Affected, batch_err,
}
use blaze_list.Server.Storage.Effects.{
  push_card_versions_inner-Writes, push_tag_versions_inner-Writes, push_items-Writes,
}
use blaze_list.Server.Storage.Stamps.{
  Keeps, Keeps-trans, stamp_affected-Keeps, recompute_root_for_ids-Keeps, stamp_card_sequence-Keeps,
  stamp_tag_sequence-Keeps, stamp_delete_sequence-Keeps,
}
use blaze_list.Server.Storage.Soundness.{
  IsValid, IsAccepted, Keeps-IsValid, Keeps-IsAccepted, Writes-IsAccepted,
}
use blaze_list.Server.Storage.Deletions.{delete_card_inner-IsValid, delete_tag_inner-IsValid}

module _ (blake3 : List ℕ → Hash) where
  finish_batch-Keeps :
      (db : Db) (a : Affected) (now : DateTime) (db' : Db)
      → finish_batch blake3 db a now ≡ ok db'
      → Keeps db db'
  unfolding finish_batch
  finish_batch-Keeps db a now db' h =
      let ids = a.card_ids ++ (a.tag_ids ++ a.deleted_ids) in
      let root = recompute_root_for_ids blake3 db ids now in
      let (r, h1, h2) = >>=-ok (map_err (λ e. batch_err 0 (push_of_sql e)) root) _ h in
      subst (Keeps db) (ok-inj h2) (
        Keeps-trans
          (recompute_root_for_ids-Keeps blake3 db ids now r
            (map_err-ok (λ e. batch_err 0 (push_of_sql e)) root h1))
          (stamp_affected-Keeps a r.1 r.0))

  pub push_batch_tx-IsAccepted :
      (db : Db) (items : List PushItem) (now : DateTime) (r : Db × Unit {0})
      → IsKeyed db
      → push_batch_tx blake3 db items now ≡ ok r
      → IsAccepted r.0
  unfolding push_batch_tx
  push_batch_tx-IsAccepted db items now r k h =
      let ((db1, a), h1, h2) = >>=-ok (push_items blake3 0 items db none_affected) _ h in
      let check = validate_batch_implications db1 items in
      let (h3, h4) = >>-ok (map_err (batch_err 0) check) _ h2 in
      let (db2, h5, h6) = >>=-ok (finish_batch blake3 db1 a now) _ h4 in
      let accepted =
        Writes-IsAccepted db db1 items (push_items-Writes blake3 0 items db none_affected h1) k
          (map_err-ok (batch_err 0) check h3) in
      subst (λ (r : Db × Unit {0}). IsAccepted r.0) (ok-inj h6)
        (Keeps-IsAccepted (finish_batch-Keeps db1 a now db2 h5) accepted)

  pub push_card_versions_tx-IsAccepted :
      (db : Db) (versions : List Card) (now : DateTime) (r : Db × Unit {0})
      → IsKeyed db
      → push_card_versions_tx blake3 db versions now ≡ ok r
      → IsAccepted r.0
  unfolding push_card_versions_tx
  push_card_versions_tx-IsAccepted db [] now r k h = cc
  push_card_versions_tx-IsAccepted db (first ∷ rest) now r k h =
      let item = PushItem.cards (first ∷ rest) in
      let (db1, h1, h2) = >>=-ok (push_card_versions_inner blake3 db (first ∷ rest)) _ h in
      let (h3, h4) = >>-ok (validate_batch_implications db1 (item ∷ [])) _ h2 in
      let root = recompute_root_for_ids blake3 db1 (first.id ∷ []) now in
      let (s, h5, h6) = >>=-ok (map_err push_of_sql root) _ h4 in
      let accepted =
        Writes-IsAccepted db db1 (item ∷ [])
          (push_card_versions_inner-Writes blake3 db (first ∷ rest) h1) k h3 in
      subst (λ (r : Db × Unit {0}). IsAccepted r.0) (ok-inj h6)
        (Keeps-IsAccepted
          (Keeps-trans
            (recompute_root_for_ids-Keeps blake3 db1 (first.id ∷ []) now s
              (map_err-ok push_of_sql root h5))
            (stamp_card_sequence-Keeps s.0 first.id s.1))
          accepted)

  pub push_tag_versions_tx-IsAccepted :
      (db : Db) (versions : List Tag) (now : DateTime) (r : Db × Unit {0})
      → IsKeyed db
      → push_tag_versions_tx blake3 db versions now ≡ ok r
      → IsAccepted r.0
  unfolding push_tag_versions_tx
  push_tag_versions_tx-IsAccepted db [] now r k h = cc
  push_tag_versions_tx-IsAccepted db (first ∷ rest) now r k h =
      let item = PushItem.tags (first ∷ rest) in
      let (db1, h1, h2) = >>=-ok (push_tag_versions_inner blake3 db (first ∷ rest)) _ h in
      let (h3, h4) = >>-ok (validate_batch_implications db1 (item ∷ [])) _ h2 in
      let root = recompute_root_for_ids blake3 db1 (first.id ∷ []) now in
      let (s, h5, h6) = >>=-ok (map_err push_of_sql root) _ h4 in
      let accepted =
        Writes-IsAccepted db db1 (item ∷ [])
          (push_tag_versions_inner-Writes blake3 db (first ∷ rest) h1) k h3 in
      subst (λ (r : Db × Unit {0}). IsAccepted r.0) (ok-inj h6)
        (Keeps-IsAccepted
          (Keeps-trans
            (recompute_root_for_ids-Keeps blake3 db1 (first.id ∷ []) now s
              (map_err-ok push_of_sql root h5))
            (stamp_tag_sequence-Keeps s.0 first.id s.1))
          accepted)

  -- Deletions keep the tables valid: a deleted tag was on no card and implied by no other tag.
  pub delete_card_tx-IsValid :
      (db : Db) (id : Uuid) (now : DateTime) (r : Db × DeletedEntity)
      → IsValid db
      → delete_card_tx blake3 db id now ≡ ok r
      → IsValid r.0
  unfolding delete_card_tx
  delete_card_tx-IsValid db id now r v h =
      let (d, h1, h2) = >>=-ok (delete_card_inner blake3 db id) _ h in
      let root = recompute_root_for_ids blake3 d.0 (id ∷ []) now in
      let (s, h3, h4) = >>=-ok (map_err storage_of_sql root) _ h2 in
      subst (λ (r : Db × DeletedEntity). IsValid r.0) (ok-inj h4)
        (Keeps-IsValid
          (Keeps-trans
            (recompute_root_for_ids-Keeps blake3 d.0 (id ∷ []) now s
              (map_err-ok storage_of_sql root h3))
            (stamp_delete_sequence-Keeps s.0 id s.1))
          (delete_card_inner-IsValid blake3 db id d v h1))

  pub delete_tag_tx-IsValid :
      (db : Db) (id : Uuid) (now : DateTime) (r : Db × DeletedEntity)
      → IsValid db
      → delete_tag_tx blake3 db id now ≡ ok r
      → IsValid r.0
  unfolding delete_tag_tx
  delete_tag_tx-IsValid db id now r v h =
      let (d, h1, h2) = >>=-ok (delete_tag_inner blake3 db id) _ h in
      let root = recompute_root_for_ids blake3 d.0 (id ∷ []) now in
      let (s, h3, h4) = >>=-ok (map_err storage_of_sql root) _ h2 in
      subst (λ (r : Db × DeletedEntity). IsValid r.0) (ok-inj h4)
        (Keeps-IsValid
          (Keeps-trans
            (recompute_root_for_ids-Keeps blake3 d.0 (id ∷ []) now s
              (map_err-ok storage_of_sql root h3))
            (stamp_delete_sequence-Keeps s.0 id s.1))
          (delete_tag_inner-IsValid blake3 db id d v h1))
