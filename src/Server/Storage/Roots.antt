-- ===== src/Server/Storage/Roots.antt =====
-- How an operation of server/src/storage/sqlite/mod.rs moves the root.
use blaze_list.Prelude.{
  ◌≤◌, ap, leb, ◌||◌, any, ℕ, suc, ◌≡◌, refl, ◌∙◌, subst, ◌==◌, Bool-cases, inl, inr, List, [], ◌∷◌,
  ◌++◌, arith, any,
}
use blaze_list.Prelude.Result.{ok, map_err, >>=-ok, >>-ok, map_err-ok, ok-inj}
use blaze_list.Protocol.Types.{Uuid, Hash, DateTime}
use blaze_list.Protocol.Card.{Card}
use blaze_list.Protocol.Tag.{Tag}
use blaze_list.Protocol.Deleted.{DeletedEntity}
use blaze_list.Protocol.Messages.{PushItem}
use blaze_list.Server.Errors.{push_of_sql, storage_of_sql}
use blaze_list.Server.Db.{Db, HistoryRow}
use blaze_list.Server.Live.{root_columns}
use blaze_list.Server.Root.{
  recompute_root_for_ids, recompute_root_from_buckets, recompute_buckets, root_of_buckets,
  affected_buckets,
}
use blaze_list.Server.Root.History.{recompute_buckets-columns}
use blaze_list.Server.Implications.{validate_batch_implications}
use blaze_list.Server.Write.{
  stamp_card_sequence, stamp_tag_sequence, stamp_delete_sequence, push_card_versions_inner,
  push_tag_versions_inner, delete_card_inner, delete_tag_inner,
}
use blaze_list.Server.Storage.{
  Affected, stamp_each, stamp_affected, finish_batch, push_items, push_batch_tx, none_affected,
  batch_err, push_card_versions_tx, push_tag_versions_tx, delete_card_tx, delete_tag_tx,
}
use blaze_list.Server.Storage.Effects.{
  push_items-Writes, push_card_versions_inner-Writes, push_tag_versions_inner-Writes,
  delete_card_inner-Writes, delete_tag_inner-Writes,
}

stamp_each-root :
    (stamp : Db → Uuid → ℕ → Db)
    → ((db : Db) (id : Uuid) (seq : ℕ) → root_columns (stamp db id seq) ≡ root_columns db)
    → (ids : List Uuid) (seq : ℕ) (db : Db)
    → root_columns (stamp_each stamp ids seq db) ≡ root_columns db
unfolding stamp_each
stamp_each-root stamp h [] seq db = refl
stamp_each-root stamp h (id ∷ ids) seq db =
    stamp_each-root stamp h ids seq (stamp db id seq) ∙ h db id seq

stamp_affected-root :
    (a : Affected) (seq : ℕ) (db : Db) → root_columns (stamp_affected a seq db) ≡ root_columns db
unfolding stamp_affected stamp_card_sequence stamp_tag_sequence stamp_delete_sequence
stamp_affected-root a seq db =
    stamp_each-root stamp_delete_sequence (λ d i s. refl) a.deleted_ids seq _
    ∙ (stamp_each-root stamp_tag_sequence (λ d i s. refl) a.tag_ids seq _
        ∙ stamp_each-root stamp_card_sequence (λ d i s. refl) a.card_ids seq db)

module _ (blake3 : List ℕ → Hash) where
  -- One change: the next sequence number, one more row of history with the new hash, and the hash
  -- is that of the buckets.
  pub record Advances (now : DateTime) (db db' : Db) : Type 0 where
    pub sequence : db'.root_sequence ≡ suc db.root_sequence
    pub history :
        db'.root_history
        ≡ db.root_history
          ++ record { sequence = suc db.root_sequence; hash = db'.root_hash; created_at = now } ∷ []
    pub in_range : db'.root_sequence ≤ 9223372036854775807
    pub hash : db'.root_hash ≡ root_of_buckets blake3 db'.root_buckets

  -- The columns before and after are all that it says.
  Advances-ext :
      (now : DateTime) {a b c d : Db}
      → root_columns b ≡ root_columns a
      → root_columns d ≡ root_columns c
      → Advances now b c
      → Advances now a d
  Advances-ext now p q h = record {
    sequence = cc (p, q, h.sequence);
    history = cc (p, q, h.history);
    in_range =
        omega (arith, ap (λ (c : ℕ × List HistoryRow × Hash × List Hash). c.0) q, h.in_range);
    hash = cc (q, h.hash);
  }

  recompute_root_from_buckets-Advances :
      (db : Db) (now : DateTime) (r : Db × ℕ)
      → recompute_root_from_buckets blake3 db now ≡ ok r
      → Advances now db r.0
  unfolding recompute_root_from_buckets
  recompute_root_from_buckets-Advances db now r h =
      elim (Bool-cases (
        leb 9223372036854775807 db.root_sequence
        || any (λ row. row.sequence == suc db.root_sequence) db.root_history)) [
          | inl b ↦ absurd (ground arith)
          | inr b ↦
              subst (λ (r : Db × ℕ). Advances now db r.0) (ok-inj (rw b at h))
                (record { sequence = refl; history = refl; in_range = ground arith; hash = refl })
        ]

  recompute_root_for_ids-Advances :
      (db : Db) (ids : List Uuid) (now : DateTime) (r : Db × ℕ)
      → recompute_root_for_ids blake3 db ids now ≡ ok r
      → Advances now db r.0
  unfolding recompute_root_for_ids
  recompute_root_for_ids-Advances db ids now r h =
      let (seq, past) = recompute_buckets-columns blake3 db (affected_buckets ids) in
      let a =
        recompute_root_from_buckets-Advances (recompute_buckets blake3 db (affected_buckets ids))
          now r h in
      record {
        sequence = cc (seq, a.sequence);
        history = cc (seq, past, a.history);
        in_range = a.in_range;
        hash = a.hash;
      }

  pub push_batch_tx-Advances :
      (db : Db) (items : List PushItem) (now : DateTime) (r : Db × Unit {0})
      → push_batch_tx blake3 db items now ≡ ok r
      → Advances now db r.0
  unfolding push_batch_tx finish_batch
  push_batch_tx-Advances db items now r h =
      let ((db1, a), h1, h2) = >>=-ok (push_items blake3 0 items db none_affected) _ h in
      let (_, h4) = >>-ok (map_err (batch_err 0) (validate_batch_implications db1 items)) _ h2 in
      let (db2, h5, h6) = >>=-ok (finish_batch blake3 db1 a now) _ h4 in
      let ids = a.card_ids ++ (a.tag_ids ++ a.deleted_ids) in
      let root = recompute_root_for_ids blake3 db1 ids now in
      let (s, h7, h8) = >>=-ok (map_err (λ e. batch_err 0 (push_of_sql e)) root) _ h5 in
      let w = push_items-Writes blake3 0 items db none_affected h1 in
      let step =
        recompute_root_for_ids-Advances db1 ids now s
          (map_err-ok (λ e. batch_err 0 (push_of_sql e)) root h7) in
      subst (λ (r : Db × Unit {0}). Advances now db r.0) (ok-inj h6)
        (subst (Advances now db) (ok-inj h8)
          (Advances-ext now w.root (stamp_affected-root a s.1 s.0) step))

  pub push_card_versions_tx-Advances :
      (db : Db) (versions : List Card) (now : DateTime) (r : Db × Unit {0})
      → push_card_versions_tx blake3 db versions now ≡ ok r
      → Advances now db r.0
  unfolding push_card_versions_tx stamp_card_sequence
  push_card_versions_tx-Advances db [] now r h = cc
  push_card_versions_tx-Advances db (first ∷ rest) now r h =
      let (db1, h1, h2) = >>=-ok (push_card_versions_inner blake3 db (first ∷ rest)) _ h in
      let (_, h4) =
        >>-ok (validate_batch_implications db1 (PushItem.cards (first ∷ rest) ∷ [])) _ h2 in
      let root = recompute_root_for_ids blake3 db1 (first.id ∷ []) now in
      let (s, h5, h6) = >>=-ok (map_err push_of_sql root) _ h4 in
      let w = push_card_versions_inner-Writes blake3 db (first ∷ rest) h1 in
      subst (λ (r : Db × Unit {0}). Advances now db r.0) (ok-inj h6)
        (Advances-ext now w.root refl (
          recompute_root_for_ids-Advances db1 (first.id ∷ []) now s
            (map_err-ok push_of_sql root h5)))

  pub delete_card_tx-Advances :
      (db : Db) (id : Uuid) (now : DateTime) (r : Db × DeletedEntity)
      → delete_card_tx blake3 db id now ≡ ok r
      → Advances now db r.0
  unfolding delete_card_tx stamp_delete_sequence
  delete_card_tx-Advances db id now r h =
      let (d, h1, h2) = >>=-ok (delete_card_inner blake3 db id) _ h in
      let root = recompute_root_for_ids blake3 d.0 (id ∷ []) now in
      let (s, h3, h4) = >>=-ok (map_err storage_of_sql root) _ h2 in
      let w = delete_card_inner-Writes blake3 db id h1 in
      subst (λ (r : Db × DeletedEntity). Advances now db r.0) (ok-inj h4)
        (Advances-ext now w.root refl
          (recompute_root_for_ids-Advances d.0 (id ∷ []) now s (map_err-ok storage_of_sql root h3)))

  pub push_tag_versions_tx-Advances :
      (db : Db) (versions : List Tag) (now : DateTime) (r : Db × Unit {0})
      → push_tag_versions_tx blake3 db versions now ≡ ok r
      → Advances now db r.0
  unfolding push_tag_versions_tx stamp_tag_sequence
  push_tag_versions_tx-Advances db [] now r h = cc
  push_tag_versions_tx-Advances db (first ∷ rest) now r h =
      let (db1, h1, h2) = >>=-ok (push_tag_versions_inner blake3 db (first ∷ rest)) _ h in
      let (_, h4) =
        >>-ok (validate_batch_implications db1 (PushItem.tags (first ∷ rest) ∷ [])) _ h2 in
      let root = recompute_root_for_ids blake3 db1 (first.id ∷ []) now in
      let (s, h5, h6) = >>=-ok (map_err push_of_sql root) _ h4 in
      let w = push_tag_versions_inner-Writes blake3 db (first ∷ rest) h1 in
      subst (λ (r : Db × Unit {0}). Advances now db r.0) (ok-inj h6)
        (Advances-ext now w.root refl (
          recompute_root_for_ids-Advances db1 (first.id ∷ []) now s
            (map_err-ok push_of_sql root h5)))

  pub delete_tag_tx-Advances :
      (db : Db) (id : Uuid) (now : DateTime) (r : Db × DeletedEntity)
      → delete_tag_tx blake3 db id now ≡ ok r
      → Advances now db r.0
  unfolding delete_tag_tx stamp_delete_sequence
  delete_tag_tx-Advances db id now r h =
      let (d, h1, h2) = >>=-ok (delete_tag_inner blake3 db id) _ h in
      let root = recompute_root_for_ids blake3 d.0 (id ∷ []) now in
      let (s, h3, h4) = >>=-ok (map_err storage_of_sql root) _ h2 in
      let w = delete_tag_inner-Writes blake3 db id h1 in
      subst (λ (r : Db × DeletedEntity). Advances now db r.0) (ok-inj h4)
        (Advances-ext now w.root refl
          (recompute_root_for_ids-Advances d.0 (id ∷ []) now s (map_err-ok storage_of_sql root h3)))
