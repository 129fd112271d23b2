-- ===== src/Server/Handler/Sequence.antt =====
-- Requests of server/src/handler.rs and the root's sequence.
use blaze_list.Prelude.{ℕ, ◌≡◌, refl, ◌⊎◌, inl, inr, sym, subst, List, [], ◌∷◌}
use blaze_list.Prelude.Result.{Result, ok, err}
use blaze_list.Protocol.Types.{Hash, DateTime}
use blaze_list.Protocol.Messages.{Request}
use blaze_list.Server.Db.{Db}
use blaze_list.Server.Storage.{
  commit, push_batch, push_batch_tx, push_card_versions, push_tag_versions, delete_card, delete_tag,
  push_card_versions_tx, push_tag_versions_tx, delete_card_tx, delete_tag_tx,
}
use blaze_list.Server.Root.History.{IsBounded, All-raise}
use blaze_list.Server.Storage.Roots.{
  Advances, push_batch_tx-Advances, push_card_versions_tx-Advances, push_tag_versions_tx-Advances,
  delete_card_tx-Advances, delete_tag_tx-Advances,
}
use blaze_list.Server.Handler.{handle_request}
use blaze_list.Server.Handler.Valid.{respond_push-tables, respond_batch-tables}

module _ (blake3 : List ℕ → Hash) where
  commit-Advances :
      {E A : Type 0} (now : DateTime) (db : Db) (m : Result E (Db × A))
      → ((r : Db × A) → m ≡ ok r → Advances blake3 now db r.0)
      → ((commit db m).1 ≡ db) ⊎ Advances blake3 now db (commit db m).1
  commit-Advances now db (ok r) h = inr (h r refl)
  commit-Advances now db (err e) h = inl refl

  -- A request leaves the tables as they were, or it moves the root by one: the sequence number goes
  -- up by one, the history gets one row, with the new number, the new hash and the clock's reading,
  -- and the new hash is that of the buckets.
  pub handle_request-Advances :
      (db : Db) (req : Request) (now : DateTime)
      → ((handle_request blake3 db req now).1 ≡ db)
        ⊎ Advances blake3 now db (handle_request blake3 db req now).1
  unfolding handle_request push_batch push_card_versions push_tag_versions delete_card delete_tag
  handle_request-Advances db (Request.push_card_versions versions) now =
      let m = push_card_versions_tx blake3 db versions now in
      rw (respond_push-tables (commit db m))
        (commit-Advances now db m (push_card_versions_tx-Advances blake3 db versions now))
  handle_request-Advances db (Request.push_tag_versions versions) now =
      let m = push_tag_versions_tx blake3 db versions now in
      rw (respond_push-tables (commit db m))
        (commit-Advances now db m (push_tag_versions_tx-Advances blake3 db versions now))
  handle_request-Advances db (Request.push_batch []) now = inl refl
  handle_request-Advances db (Request.push_batch (i ∷ is)) now =
      let m = push_batch_tx blake3 db (i ∷ is) now in
      rw (respond_batch-tables (commit db m))
        (commit-Advances now db m (push_batch_tx-Advances blake3 db (i ∷ is) now))
  handle_request-Advances db (Request.delete_card id) now =
      commit-Advances now db (delete_card_tx blake3 db id now)
        (delete_card_tx-Advances blake3 db id now)
  handle_request-Advances db (Request.delete_tag id) now =
      commit-Advances now db (delete_tag_tx blake3 db id now)
        (delete_tag_tx-Advances blake3 db id now)
  handle_request-Advances db req now = inl refl

  Advances-IsBounded :
      (now : DateTime) (db db' : Db) → Advances blake3 now db db' → IsBounded db → IsBounded db'
  Advances-IsBounded now db db' a h =
      rw (a.sequence, a.history) (All-raise db.root_sequence _ db.root_history refl h)

  -- Every request keeps the numbers in the history at or below the root's.
  pub handle_request-IsBounded :
      (db : Db) (req : Request) (now : DateTime)
      → IsBounded db
      → IsBounded (handle_request blake3 db req now).1
  handle_request-IsBounded db req now h = elim (handle_request-Advances db req now) [
    | inl same ↦ subst IsBounded (sym same) h
    | inr a ↦ Advances-IsBounded now db (handle_request blake3 db req now).1 a h
  ]
