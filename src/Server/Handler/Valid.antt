-- ===== src/Server/Handler/Valid.antt =====
-- Requests of server/src/handler.rs and the validity of the tables.
use blaze_list.Prelude.{subst, none, ℕ, ◌≡◌, refl, List, [], ◌∷◌, arith}
use blaze_list.Prelude.Result.{Result, ok, err}
use blaze_list.Protocol.Types.{Hash, DateTime}
use blaze_list.Protocol.Messages.{Request}
use blaze_list.Server.Errors.{PushOpError, BatchError}
use blaze_list.Server.Db.{Db, empty_db}
use blaze_list.Server.Table.{select}
use blaze_list.Server.Storage.{
  commit, push_batch, push_batch_tx, push_card_versions, push_tag_versions, delete_card, delete_tag,
  push_card_versions_tx, push_tag_versions_tx, delete_card_tx, delete_tag_tx,
}
use blaze_list.Server.Storage.Soundness.{IsValid, graph_of}
use blaze_list.Protocol.Graph.{from_pairs, pairs_into}
use blaze_list.Protocol.Graph.Cycle.{detect_cycle, search_from}
use blaze_list.Protocol.Graph.Cycle.Verdict.{Verdict, detect_cycle-Verdict}
use blaze_list.Server.Implications.{tag_snapshot}
use blaze_list.Server.Storage.Operations.{
  push_batch_tx-IsAccepted, push_card_versions_tx-IsAccepted, push_tag_versions_tx-IsAccepted,
  delete_card_tx-IsValid, delete_tag_tx-IsValid,
}
use blaze_list.Server.Handler.{handle_request, respond_push, respond_batch}

-- A transaction keeps what it keeps when it succeeds.
commit-IsValid :
    {E A : Type 0} (db : Db) (m : Result E (Db × A))
    → IsValid db
    → ((r : Db × A) → m ≡ ok r → IsValid r.0)
    → IsValid (commit db m).1
commit-IsValid db (ok r) v h = h r refl
commit-IsValid db (err e) v h = v

pub respond_push-tables : (r : Result PushOpError (Unit {0}) × Db) → (respond_push r).1 ≡ r.1
respond_push-tables (ok _, db) = refl
respond_push-tables (err e, db) = refl

pub respond_batch-tables : (r : Result BatchError (Unit {0}) × Db) → (respond_batch r).1 ≡ r.1
respond_batch-tables (ok _, db) = refl
respond_batch-tables (err e, db) = refl

empty_db_clear : detect_cycle (graph_of empty_db) ≡ none
unfolding detect_cycle search_from empty_db from_pairs pairs_into tag_snapshot
empty_db_clear = refl

-- A new server's tables are valid.
pub empty_db-IsValid : IsValid empty_db
unfolding empty_db select
empty_db-IsValid = record {
  keyed = record { card_rows = tt; tag_rows = tt; deleted_rows = tt; priorities = tt };
  sound = record {
    known = λ t p i. absurd (ground arith);
    closed = λ c t p i j. absurd (ground arith);
  };
  acyclic =
      subst (Verdict (graph_of empty_db)) empty_db_clear (detect_cycle-Verdict (graph_of empty_db));
}

module _ (blake3 : List ℕ → Hash) where
  -- Whatever the request and its outcome, valid tables stay valid: keys are unique, no two cards have
  -- the same priority, live tags imply live tags only, the tags of each live card are closed under
  -- `implies`, and the live tags' implications have no cycle.
  pub handle_request-IsValid :
      (db : Db) (req : Request) (now : DateTime)
      → IsValid db
      → IsValid (handle_request blake3 db req now).1
  unfolding handle_request push_batch push_card_versions push_tag_versions delete_card delete_tag
  handle_request-IsValid db (Request.push_card_versions versions) now v =
      let m = push_card_versions_tx blake3 db versions now in
      rw (respond_push-tables (commit db m)) (
        commit-IsValid db m v
          λ r h. (push_card_versions_tx-IsAccepted blake3 db versions now r v.keyed h).valid)
  handle_request-IsValid db (Request.push_tag_versions versions) now v =
      let m = push_tag_versions_tx blake3 db versions now in
      rw (respond_push-tables (commit db m)) (
        commit-IsValid db m v
          λ r h. (push_tag_versions_tx-IsAccepted blake3 db versions now r v.keyed h).valid)
  handle_request-IsValid db (Request.push_batch []) now v = v
  handle_request-IsValid db (Request.push_batch (i ∷ is)) now v =
      let m = push_batch_tx blake3 db (i ∷ is) now in
      rw (respond_batch-tables (commit db m)) (
        commit-IsValid db m v
          λ r h. (push_batch_tx-IsAccepted blake3 db (i ∷ is) now r v.keyed h).valid)
  handle_request-IsValid db (Request.delete_card id) now v =
      commit-IsValid db (delete_card_tx blake3 db id now) v
        λ r h. delete_card_tx-IsValid blake3 db id now r v h
  handle_request-IsValid db (Request.delete_tag id) now v =
      commit-IsValid db (delete_tag_tx blake3 db id now) v
        λ r h. delete_tag_tx-IsValid blake3 db id now r v h
  handle_request-IsValid db req now v = v
