-- ===== src/System/Trace.antt =====
-- Requests to server/src/handler.rs one after the other, and what they keep of a server that began
-- with empty tables.
use blaze_list.Prelude.{
  ℕ, suc, ◌≤◌, ◌≡◌, refl, sym, ap, subst, none, some, List, [], ◌∷◌, ◌++◌, inl, inr, ◌⊎◌, arith,
  All, find, ◌==◌, if◌then◌else◌,
}
use blaze_list.Prelude.Result.{Result, ok, err}
use blaze_list.Protocol.Types.{Hash, DateTime}
use blaze_list.Protocol.NonNegative.{NonNegativeI64}
use blaze_list.Protocol.Messages.{Request, PushItem}
use blaze_list.Server.Db.{Db, HistoryRow, empty_db}
use blaze_list.Server.Table.{select}
use blaze_list.Server.Reads.{check_root_hash}
use blaze_list.Server.Storage.{
  commit, push_batch, push_batch_tx, push_card_versions, push_tag_versions, delete_card, delete_tag,
  push_card_versions_tx, push_tag_versions_tx, delete_card_tx, delete_tag_tx,
}
use blaze_list.Server.Storage.Conforms.{Kinds, Conforms}
use blaze_list.Server.Storage.Applied.{
  Applied, push_batch_tx-Applied, push_card_versions_tx-Applied, push_tag_versions_tx-Applied,
  delete_card_tx-Applied, delete_tag_tx-Applied,
}
use blaze_list.Server.Storage.Moves.{Moves, Moves-refl, Moves-trans, Applied-Moves}
use blaze_list.Server.Storage.Orderly.{Orderly, Applied-Orderly}
use blaze_list.Server.Storage.Soundness.{IsValid}
use blaze_list.Server.Root.History.{IsBounded}
use blaze_list.Server.Handler.{handle_request}
use blaze_list.Server.Handler.Valid.{
  respond_push-tables, respond_batch-tables, handle_request-IsValid, empty_db-IsValid,
}
use blaze_list.Server.Handler.Sequence.{handle_request-Advances, handle_request-IsBounded}

-- The items that a request writes.
abbrev pub items_of : Request → List PushItem
items_of (Request.push_card_versions versions) = PushItem.cards versions ∷ []
items_of (Request.push_tag_versions versions) = PushItem.tags versions ∷ []
items_of (Request.push_batch items) = items
items_of (Request.delete_card id) = PushItem.delete_card id ∷ []
items_of (Request.delete_tag id) = PushItem.delete_tag id ∷ []
items_of _ = []

abbrev pub ConformsTo : Kinds → Request × DateTime → Type 0
ConformsTo is_card (req, now) = All (Conforms is_card) (items_of req)

module _ (blake3 : List ℕ → Hash) where
  unfoldable pub run : Db → List (Request × DateTime) → Db
  run db [] = db
  run db ((req, now) ∷ rest) = run (handle_request blake3 db req now).1 rest

  commit-Applied :
      {E A : Type 0} (db : Db) (items : List PushItem) (now : DateTime) (m : Result E (Db × A))
      → ((r : Db × A) → m ≡ ok r → Applied blake3 db items now r.0)
      → ((commit db m).1 ≡ db) ⊎ Applied blake3 db items now (commit db m).1
  commit-Applied db items now (ok r) h = inr (h r refl)
  commit-Applied db items now (err e) h = inl refl

  -- A request leaves the tables as they were, or applies its items.
  handle_request-Applied :
      (db : Db) (req : Request) (now : DateTime)
      → ((handle_request blake3 db req now).1 ≡ db)
        ⊎ Applied blake3 db (items_of req) now (handle_request blake3 db req now).1
  unfolding handle_request push_batch push_card_versions push_tag_versions delete_card delete_tag
  handle_request-Applied db (Request.push_card_versions versions) now =
      let m = push_card_versions_tx blake3 db versions now in
      rw (respond_push-tables (commit db m))
        (commit-Applied db _ now m (push_card_versions_tx-Applied blake3 db versions now))
  handle_request-Applied db (Request.push_tag_versions versions) now =
      let m = push_tag_versions_tx blake3 db versions now in
      rw (respond_push-tables (commit db m))
        (commit-Applied db _ now m (push_tag_versions_tx-Applied blake3 db versions now))
  handle_request-Applied db (Request.push_batch []) now = inl refl
  handle_request-Applied db (Request.push_batch (i ∷ is)) now =
      let m = push_batch_tx blake3 db (i ∷ is) now in
      rw (respond_batch-tables (commit db m))
        (commit-Applied db _ now m (push_batch_tx-Applied blake3 db (i ∷ is) now))
  handle_request-Applied db (Request.delete_card id) now =
      commit-Applied db _ now (delete_card_tx blake3 db id now)
        (delete_card_tx-Applied blake3 db id now)
  handle_request-Applied db (Request.delete_tag id) now =
      commit-Applied db _ now (delete_tag_tx blake3 db id now)
        (delete_tag_tx-Applied blake3 db id now)
  handle_request-Applied db req now = inl refl

  -- The history agrees with a number and its hash, as `get_changes_since` checks it.
  abbrev pub Agrees : Db → NonNegativeI64 → Hash → Type 0
  Agrees db sequence hash =
      check_root_hash (find (λ r. r.sequence == sequence.value) db.root_history) sequence hash
      ≡ ok tt

  find-append :
      (rs : List HistoryRow) (r : HistoryRow) (s : ℕ)
      → find (λ x. x.sequence == s) (rs ++ r ∷ []) ≡ elim (find (λ x. x.sequence == s) rs) [
        | none ↦ if r.sequence == s then some r else none
        | some x ↦ some x
      ]
  find-append [] r s = ground arith
  find-append (x ∷ rs) r s = ground (arith, find-append rs r s)

  find-bounded :
      (rs : List HistoryRow) (n : ℕ)
      → All (λ (r : HistoryRow). r.sequence ≤ n) rs
      → find (λ (x : HistoryRow). x.sequence == suc n) rs ≡ none
  find-bounded [] n h = refl
  find-bounded (x ∷ rs) n h = ground (arith, find-bounded rs n h.1)

  module _ (is_card : Kinds) where
    -- What a server that began with empty tables keeps.
    pub record Good (db : Db) : Type 0 where
      pub valid : IsValid db
      pub orderly : Orderly blake3 is_card db
      pub bounded : IsBounded db
      pub in_range : db.root_sequence ≤ 9223372036854775807
      pub recorded : Agrees db (record { value = db.root_sequence }) db.root_hash

    -- A request that conforms, from good tables.
    module _ (db : Db) (req : Request) (now : DateTime) (c : ConformsTo is_card (req, now))
        (g : Good db) where
      abbrev next : Db
      next = (handle_request blake3 db req now).1

      -- The row that a move of the root adds to the history.
      abbrev next_row : HistoryRow
      next_row = record { sequence = suc db.root_sequence; hash = next.root_hash; created_at = now }

      next-number : db.root_sequence ≤ next.root_sequence
      next-number = elim (handle_request-Advances blake3 db req now) [
        | inl e ↦ omega (arith, ap (λ (d : Db). d.root_sequence) e)
        | inr a ↦ omega (arith, a.sequence)
      ]

      next-Moves : (s : ℕ) → s ≤ db.root_sequence → Moves s db next
      next-Moves s le = elim (handle_request-Applied db req now) [
        | inl e ↦ subst (Moves s db) (sym e) (Moves-refl s db)
        | inr a ↦ Applied-Moves blake3 is_card s db (items_of req) now next le c a
      ]

      next-Agrees :
          (sequence : NonNegativeI64) (hash : Hash)
          → sequence.value ≤ db.root_sequence
          → Agrees db sequence hash
          → Agrees next sequence hash
      unfolding check_root_hash
      next-Agrees sequence hash le h = elim (handle_request-Advances blake3 db req now) [
        | inl e ↦ subst (λ d. Agrees d sequence hash) (sym e) h
        | inr a ↦ rw a.history (ground (arith, find-append db.root_history next_row sequence.value))
      ]

      next-recorded : Agrees next (record { value = next.root_sequence }) next.root_hash
      unfolding check_root_hash
      next-recorded = elim (handle_request-Advances blake3 db req now) [
        | inl e ↦
            subst (λ (d : Db). Agrees d (record { value = d.root_sequence }) d.root_hash) (sym e)
              g.recorded
        | inr a ↦
            rw (a.history, a.sequence)
              (ground (
                arith,
                find-append db.root_history next_row (suc db.root_sequence),
                find-bounded db.root_history db.root_sequence g.bounded,
              ))
      ]

      next-in_range : next.root_sequence ≤ 9223372036854775807
      next-in_range = elim (handle_request-Advances blake3 db req now) [
        | inl e ↦ subst (λ (d : Db). d.root_sequence ≤ 9223372036854775807) (sym e) g.in_range
        | inr a ↦ a.in_range
      ]

      next-Good : Good next
      next-Good = record {
        valid = handle_request-IsValid blake3 db req now g.valid;
        orderly = elim (handle_request-Applied db req now) [
          | inl e ↦ subst (Orderly blake3 is_card) (sym e) g.orderly
          | inr a ↦ Applied-Orderly blake3 is_card db (items_of req) now next c a g.orderly
        ];
        bounded = handle_request-IsBounded blake3 db req now g.bounded;
        in_range = next-in_range;
        recorded = next-recorded;
      }

    -- A server that began with empty tables keeps good tables under requests that conform.
    pub run-Good :
        (db : Db) (reqs : List (Request × DateTime))
        → All (ConformsTo is_card) reqs
        → Good db
        → Good (run db reqs)
    unfolding run
    run-Good db [] c g = g
    run-Good db ((req, now) ∷ reqs) c g =
        run-Good (handle_request blake3 db req now).1 reqs c.1 (next-Good db req now c.0 g)

    -- What a client knew at a number is what the server still stands by, and all that moved since
    -- is marked with a later number.
    pub run-Moves :
        (old db : Db) (reqs : List (Request × DateTime)) (hash : Hash)
        → All (ConformsTo is_card) reqs
        → Good db
        → old.root_sequence ≤ db.root_sequence
        → Moves old.root_sequence old db
        → Agrees db (record { value = old.root_sequence }) hash
        → Moves old.root_sequence old (run db reqs)
          × Agrees (run db reqs) (record { value = old.root_sequence }) hash
    unfolding run
    run-Moves old db [] hash c g le m a = (m, a)
    run-Moves old db ((req, now) ∷ reqs) hash c g le m a =
        let db' = (handle_request blake3 db req now).1 in
        run-Moves old db' reqs hash c.1 (next-Good db req now c.0 g)
          (omega (arith, next-number db req now c.0 g))
          (Moves-trans old.root_sequence old db db' m
            (next-Moves db req now c.0 g old.root_sequence le))
          (next-Agrees db req now c.0 g (record { value = old.root_sequence }) hash le a)

    pub empty_db-Good : Good empty_db
    unfolding empty_db check_root_hash select
    empty_db-Good = record {
      valid = empty_db-IsValid;
      orderly = record {
        card_reads = λ j. tt;
        tag_reads = λ j. tt;
        card_kind = λ j. cc;
        tag_kind = λ j. cc;
        card_apart = λ j. cc;
        tag_apart = λ j. cc;
      };
      bounded = tt;
      in_range = omega arith;
      recorded = refl;
    }
