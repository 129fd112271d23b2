-- ===== src/Server/Root/History.antt =====
-- The numbers in the root's history, and when server/src/storage/sqlite/root.rs can write the next.
use blaze_list.Prelude.{
  le→leb, leb, ◌<◌, ℕ, suc, ◌≤◌, ◌≡◌, refl, false, ◌==◌, List, [], ◌∷◌, ◌++◌, arith, All, any, set,
  inl, inr,
}
use blaze_list.Prelude.Result.{ok, Result-cases}
use blaze_list.Protocol.Types.{Uuid, Hash, DateTime}
use blaze_list.Server.Db.{read_root_state, Db, HistoryRow}
use blaze_list.Server.Root.{
  recompute_root_for_ids, recompute_root_from_buckets, recompute_buckets, recompute_bucket_hash,
  affected_buckets,
}

-- No row of the history has a number past the root's.
abbrev pub IsBounded : Db → Type 0
IsBounded db = All (λ (r : HistoryRow). r.sequence ≤ db.root_sequence) db.root_history

pub All-raise :
    (n : ℕ) (r : HistoryRow) (rs : List HistoryRow)
    → r.sequence ≡ suc n
    → All (λ (s : HistoryRow). s.sequence ≤ n) rs
    → All (λ (s : HistoryRow). s.sequence ≤ suc n) (rs ++ r ∷ [])
All-raise n r [] e h = (omega arith, tt)
All-raise n r (s ∷ rs) e h = (omega arith, All-raise n r rs e h.1)

any_next :
    (n : ℕ) (rs : List HistoryRow)
    → All (λ (s : HistoryRow). s.sequence ≤ n) rs
    → any (λ (r : HistoryRow). r.sequence == suc n) rs ≡ false
any_next n [] h = refl
any_next n (s ∷ rs) h = ground (arith, any_next n rs h.1)

pub read_root_state_lem :
    (db : Db)
    → db.root_sequence ≤ 9223372036854775807
    → read_root_state db
      ≡ ok (record { hash = db.root_hash; sequence = record { value = db.root_sequence } })
unfolding read_root_state
read_root_state_lem db i = rw (le→leb db.root_sequence 9223372036854775807 i) refl

module _ (blake3 : List ℕ → Hash) where
  pub recompute_buckets-columns :
      (db : Db) (bs : List ℕ)
      → ((recompute_buckets blake3 db bs).root_sequence ≡ db.root_sequence)
        × ((recompute_buckets blake3 db bs).root_history ≡ db.root_history)
  unfolding recompute_buckets
  recompute_buckets-columns db [] = (refl, refl)
  recompute_buckets-columns db (b ∷ bs) =
      recompute_buckets-columns
        (record db { root_buckets = set db.root_buckets b (recompute_bucket_hash blake3 db b) }) bs

  -- Where no row of the history has a number past the root's and that is below the largest `i64`, the
  -- new root of any entities is stored: the SQL errors for a number that is taken and for one that
  -- does not read back do not arise.
  pub recompute_root_for_ids_total :
      (db : Db) (ids : List Uuid) (now : DateTime)
      → IsBounded db
      → db.root_sequence < 9223372036854775807
      → (r : Db × ℕ) × (recompute_root_for_ids blake3 db ids now ≡ ok r)
  unfolding recompute_root_for_ids recompute_root_from_buckets
  recompute_root_for_ids_total db ids now h l =
      let (seq, past) = recompute_buckets-columns db (affected_buckets ids) in
      let unread : leb 9223372036854775807 db.root_sequence ≡ false = ground arith in
      elim (Result-cases (recompute_root_for_ids blake3 db ids now)) [
        | inl found ↦ found
        | inr (e, failed) ↦
            absurd
              (cc (rw (seq, past, unread, any_next db.root_sequence db.root_history h) at failed))
      ]
