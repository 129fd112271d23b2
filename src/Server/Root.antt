-- ===== src/Server/Root.antt =====
-- server/src/storage/sqlite/root.rs: the bucket hashes and the root hash.
pub mod History
use blaze_list.Prelude.{
  ◌||◌, ℕ, suc, List, [], ◌∷◌, ◌++◌, filter, any, all, map, set, leb, ◌==◌, if◌then◌else◌, ◌||◌,
}
use blaze_list.Prelude.Result.{Result, ok, err}
use blaze_list.Prelude.Sort.{sort_by}
use blaze_list.Protocol.Types.{Uuid, Hash, DateTime, zero_hash}
use blaze_list.Protocol.Bytes.{be_bytes, sort_ids}
use blaze_list.Protocol.Tag.{dedup}
use blaze_list.Server.Errors.{SqlError, sql_error}
use blaze_list.Server.Db.{Db, CardRow, TagRow, DeletedRow, bucket_of}

-- `SELECT hash FROM … WHERE bucket = ? ORDER BY id`, over pairs of key and hash.
unfoldable pub hashes_by_id : List (Uuid × Hash) → List Hash
hashes_by_id rows =
    map (λ p. p.1) (sort_by (λ (p : Uuid × Hash) (q : Uuid × Hash). leb p.0 q.0) rows)

unfoldable pub card_hashes : Db → ℕ → List Hash
card_hashes db bucket =
    hashes_by_id
      (map (λ (r : CardRow). (r.card.id, r.card.hash)) (filter (λ r. r.bucket == bucket) db.cards))

unfoldable pub tag_hashes : Db → ℕ → List Hash
tag_hashes db bucket =
    hashes_by_id
      (map (λ (r : TagRow). (r.tag.id, r.tag.hash)) (filter (λ r. r.bucket == bucket) db.tags))

unfoldable pub deleted_hashes : Db → ℕ → List Hash
deleted_hashes db bucket = hashes_by_id (
    map (λ (r : DeletedRow). (r.entity.id, r.entity.hash))
      (filter (λ r. r.bucket == bucket) db.deleted_entities))

-- `hasher.update(h)` for each hash.
unfoldable pub hash_list_bytes : List Hash → List ℕ
hash_list_bytes [] = []
hash_list_bytes (h ∷ hs) = be_bytes 32 h ++ hash_list_bytes hs

unfoldable pub affected_buckets : List Uuid → List ℕ
affected_buckets ids = dedup (sort_ids (map bucket_of ids))

module _ (blake3 : List ℕ → Hash) where
  abbrev pub hash_run : List Hash → Hash
  hash_run [] = zero_hash
  hash_run (h ∷ hs) = blake3 (hash_list_bytes (h ∷ hs))

  -- The cards, then the tags, then the deleted entities of one bucket.
  unfoldable pub recompute_bucket_hash : Db → ℕ → Hash
  unfolding hash_list_bytes
  recompute_bucket_hash db bucket =
      hash_run (card_hashes db bucket ++ (tag_hashes db bucket ++ deleted_hashes db bucket))

  unfoldable pub root_of_buckets : List Hash → Hash
  root_of_buckets hashes =
      if all (λ h. h == zero_hash) hashes then zero_hash else blake3 (hash_list_bytes hashes)

  -- The new root is stored and written to the history. A number past an `i64` does not read back, and
  -- one that is taken in the history breaks its key: both are SQL errors.
  unfoldable pub recompute_root_from_buckets : Db → DateTime → Result SqlError (Db × ℕ)
  recompute_root_from_buckets db now =
      let root_hash = root_of_buckets db.root_buckets in
      let new_sequence = suc db.root_sequence in
      if leb 9223372036854775807 db.root_sequence
        || any (λ r. r.sequence == new_sequence) db.root_history
      then err sql_error
      else ok (
        record db {
          root_hash = root_hash;
          root_sequence = new_sequence;
          root_history =
              db.root_history
              ++ record { sequence = new_sequence; hash = root_hash; created_at = now } ∷ [];
        },
        new_sequence,
      )

  -- The loop over the buckets that changed.
  unfoldable pub recompute_buckets : Db → List ℕ → Db
  recompute_buckets db [] = db
  recompute_buckets db (b ∷ bs) =
      recompute_buckets
        (record db { root_buckets = set db.root_buckets b (recompute_bucket_hash db b) }) bs

  unfoldable pub recompute_root_for_ids : Db → List Uuid → DateTime → Result SqlError (Db × ℕ)
  recompute_root_for_ids db ids now =
      recompute_root_from_buckets (recompute_buckets db (affected_buckets ids)) now
