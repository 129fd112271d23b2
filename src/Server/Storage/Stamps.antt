-- ===== src/Server/Storage/Stamps.antt =====
-- The root and the stamps of server/src/storage/sqlite/root.rs and write.rs leave the live entities
-- and the keys as they are.
use blaze_list.Prelude.{
  leb, ◌||◌, any, ℕ, suc, ◌≡◌, refl, ◌∙◌, ◌==◌, Bool-cases, inl, inr, List, [], ◌∷◌, arith, any,
  set, subst,
}
use blaze_list.Prelude.Result.{ok, ok-inj}
use blaze_list.Protocol.Types.{Uuid, Hash, DateTime}
use blaze_list.Server.Table.Keys.{select-update, update-IsTable}
use blaze_list.Server.Db.{Db, CardRow, TagRow, DeletedRow, card_key, tag_key, deleted_key}
use blaze_list.Server.Live.{tag_live, card_live, IsKeyed, row_priority}
use blaze_list.Server.Table.Distinct.{update-IsDistinct}
use blaze_list.Server.Root.{
  recompute_root_for_ids, recompute_root_from_buckets, recompute_buckets, recompute_bucket_hash,
}
use blaze_list.Server.Write.{stamp_card_sequence, stamp_tag_sequence, stamp_delete_sequence}
use blaze_list.Server.Storage.{stamp_each, stamp_affected, Affected}

-- The same live entities, and keys that stay keys.
pub record Keeps (db db' : Db) : Type 0 where
  pub tags : (j : Uuid) → tag_live db' j ≡ tag_live db j
  pub cards : (j : Uuid) → card_live db' j ≡ card_live db j
  pub keyed : IsKeyed db → IsKeyed db'

pub Keeps-refl : (db : Db) → Keeps db db
Keeps-refl db = record { tags = λ j. refl; cards = λ j. refl; keyed = λ k. k }

pub Keeps-trans : {a b c : Db} → Keeps a b → Keeps b c → Keeps a c
Keeps-trans h i = record {
  tags = λ j. i.tags j ∙ h.tags j;
  cards = λ j. i.cards j ∙ h.cards j;
  keyed = λ k. i.keyed (h.keyed k);
}

pub stamp_card_sequence-Keeps :
    (db : Db) (id : Uuid) (seq : ℕ) → Keeps db (stamp_card_sequence db id seq)
unfolding stamp_card_sequence
stamp_card_sequence-Keeps db id seq =
    let stamp : CardRow → CardRow = λ r. record r { root_sequence_at = seq } in
    record {
      tags = λ j. refl;
      cards = λ j. ground (arith, select-update card_key id j stamp db.cards (λ r. refl));
      keyed = λ k. record {
        card_rows = update-IsTable card_key id stamp db.cards (λ r. refl) k.card_rows;
        tag_rows = k.tag_rows;
        deleted_rows = k.deleted_rows;
        priorities =
            update-IsDistinct card_key row_priority id stamp db.cards (λ r. refl) k.priorities;
      };
    }

pub stamp_tag_sequence-Keeps :
    (db : Db) (id : Uuid) (seq : ℕ) → Keeps db (stamp_tag_sequence db id seq)
unfolding stamp_tag_sequence
stamp_tag_sequence-Keeps db id seq =
    let stamp : TagRow → TagRow = λ r. record r { root_sequence_at = seq } in
    record {
      tags = λ j. ground (arith, select-update tag_key id j stamp db.tags (λ r. refl));
      cards = λ j. refl;
      keyed = λ k. record {
        card_rows = k.card_rows;
        tag_rows = update-IsTable tag_key id stamp db.tags (λ r. refl) k.tag_rows;
        deleted_rows = k.deleted_rows;
        priorities = k.priorities;
      };
    }

pub stamp_delete_sequence-Keeps :
    (db : Db) (id : Uuid) (seq : ℕ) → Keeps db (stamp_delete_sequence db id seq)
unfolding stamp_delete_sequence
stamp_delete_sequence-Keeps db id seq =
    let stamp : DeletedRow → DeletedRow = λ r. record r { root_sequence_at = seq } in
    record {
      tags = λ j. refl;
      cards = λ j. refl;
      keyed = λ k. record {
        card_rows = k.card_rows;
        tag_rows = k.tag_rows;
        deleted_rows =
            update-IsTable deleted_key id stamp db.deleted_entities (λ r. refl) k.deleted_rows;
        priorities = k.priorities;
      };
    }

stamp_each-Keeps :
    (stamp : Db → Uuid → ℕ → Db)
    → ((db : Db) (id : Uuid) (seq : ℕ) → Keeps db (stamp db id seq))
    → (ids : List Uuid) (seq : ℕ) (db : Db) → Keeps db (stamp_each stamp ids seq db)
unfolding stamp_each
stamp_each-Keeps stamp h [] seq db = Keeps-refl db
stamp_each-Keeps stamp h (id ∷ ids) seq db =
    Keeps-trans (h db id seq) (stamp_each-Keeps stamp h ids seq (stamp db id seq))

pub stamp_affected-Keeps : (a : Affected) (seq : ℕ) (db : Db) → Keeps db (stamp_affected a seq db)
unfolding stamp_affected
stamp_affected-Keeps a seq db =
    Keeps-trans (stamp_each-Keeps stamp_card_sequence stamp_card_sequence-Keeps a.card_ids seq db) (
      Keeps-trans (stamp_each-Keeps stamp_tag_sequence stamp_tag_sequence-Keeps a.tag_ids seq _)
        (stamp_each-Keeps stamp_delete_sequence stamp_delete_sequence-Keeps a.deleted_ids seq _))

module _ (blake3 : List ℕ → Hash) where
  recompute_buckets-Keeps : (db : Db) (bs : List ℕ) → Keeps db (recompute_buckets blake3 db bs)
  unfolding recompute_buckets
  recompute_buckets-Keeps db [] = Keeps-refl db
  recompute_buckets-Keeps db (b ∷ bs) =
      let db1 : Db = record db {
        root_buckets = set db.root_buckets b (recompute_bucket_hash blake3 db b);
      } in
      let first : Keeps db db1 = record {
        tags = λ j. refl;
        cards = λ j. refl;
        keyed = λ k. record {
          card_rows = k.card_rows;
          tag_rows = k.tag_rows;
          deleted_rows = k.deleted_rows;
          priorities = k.priorities;
        };
      } in
      Keeps-trans first (recompute_buckets-Keeps db1 bs)

  recompute_root_from_buckets-Keeps :
      (db : Db) (now : DateTime) (r : Db × ℕ)
      → recompute_root_from_buckets blake3 db now ≡ ok r
      → Keeps db r.0
  unfolding recompute_root_from_buckets
  recompute_root_from_buckets-Keeps db now r h =
      elim (Bool-cases (
        leb 9223372036854775807 db.root_sequence
        || any (λ row. row.sequence == suc db.root_sequence) db.root_history)) [
          | inl b ↦ absurd (ground arith)
          | inr b ↦
              subst (λ (r : Db × ℕ). Keeps db r.0) (ok-inj (rw b at h))
                (record {
                  tags = λ j. refl;
                  cards = λ j. refl;
                  keyed = λ k. record {
                    card_rows = k.card_rows;
                    tag_rows = k.tag_rows;
                    deleted_rows = k.deleted_rows;
                    priorities = k.priorities;
                  };
                })
        ]

  pub recompute_root_for_ids-Keeps :
      (db : Db) (ids : List Uuid) (now : DateTime) (r : Db × ℕ)
      → recompute_root_for_ids blake3 db ids now ≡ ok r
      → Keeps db r.0
  unfolding recompute_root_for_ids
  recompute_root_for_ids-Keeps db ids now r h =
      Keeps-trans (recompute_buckets-Keeps db _)
        (recompute_root_from_buckets-Keeps (recompute_buckets blake3 db _) now r h)
