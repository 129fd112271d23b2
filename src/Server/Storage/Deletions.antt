-- ===== src/Server/Storage/Deletions.antt =====
-- What a deletion, in server/src/storage/sqlite/write.rs, does to the live tags and cards.
use blaze_list.Prelude.{
  ℕ, ◌≡◌, refl, false, not, ◌&&◌, ◌==◌, List, [], ◌∷◌, map, arith, filter, contains,
}
use blaze_list.Prelude.Result.{ok, fail_if, >>-ok}
use blaze_list.Protocol.Types.{Uuid, Hash}
use blaze_list.Protocol.Deleted.{DeletedEntity}
use blaze_list.Protocol.Graph.{or_empty}
use blaze_list.Server.Errors.{StorageError}
use blaze_list.Server.Table.{select}
use blaze_list.Server.Table.Keys.{changed}
use blaze_list.Server.Db.{Db, TagRow, tag_key, is_deleted}
use blaze_list.Server.Live.{tag_live}
use blaze_list.Server.Write.{
  delete_card_inner, delete_tag_inner, present, is_nil, referencing_cards, referencing_tags,
}
use blaze_list.Server.Storage.Effects.{delete_card_inner-Writes, delete_tag_inner-Writes}
use blaze_list.Server.Storage.Soundness.{IsValid, acyclic_mono}

-- Where no other tag implies `id`, what is found under another key does not.
unreferenced_tags :
    (rs : List TagRow) (id t : Uuid)
    → map (λ r. r.tag.id) (filter (λ r. not (r.tag.id == id) && contains r.tag.implies id) rs) ≡ []
    → (t == id) ≡ false
    → contains (or_empty (changed (λ (r : TagRow). r.tag.implies) (select tag_key t rs))) id ≡ false
unfolding select
unreferenced_tags [] id t h n = refl
unreferenced_tags (r ∷ rs) id t h n = ground (arith, unreferenced_tags rs id t)

module _ (blake3 : List ℕ → Hash) where
  pub delete_card_inner-IsValid :
      (db : Db) (id : Uuid) (r : Db × DeletedEntity)
      → IsValid db
      → delete_card_inner blake3 db id ≡ ok r
      → IsValid r.0
  delete_card_inner-IsValid db id r v h =
      let w = delete_card_inner-Writes blake3 db id h in
      record {
        keyed = w.keyed v.keyed;
        sound = record {
          known = λ t p i. ground (arith, w.tags t, w.tags p, v.sound.known t p);
          closed = λ c t p i j. ground (arith, w.cards c, w.tags t, v.sound.closed c t p);
        };
        acyclic =
            acyclic_mono db r.0 v.keyed (w.keyed v.keyed) (λ u q m. ground (arith, w.tags u))
              v.acyclic;
      }

  pub delete_tag_inner-IsValid :
      (db : Db) (id : Uuid) (r : Db × DeletedEntity)
      → IsValid db
      → delete_tag_inner blake3 db id ≡ ok r
      → IsValid r.0
  unfolding delete_tag_inner referencing_cards referencing_tags
  delete_tag_inner-IsValid db id r v h =
      let w = delete_tag_inner-Writes blake3 db id h in
      let (_, h1) = >>-ok (fail_if (is_deleted db id) _) _ h in
      let (_, h2) = >>-ok (fail_if (not (present (select tag_key id db.tags))) _) _ h1 in
      let (_, h3) = >>-ok (fail_if (not (is_nil (referencing_cards db id))) _) _ h2 in
      let (no_tags, _) = >>-ok (fail_if (not (is_nil (referencing_tags db id))) _) _ h3 in
      let no_tag : (t : Uuid) → (t == id) ≡ false → contains (or_empty (tag_live db t)) id ≡ false =
        λ t. unreferenced_tags db.tags id t (
          nil_of_test (referencing_tags db id)
            (StorageError.orphaned_tag_implies_reference id (referencing_tags db id)) no_tags) in
      record {
        keyed = w.keyed v.keyed;
        sound = record {
          known = λ t p i. ground (arith, w.tags t, w.tags p, v.sound.known t p, no_tag t);
          closed = λ c t p i j. ground (arith, w.cards c, w.tags t, v.sound.closed c t p);
        };
        acyclic =
            acyclic_mono db r.0 v.keyed (w.keyed v.keyed) (λ u q m. ground (arith, w.tags u))
              v.acyclic;
      }
    where
      nil_of_test :
          (xs : List Uuid) (e : StorageError) → fail_if (not (is_nil xs)) e ≡ ok tt → xs ≡ []
      nil_of_test [] e h = refl
      nil_of_test (x ∷ xs) e h = absurd (ground arith)
