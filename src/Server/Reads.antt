-- ===== src/Server/Reads.antt =====
-- The operations of server/src/storage/sqlite/mod.rs that read. A query without an order gives the
-- rows as they were inserted.
pub mod Changes
use blaze_list.Prelude.{
  ℕ, Bool, true, false, not, Option, none, some, List, [], ◌∷◌, ◌++◌, filter, find, map, take,
  length, contains, ◌==◌, ltb, leb, ◌&&◌, ◌||◌, if◌then◌else◌,
}
use blaze_list.Prelude.Int.{leb_ℤ}
use blaze_list.Prelude.Btree.{map_get, map_insert}
use blaze_list.Prelude.Sort.{sort_by}
use blaze_list.Prelude.Result.{Result, ok, ◌>>=◌, ◌>>◌, map_err, traverse, fail_if}
use blaze_list.Protocol.Types.{Uuid, Hash, Text}
use blaze_list.Protocol.NonNegative.{NonNegativeI64}
use blaze_list.Protocol.Entity.{Entity}
use blaze_list.Protocol.Card.{Card, card_entity}
use blaze_list.Protocol.Tag.{Tag, tag_entity}
use blaze_list.Protocol.Messages.{
  RootState, ChangeSet, CardFilter, all_cards, blazed_cards, extinguished_cards,
}
use blaze_list.Server.Errors.{SqlError, StorageError, storage_of_sql}
use blaze_list.Server.Table.{select}
use blaze_list.Server.Db.{
  Db, CardRow, TagRow, DeletedRow, HistoryRow, CardVersionRow, TagVersionRow, card_key, tag_key,
  card_from_row, tag_from_row, read_root_state,
}

-- ` LIMIT n`
abbrev pub limited {ℓ} : {A : Type ℓ} → Option ℕ → List A → List A
limited none xs = xs
limited (some n) xs = take n xs

-- The order of SQLite on texts: byte by byte.
unfoldable pub text_le : Text → Text → Bool
text_le [] ys = true
text_le (x ∷ xs) [] = false
text_le (x ∷ xs) (y ∷ ys) =
    let rest = text_le xs ys in if ltb x y then true else if x == y then rest else false

unfoldable pub shown_by : CardFilter → Card → Bool
shown_by all_cards c = true
shown_by blazed_cards c = c.blazed
shown_by extinguished_cards c = not c.blazed

unfoldable pub get_root : Db → Result StorageError RootState
get_root db = read_root_state db

unfoldable pub check_root_hash :
    Option HistoryRow → NonNegativeI64 → Hash → Result StorageError (Unit {0})
check_root_hash none sequence expected_hash = ok tt
check_root_hash (some row) sequence expected_hash =
    fail_if (not (row.hash == expected_hash)) (StorageError.root_hash_mismatch sequence row.hash)

module _ (blake3 : List ℕ → Hash) where
  abbrev pub read_cards : List Card → Result StorageError (List Card)
  read_cards cards = map_err storage_of_sql (traverse (card_from_row blake3) cards)

  abbrev pub read_tags : List Tag → Result StorageError (List Tag)
  read_tags tags = map_err storage_of_sql (traverse (tag_from_row blake3) tags)

  abbrev pub optional {ℓ} :
      {A B : Type ℓ} → (A → Result SqlError B) → Option A → Result StorageError (Option B)
  optional f none = ok none
  optional f (some a) = map_err storage_of_sql (f a) >>= λ b. ok (some b)

  unfoldable pub get_card : Db → Uuid → Result StorageError (Option Card)
  get_card db id = optional (λ r. card_from_row blake3 r.card) (select card_key id db.cards)

  unfoldable pub get_tag : Db → Uuid → Result StorageError (Option Tag)
  get_tag db id = optional (λ r. tag_from_row blake3 r.tag) (select tag_key id db.tags)

  -- `WHERE card_id = ? ORDER BY count ASC`
  unfoldable pub get_card_history : Db → Uuid → Option ℕ → Result StorageError (List Card)
  get_card_history db id limit = read_cards (
      limited limit (
        sort_by (λ (c : Card) (d : Card). leb c.count.value d.count.value)
          (filter (λ (c : Card). c.id == id)
            (map (λ (r : CardVersionRow). r.version) db.card_versions))))

  unfoldable pub get_tag_history : Db → Uuid → Option ℕ → Result StorageError (List Tag)
  get_tag_history db id limit = read_tags (
      limited limit (
        sort_by (λ (t : Tag) (u : Tag). leb t.count.value u.count.value)
          (filter (λ (t : Tag). t.id == id)
            (map (λ (r : TagVersionRow). r.version) db.tag_versions))))

  -- `ORDER BY priority DESC`
  unfoldable pub list_cards : Db → CardFilter → Option ℕ → Result StorageError (List Card)
  list_cards db filter_by limit = read_cards (
      limited limit (
        sort_by (λ (c : Card) (d : Card). leb_ℤ d.priority c.priority)
          (filter (shown_by filter_by) (map (λ (r : CardRow). r.card) db.cards))))

  unfoldable pub list_tags : Db → Result StorageError (List Tag)
  list_tags db = read_tags (
      sort_by (λ (t : Tag) (u : Tag). text_le t.title u.title)
        (map (λ (r : TagRow). r.tag) db.tags))

  unfoldable pub get_changes_since : Db → NonNegativeI64 → Hash → Result StorageError ChangeSet
  get_changes_since db sequence expected_hash = do
    let since = sequence.value
    check_root_hash (find (λ r. r.sequence == since) db.root_history) sequence expected_hash
    cards ←
        read_cards
          (map (λ (r : CardRow). r.card) (filter (λ r. ltb since r.root_sequence_at) db.cards))
    tags ←
        read_tags (map (λ (r : TagRow). r.tag) (filter (λ r. ltb since r.root_sequence_at) db.tags))
    root ← read_root_state db
    ok (record {
      cards = cards;
      tags = tags;
      deleted =
          map (λ (r : DeletedRow). r.entity)
            (filter (λ r. ltb since r.root_sequence_at) db.deleted_entities);
      root = root;
    })

abbrev pub or_nil {ℓ} : {A : Type ℓ} → Option (List A) → List A
or_nil none = []
or_nil (some l) = l

abbrev pub is_full {ℓ} : {A : Type ℓ} → Option ℕ → List A → Bool
is_full none entry = false
is_full (some limit) entry = leb limit (length entry)

-- Grouping by identifier; an entity with `limit` versions takes no more.
unfoldable pub group_versions :
    {A : Type 0} → (A → Uuid) → Option ℕ → List A → List (Uuid × List A) → List (Uuid × List A)
group_versions id limit [] m = m
group_versions id limit (v ∷ vs) m =
    let entry = or_nil (map_get (id v) m) in
    group_versions id limit vs
      (map_insert (id v) (if is_full limit entry then entry else entry ++ v ∷ []) m)

-- `WHERE id IN (…)`, or all rows.
abbrev pub wanted : Option (List Uuid) → Uuid → Bool
wanted none id = true
wanted (some ids) id = contains ids id

-- `ORDER BY id, count ASC`
unfoldable pub version_le : {A : Type 0} → Entity A → A → A → Bool
version_le e a b =
    ltb (e.id a) (e.id b) || e.id a == e.id b && leb (e.count a).value (e.count b).value

unfoldable pub get_all_histories :
    {A : Type 0}
    → Entity A
    → (A → Result SqlError A)
    → List A
    → Option ℕ
    → Option (List Uuid)
    → Result StorageError (List (Uuid × List A))
unfolding group_versions version_le
get_all_histories e mapper rows limit_per ids =
    map_err storage_of_sql
      (traverse mapper (sort_by (version_le e) (filter (λ v. wanted ids (e.id v)) rows)))
    >>= λ versions. ok (group_versions e.id limit_per versions [])

module _ (blake3 : List ℕ → Hash) where
  unfoldable pub get_all_card_histories :
      Db → Option ℕ → Option (List Uuid) → Result StorageError (List (Uuid × List Card))
  get_all_card_histories db limit_per_card card_ids =
      get_all_histories (card_entity blake3) (card_from_row blake3)
        (map (λ (r : CardVersionRow). r.version) db.card_versions) limit_per_card card_ids

  unfoldable pub get_all_tag_histories :
      Db → Option ℕ → Option (List Uuid) → Result StorageError (List (Uuid × List Tag))
  get_all_tag_histories db limit_per_tag tag_ids =
      get_all_histories (tag_entity blake3) (tag_from_row blake3)
        (map (λ (r : TagVersionRow). r.version) db.tag_versions) limit_per_tag tag_ids
