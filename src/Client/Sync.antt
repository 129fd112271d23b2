-- ===== src/Client/Sync.antt =====
-- clients/lib/src/sync.rs. An `IndexMap` is a list of entries in its order.
pub mod Laws
pub mod Held
pub mod Cards
use blaze_list.Prelude.{
  ℕ, Bool, true, false, not, ◌&&◌, ◌||◌, Option, none, some, List, [], ◌∷◌, filter, any, map,
  last_or, ◌==◌, ltb, if◌then◌else◌,
}
use blaze_list.Prelude.Int.{leb_ℤ}
use blaze_list.Prelude.Sort.{sort_by}
use blaze_list.Protocol.Types.{Uuid, zero_hash}
use blaze_list.Protocol.Card.{Card}
use blaze_list.Protocol.Tag.{Tag}
use blaze_list.Protocol.Deleted.{DeletedEntity}
use blaze_list.Protocol.Messages.{ChangeSet}

module _ {A : Type 0} where
  -- `IndexMap::insert`: a key that is there keeps its place.
  unfoldable pub index_insert : Uuid → A → List (Uuid × A) → List (Uuid × A)
  index_insert k v [] = (k, v) ∷ []
  index_insert k v ((j, w) ∷ m) = if j == k then (k, v) ∷ m else (j, w) ∷ index_insert k v m

  -- All but the last entry.
  unfoldable pub init_of : List A → List A
  init_of [] = []
  init_of (x ∷ []) = []
  init_of (x ∷ y ∷ ys) = x ∷ init_of (y ∷ ys)

  -- `(0..n).map(…).collect::<IndexMap<_, _>>()` and the upserts: one insertion for each value.
  unfoldable pub upsert_all : (A → Uuid) → List A → List (Uuid × A) → List (Uuid × A)
  upsert_all id [] m = m
  upsert_all id (v ∷ vs) m = upsert_all id vs (index_insert (id v) v m)

  unfoldable pub values : List (Uuid × A) → List A
  values = map (λ (e : Uuid × A). e.1)

-- The last entry takes the place of the removed one.
abbrev pub fill_gap : {A : Type 0} → List A → List A
fill_gap [] = []
fill_gap (x ∷ xs) = last_or x xs ∷ init_of (x ∷ xs)

-- `IndexMap::swap_remove`
unfoldable pub swap_remove : {A : Type 0} → Uuid → List (Uuid × A) → List (Uuid × A)
swap_remove k [] = []
swap_remove k ((j, w) ∷ m) = if j == k then fill_gap m else (j, w) ∷ swap_remove k m

unfoldable pub remove_deleted :
    {A : Type 0} → List DeletedEntity → List (Uuid × A) → List (Uuid × A)
remove_deleted [] m = m
remove_deleted (d ∷ ds) m = remove_deleted ds (swap_remove d.id m)

abbrev pub card_id : Card → Uuid
card_id c = c.id

abbrev pub tag_id : Tag → Uuid
tag_id t = t.id

-- The map after the removals and the upserts.
unfoldable pub merged :
    {A : Type 0} → (A → Uuid) → List A → List DeletedEntity → List A → List (Uuid × A)
merged id current deleted changed =
    upsert_all id changed (remove_deleted deleted (upsert_all id current []))

unfoldable pub apply_card_changeset : List Card → ChangeSet → List Card
unfolding merged
apply_card_changeset current_cards changes = values (
    sort_by (λ (a : Uuid × Card) (b : Uuid × Card). leb_ℤ b.1.priority a.1.priority)
      (merged card_id current_cards changes.deleted changes.cards))

unfoldable pub apply_tag_changeset : List Tag → ChangeSet → List Tag
unfolding merged
apply_tag_changeset current_tags changes =
    values (merged tag_id current_tags changes.deleted changes.tags)

unfoldable pub still_pending : List Card → Card → Bool
still_pending local_cards queued =
    queued.ancestor_hash == zero_hash
    || not (
        any (λ (lc : Card). lc.id == queued.id && ltb queued.count.value lc.count.value)
          local_cards)

unfoldable pub reconcile_offline_queue : List Card → List Card → List Card
reconcile_offline_queue queue local_cards = filter (still_pending local_cards) queue
