-- ===== src/Server/Implications/Overlay.antt =====
-- The overlay of a batch, in server/src/storage/sqlite/implications.rs, as a sequence of writes to
-- a map. Writing them twice is writing them once.
use blaze_list.Prelude.{
  ◌≡◌, refl, ◌⊎◌, inl, inr, ◌==◌, if◌then◌else◌, Option, none, some, List, [], ◌∷◌, arith, map,
  last_or, Bool-cases,
}
use blaze_list.Prelude.Btree.{
  keys, map_get, map_insert, map_remove, IsAscending, map_get-map_insert, map_get-map_remove,
  map_insert-IsAscending, map_remove-IsAscending,
}
use blaze_list.Protocol.Types.{Uuid}
use blaze_list.Protocol.Messages.{PushItem}
use blaze_list.Protocol.Graph.{pairs_into}
use blaze_list.Server.Table.{select}
use blaze_list.Server.Table.Keys.{changed, IsTable}
use blaze_list.Server.Db.{Db, TagRow, CardRow, tag_key, card_key}
use blaze_list.Server.Live.{tag_live, card_live, IsKeyed}
use blaze_list.Server.Implications.{
  UuidMap, overlay_tags, overlay_cards, tag_snapshot, card_snapshot,
}

-- One write: a key with its new value or its removal; `none` writes nothing.
abbrev pub Effect : Type 0
Effect = Option (Uuid × Option (List Uuid))

abbrev pub after : Effect → Uuid → Option (List Uuid) → Option (List Uuid)
after none j o = o
after (some (k, v)) j o = if j == k then v else o

abbrev pub after_all : List Effect → Uuid → Option (List Uuid) → Option (List Uuid)
after_all [] j o = o
after_all (e ∷ es) j o = after_all es j (after e j o)

abbrev pub tag_effect : PushItem → Effect
tag_effect (PushItem.cards _) = none
tag_effect (PushItem.tags []) = none
tag_effect (PushItem.tags (v ∷ vs)) = some ((last_or v vs).id, some (last_or v vs).implies)
tag_effect (PushItem.delete_card _) = none
tag_effect (PushItem.delete_tag id) = some (id, none)

abbrev pub card_effect : PushItem → Effect
card_effect (PushItem.cards []) = none
card_effect (PushItem.cards (v ∷ vs)) = some ((last_or v vs).id, some (last_or v vs).tags)
card_effect (PushItem.tags _) = none
card_effect (PushItem.delete_card id) = some (id, none)
card_effect (PushItem.delete_tag _) = none

-- A key is written or not, whatever it held.
after_all-cases :
    (es : List Effect) (j : Uuid)
    → ((o : Option (List Uuid)) → after_all es j o ≡ o)
      ⊎ ((c : Option (List Uuid)) × ((o : Option (List Uuid)) → after_all es j o ≡ c))
after_all-cases [] j = inl λ o. refl
after_all-cases (none ∷ es) j = after_all-cases es j
after_all-cases (some (k, v) ∷ es) j = elim (after_all-cases es j) [
  | inl h ↦ elim (Bool-cases (j == k)) [
    | inl b ↦ inr (v, λ o. rw b (h v))
    | inr b ↦ inl (λ o. rw b (h o))
  ]
  | inr (c, h) ↦ inr (c, λ o. h (if j == k then v else o))
]

pub after_all_idem :
    (es : List Effect) (j : Uuid) (o : Option (List Uuid))
    → after_all es j (after_all es j o) ≡ after_all es j o
after_all_idem es j o = elim (after_all-cases es j) [
  | inl h ↦ h (after_all es j o)
  | inr (c, h) ↦ rw (h o, h c) refl
]

pub map_get-overlay_tags :
    (items : List PushItem) (m : UuidMap) (j : Uuid)
    → IsAscending (keys m)
    → IsAscending (keys (overlay_tags items m))
      × (map_get j (overlay_tags items m) ≡ after_all (map tag_effect items) j (map_get j m))
unfolding overlay_tags
map_get-overlay_tags [] m j h = (h, refl)
map_get-overlay_tags (PushItem.cards vs ∷ items) m j h = map_get-overlay_tags items m j h
map_get-overlay_tags (PushItem.delete_card id ∷ items) m j h = map_get-overlay_tags items m j h
map_get-overlay_tags (PushItem.tags [] ∷ items) m j h = map_get-overlay_tags items m j h
map_get-overlay_tags (PushItem.tags (v ∷ vs) ∷ items) m j h =
    let w = last_or v vs in
    rw (map_get-map_insert w.id j w.implies m) at (
      map_get-overlay_tags items (map_insert w.id w.implies m) j
        (map_insert-IsAscending w.id w.implies m h))
map_get-overlay_tags (PushItem.delete_tag id ∷ items) m j h =
    rw (map_get-map_remove id j m h) at
      (map_get-overlay_tags items (map_remove id m) j (map_remove-IsAscending id m h))

pub map_get-overlay_cards :
    (items : List PushItem) (m : UuidMap) (j : Uuid)
    → IsAscending (keys m)
    → IsAscending (keys (overlay_cards items m))
      × (map_get j (overlay_cards items m) ≡ after_all (map card_effect items) j (map_get j m))
unfolding overlay_cards
map_get-overlay_cards [] m j h = (h, refl)
map_get-overlay_cards (PushItem.tags vs ∷ items) m j h = map_get-overlay_cards items m j h
map_get-overlay_cards (PushItem.delete_tag id ∷ items) m j h = map_get-overlay_cards items m j h
map_get-overlay_cards (PushItem.cards [] ∷ items) m j h = map_get-overlay_cards items m j h
map_get-overlay_cards (PushItem.cards (v ∷ vs) ∷ items) m j h =
    let w = last_or v vs in
    rw (map_get-map_insert w.id j w.tags m) at (
      map_get-overlay_cards items (map_insert w.id w.tags m) j
        (map_insert-IsAscending w.id w.tags m h))
map_get-overlay_cards (PushItem.delete_card id ∷ items) m j h =
    rw (map_get-map_remove id j m h) at
      (map_get-overlay_cards items (map_remove id m) j (map_remove-IsAscending id m h))

-- The map that is built from the rows of a keyed table finds what the table finds.
map_get-rows :
    {A : Type 0} (key : A → Uuid) (val : A → List Uuid) (rs : List A) (m : UuidMap) (j : Uuid)
    → IsTable key rs
    → IsAscending (keys m)
    → IsAscending (keys (pairs_into (map (λ r. (key r, val r)) rs) m))
      × (map_get j (pairs_into (map (λ r. (key r, val r)) rs) m)
          ≡ elim (changed val (select key j rs)) [ none ↦ map_get j m | some v ↦ some v ])
unfolding pairs_into select
map_get-rows key val [] m j t h = (h, refl)
map_get-rows key val (r ∷ rs) m j t h =
    let (asc, rest) =
      map_get-rows key val rs (map_insert (key r) (val r) m) j t.1
        (map_insert-IsAscending (key r) (val r) m h) in
    (asc, ground (arith, map_get-map_insert (key r) j (val r) m))

pub map_get-tag_snapshot :
    (db : Db) (j : Uuid)
    → IsKeyed db
    → IsAscending (keys (tag_snapshot db)) × (map_get j (tag_snapshot db) ≡ tag_live db j)
unfolding tag_snapshot map_get
map_get-tag_snapshot db j k =
    let (asc, e) =
      map_get-rows tag_key (λ (r : TagRow). r.tag.implies) db.tags [] j k.tag_rows tt in
    (asc, ground arith)

pub map_get-card_snapshot :
    (db : Db) (j : Uuid)
    → IsKeyed db
    → IsAscending (keys (card_snapshot db)) × (map_get j (card_snapshot db) ≡ card_live db j)
unfolding card_snapshot map_get
map_get-card_snapshot db j k =
    let (asc, e) =
      map_get-rows card_key (λ (r : CardRow). r.card.tags) db.cards [] j k.card_rows tt in
    (asc, ground arith)
