-- ===== src/Server/Live.antt =====
-- The abstract view of the tables: what each live tag implies, and the tags of each live card.
use blaze_list.Prelude.{ℕ, ◌≡◌, Bool, true, false, Option, none, some, In}
use blaze_list.Protocol.Types.{Uuid, Hash}
use blaze_list.Protocol.Graph.{or_empty}
use blaze_list.Server.Table.{select}
use blaze_list.Server.Table.Distinct.{IsDistinct}
use blaze_list.Prelude.Int.{ℤ}
use blaze_list.Server.Table.Keys.{changed, IsTable}
use blaze_list.Server.Db.{Db, HistoryRow, TagRow, CardRow, tag_key, card_key, deleted_key}
use mathlib.Core.List.{List}

abbrev pub tag_live : Db → Uuid → Option (List Uuid)
tag_live db j = changed (λ (r : TagRow). r.tag.implies) (select tag_key j db.tags)

abbrev pub card_live : Db → Uuid → Option (List Uuid)
card_live db j = changed (λ (r : CardRow). r.card.tags) (select card_key j db.cards)

abbrev pub found : Option (List Uuid) → Bool
found none = false
found (some _) = true

-- Live tags imply live tags only, and the tags of a live card are closed under `implies`.
pub record IsSound (tags cards : Uuid → Option (List Uuid)) : Type 0 where
  pub known : (t p : Uuid) → In p (or_empty (tags t)) → found (tags p) ≡ true
  pub closed :
      (c t p : Uuid)
      → In t (or_empty (cards c))
      → In p (or_empty (tags t))
      → In p (or_empty (cards c))

abbrev pub row_priority : CardRow → ℤ
row_priority r = r.card.priority

-- Unique keys in the tables, and unique priorities of the cards.
pub record IsKeyed (db : Db) : Type 0 where
  pub card_rows : IsTable card_key db.cards
  pub tag_rows : IsTable tag_key db.tags
  pub deleted_rows : IsTable deleted_key db.deleted_entities
  pub priorities : IsDistinct card_key row_priority db.cards

-- The columns of the root: its sequence number, history, hash and buckets.
abbrev pub root_columns : Db → ℕ × List HistoryRow × Hash × List Hash
root_columns db = (db.root_sequence, db.root_history, db.root_hash, db.root_buckets)
