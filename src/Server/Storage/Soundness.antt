-- ===== src/Server/Storage/Soundness.antt =====
-- What the storage operations promise of the live tags and cards.
use blaze_list.Prelude.{In, subst, ap, ◌≡◌, sym, ◌∙◌, Option, none, List, map}
use blaze_list.Prelude.Btree.{map_get, map_get-inj}
use blaze_list.Prelude.Result.{ok}
use blaze_list.Protocol.Types.{Uuid}
use blaze_list.Protocol.Messages.{PushItem}
use blaze_list.Protocol.Graph.{TagGraph, implies_of, or_empty, from_pairs}
use blaze_list.Protocol.Graph.Cycle.Walk.{IsCycle, IsCycle-mono}
use blaze_list.Protocol.Graph.Cycle.Verdict.{Verdict, detect_cycle-Verdict}
use blaze_list.Protocol.Graph.Cycle.{detect_cycle}
use blaze_list.Server.Db.{Db}
use blaze_list.Server.Live.{tag_live, card_live, IsSound, IsKeyed}
use blaze_list.Server.Implications.{
  validate_batch_implications, overlay_tags, overlay_cards, tag_snapshot, card_snapshot,
}
use blaze_list.Server.Implications.Checks.{check_snapshots-ok, implies_of-from_pairs}
use blaze_list.Server.Implications.Overlay.{
  after_all, tag_effect, card_effect, after_all_idem, map_get-overlay_tags, map_get-overlay_cards,
  map_get-tag_snapshot, map_get-card_snapshot,
}
use blaze_list.Server.Storage.Effects.{Writes}
use blaze_list.Server.Storage.Stamps.{Keeps}

-- The graph of the live tags.
abbrev pub graph_of : Db → TagGraph
graph_of db = from_pairs (tag_snapshot db)

-- Keyed tables whose live tags and cards are sound, without a cycle of implications.
pub record IsValid (db : Db) : Type 0 where
  pub keyed : IsKeyed db
  pub sound : IsSound (tag_live db) (card_live db)
  pub acyclic : ¬ ((c : List Uuid) × IsCycle (graph_of db) c)

-- Valid tables in whose tag graph the search finds no cycle.
pub record IsAccepted (db : Db) : Type 0 where
  pub valid : IsValid db
  pub searched : detect_cycle (graph_of db) ≡ none

IsSound-ext :
    {t u c d : Uuid → Option (List Uuid)}
    → ((j : Uuid) → t j ≡ u j)
    → ((j : Uuid) → c j ≡ d j)
    → IsSound t c
    → IsSound u d
IsSound-ext e f s = record {
  known = λ t p i. rw (← e p) (s.known t p (rw (e t) i));
  closed = λ c t p i j. rw (← f c) (s.closed c t p (rw (f c) i) (rw (e t) j));
}

implies_of-graph_of :
    (db : Db) (u : Uuid) → IsKeyed db → implies_of (graph_of db) u ≡ or_empty (tag_live db u)
implies_of-graph_of db u k =
    let (asc, e) = map_get-tag_snapshot db u k in
    implies_of-from_pairs (tag_snapshot db) u asc ∙ ap or_empty e

-- Fewer implications make no cycle.
pub acyclic_mono :
    (db db' : Db)
    → IsKeyed db
    → IsKeyed db'
    → ((u v : Uuid) → In v (or_empty (tag_live db' u)) → In v (or_empty (tag_live db u)))
    → ¬ ((c : List Uuid) × IsCycle (graph_of db) c)
    → ¬ ((c : List Uuid) × IsCycle (graph_of db') c)
acyclic_mono db db' k k' sub none_before (c, y) = none_before (
  c,
  IsCycle-mono (graph_of db') (graph_of db)
      (λ u v m. rw (implies_of-graph_of db u k) (sub u v (rw (implies_of-graph_of db' u k') at m)))
      c y,
)

pub Keeps-IsValid : {db db' : Db} → Keeps db db' → IsValid db → IsValid db'
Keeps-IsValid {db} {db'} k v = record {
  keyed = k.keyed v.keyed;
  sound = IsSound-ext (λ j. sym (k.tags j)) (λ j. sym (k.cards j)) v.sound;
  acyclic = acyclic_mono db db' v.keyed (k.keyed v.keyed) (λ u w m. rw (k.tags u) at m) v.acyclic;
}

tag_snapshot_ext :
    (db db' : Db)
    → IsKeyed db
    → IsKeyed db'
    → ((j : Uuid) → tag_live db j ≡ tag_live db' j)
    → tag_snapshot db ≡ tag_snapshot db'
tag_snapshot_ext db db' k k' h =
    map_get-inj (tag_snapshot db) (tag_snapshot db') (map_get-tag_snapshot db 0 k).0
      (map_get-tag_snapshot db' 0 k').0
      λ j. (map_get-tag_snapshot db j k).1 ∙ h j ∙ sym (map_get-tag_snapshot db' j k').1

pub Keeps-IsAccepted : {db db' : Db} → Keeps db db' → IsAccepted db → IsAccepted db'
Keeps-IsAccepted {db} {db'} k a =
    let v = Keeps-IsValid k a.valid in
    record {
      valid = v;
      searched = rw (tag_snapshot_ext db' db v.keyed a.valid.keyed k.tags) a.searched;
    }

-- A batch that was written and passes the check leaves accepted tables: the overlay adds nothing to
-- what the batch wrote.
module _ (db db' : Db) (items : List PushItem)
    (w : Writes (after_all (map tag_effect items)) (after_all (map card_effect items)) db db')
    (k : IsKeyed db) where
  k' : IsKeyed db'
  k' = w.keyed k

  tags_overlay : (j : Uuid) → map_get j (overlay_tags items (tag_snapshot db')) ≡ tag_live db' j
  tags_overlay j =
      let (asc, e) = map_get-tag_snapshot db' j k' in
      let over = (map_get-overlay_tags items (tag_snapshot db') j asc).1 in
      rw (over, e, w.tags j) (after_all_idem (map tag_effect items) j (tag_live db j))

  cards_overlay : (j : Uuid) → map_get j (overlay_cards items (card_snapshot db')) ≡ card_live db' j
  cards_overlay j =
      let (asc, e) = map_get-card_snapshot db' j k' in
      let over = (map_get-overlay_cards items (card_snapshot db') j asc).1 in
      rw (over, e, w.cards j) (after_all_idem (map card_effect items) j (card_live db j))

  pub Writes-IsAccepted : validate_batch_implications db' items ≡ ok tt → IsAccepted db'
  unfolding validate_batch_implications
  Writes-IsAccepted h =
      let asc = (map_get-tag_snapshot db' 0 k').0 in
      let asc' = (map_get-overlay_tags items (tag_snapshot db') 0 asc).0 in
      let (sound, acyclic) =
        check_snapshots-ok (overlay_tags items (tag_snapshot db'))
          (overlay_cards items (card_snapshot db')) asc' h in
      let same : overlay_tags items (tag_snapshot db') ≡ tag_snapshot db' =
        map_get-inj (overlay_tags items (tag_snapshot db')) (tag_snapshot db') asc' asc
          λ j. tags_overlay j ∙ sym (map_get-tag_snapshot db' j k').1 in
      record {
        valid = record {
          keyed = k';
          sound = IsSound-ext tags_overlay cards_overlay sound;
          acyclic =
              let clear : detect_cycle (graph_of db') ≡ none = rw same at acyclic in
              subst (Verdict (graph_of db')) clear (detect_cycle-Verdict (graph_of db'));
        };
        searched = rw same at acyclic;
      }
