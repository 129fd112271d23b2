-- ===== src/Server/Implications/Checks.antt =====
-- What the three checks of server/src/storage/sqlite/implications.rs let through.
use blaze_list.Prelude.{
  ◌≡◌, refl, inl, inr, false, not, none, some, List, [], ◌∷◌, arith, In, contains, contains-filter,
  filter, Bool-cases, Option-cases, List-cases, ◌==◌,
}
use blaze_list.Prelude.Btree.{
  keys, map_get, map_insert, IsAscending, map_get_below, map_get-map_insert,
}
use blaze_list.Prelude.Result.{ok, >>-ok}
use blaze_list.Protocol.Types.{Uuid}
use blaze_list.Protocol.Graph.{
  TagGraph, pairs_into, from_pairs, implies_of, or_empty, missing_for_card,
}
use blaze_list.Protocol.Graph.Reach.{IsClosed}
use blaze_list.Protocol.Graph.Missing.{missing_for_card-nil_iff}
use blaze_list.Protocol.Graph.Cycle.{detect_cycle}
use blaze_list.Server.Live.{IsSound, found}
use blaze_list.Server.Implications.{
  UuidMap, check_dangling, check_acyclic, check_closed, check_snapshots,
}

-- The graph of a map finds what the map finds.
map_get-pairs_into :
    (j : Uuid) (ps m : UuidMap)
    → IsAscending (keys ps)
    → map_get j (pairs_into ps m) ≡ elim (map_get j ps) [ none ↦ map_get j m | some v ↦ some v ]
unfolding pairs_into map_get
map_get-pairs_into j [] m h = refl
map_get-pairs_into j ((k, v) ∷ ps) m h = ground (
  arith,
  map_get-pairs_into j ps (map_insert k v m) h.1,
  map_get-map_insert k j v m,
  map_get_below k ps h.0,
)

pub implies_of-from_pairs :
    (m : UuidMap) (j : Uuid)
    → IsAscending (keys m)
    → implies_of (from_pairs m) j ≡ or_empty (map_get j m)
unfolding implies_of from_pairs map_get
implies_of-from_pairs m j h = ground (arith, map_get-pairs_into j m [] h)

contains-keys : (j : Uuid) (m : UuidMap) → contains (keys m) j ≡ found (map_get j m)
unfolding map_get
contains-keys j [] = refl
contains-keys j ((k, v) ∷ m) = ground (arith, contains-keys j m)

-- Nothing is filtered out of a list that a test accepts whole.
held_of_filter-nil :
    (live xs : List Uuid) (p : Uuid)
    → filter (λ q. not (contains live q)) xs ≡ []
    → In p xs
    → In p live
held_of_filter-nil live xs p e m =
    ground (arith, contains-filter (λ q. not (contains live q)) xs p, ap-contains)
  where
    ap-contains : contains (filter (λ q. not (contains live q)) xs) p ≡ false
    ap-contains = rw e refl

check_dangling-ok :
    (live : List Uuid) (m : UuidMap) (t p : Uuid)
    → check_dangling live m ≡ ok tt
    → In p (or_empty (map_get t m))
    → In p live
unfolding check_dangling map_get
check_dangling-ok live [] t p h i = absurd (ground arith)
check_dangling-ok live ((k, v) ∷ m) t p h i =
    elim (List-cases (filter (λ q. not (contains live q)) v)) [
      | inl e ↦ ground (arith, check_dangling-ok live m t p, held_of_filter-nil live v p e)
      | inr (x, xs, e) ↦ absurd (ground arith)
    ]

check_closed-ok :
    (g : TagGraph) (m : UuidMap) (c : Uuid)
    → check_closed g m ≡ ok tt
    → IsClosed g (or_empty (map_get c m))
unfolding check_closed map_get
check_closed-ok g [] c h = λ u v i j. absurd (ground arith)
check_closed-ok g ((k, tags) ∷ m) c h = elim (List-cases (missing_for_card g tags)) [
  | inl e ↦
      let here = (missing_for_card-nil_iff g tags).0 e in
      let rest = check_closed-ok g m c (ground arith) in
      elim (Bool-cases (c == k)) [ inl b ↦ rw b here | inr b ↦ rw b rest ]
  | inr (x, xs, e) ↦ absurd (ground arith)
]

check_acyclic-ok : (g : TagGraph) → check_acyclic g ≡ ok tt → detect_cycle g ≡ none
unfolding check_acyclic
check_acyclic-ok g h = elim (Option-cases (detect_cycle g)) [
  | inl e ↦ e
  | inr (c, e) ↦ absurd (ground arith)
]

-- Maps that pass the checks imply known tags only and close every card, and the search finds no
-- cycle in their graph.
pub check_snapshots-ok :
    (tags cards : UuidMap)
    → IsAscending (keys tags)
    → check_snapshots tags cards ≡ ok tt
    → IsSound (λ j. map_get j tags) (λ j. map_get j cards) × (detect_cycle (from_pairs tags) ≡ none)
unfolding check_snapshots
check_snapshots-ok tags cards asc h =
    let g = from_pairs tags in
    let (h1, h2) = >>-ok (check_dangling (keys tags) tags) _ h in
    let (h3, h4) = >>-ok (check_acyclic g) _ h2 in
    (
      record {
        known = λ t p i.
            ground (arith, check_dangling-ok (keys tags) tags t p h1 i, contains-keys p tags);
        closed = λ c t p i j.
            check_closed-ok g cards c h4 t p i (rw (implies_of-from_pairs tags t asc) j);
      },
      check_acyclic-ok g h3,
    )
