-- ===== src/Protocol/Graph.antt =====
-- protocol/src/tag/graph.rs: the tag implication graph. A stack is a list with its top in front.
pub mod Reach
pub mod Closure
pub mod Missing
pub mod Cycle
use blaze_list.Prelude.{
  ℕ, zero, suc, ◌+◌, ◌*◌, Bool, true, false, not, Option, none, some, List, [], ◌∷◌, ◌++◌, reverse,
  length, filter, drop, map, contains, ◌==◌, leb, if◌then◌else◌,
}
use blaze_list.Prelude.Btree.{set_insert, set_of, keys, map_get, map_insert, map_remove}
use blaze_list.Protocol.Types.{Uuid}
use blaze_list.Protocol.Bytes.{sort_ids}
use blaze_list.Protocol.Card.{Card}
use blaze_list.Protocol.Tag.{Tag}

-- Direct parents per tag; a missing key has none.
pub record TagGraph : Type 0 where
  pub edges : List (Uuid × List Uuid)

unfoldable pub pairs_into :
    List (Uuid × List Uuid) → List (Uuid × List Uuid) → List (Uuid × List Uuid)
pairs_into [] m = m
pairs_into ((id, implies) ∷ ps) m = pairs_into ps (map_insert id implies m)

unfoldable pub from_tags : List Tag → TagGraph
unfolding pairs_into
from_tags tags = record { edges = pairs_into (map (λ (t : Tag). (t.id, t.implies)) tags) [] }

unfoldable pub from_pairs : List (Uuid × List Uuid) → TagGraph
unfolding pairs_into
from_pairs pairs = record { edges = pairs_into pairs [] }

unfoldable pub upsert : TagGraph → Uuid → List Uuid → TagGraph
upsert g id implies = record { edges = map_insert id implies g.edges }

unfoldable pub remove : TagGraph → Uuid → TagGraph
remove g id = record { edges = map_remove id g.edges }

abbrev pub or_empty : Option (List Uuid) → List Uuid
or_empty none = []
or_empty (some v) = v

unfoldable pub implies_of : TagGraph → Uuid → List Uuid
implies_of g id = or_empty (map_get id g.edges)

unfoldable pub sorted_implies : TagGraph → Uuid → List Uuid
sorted_implies g id = sort_ids (implies_of g id)

unfoldable pub graph_contains : TagGraph → Uuid → Bool
graph_contains g id = elim (map_get id g.edges) [ none ↦ false | some _ ↦ true ]

unfoldable pub graph_len : TagGraph → ℕ
graph_len g = length g.edges

unfoldable pub graph_is_empty : TagGraph → Bool
graph_is_empty g = length g.edges == 0

-- The `for parent` loop of `closure_of`.
unfoldable pub push_unvisited : List Uuid → List Uuid → List Uuid → List Uuid
push_unvisited visited [] stack = stack
push_unvisited visited (p ∷ ps) stack =
    push_unvisited visited ps (if contains visited p then stack else p ∷ stack)

-- The `while let` loop of `closure_of`: the visited set, and the stack when the fuel ends.
unfoldable pub closure_loop : TagGraph → ℕ → List Uuid → List Uuid → List Uuid × List Uuid
closure_loop g zero visited stack = (visited, stack)
closure_loop g (suc fuel) visited [] = (visited, [])
closure_loop g (suc fuel) visited (id ∷ rest) =
    let skip = closure_loop g fuel visited rest in
    let visited' = set_insert id visited in
    let enter = closure_loop g fuel visited' (push_unvisited visited' (implies_of g id) rest) in
    if contains visited id then skip else enter

unfoldable pub edge_count : List (Uuid × List Uuid) → ℕ
edge_count [] = 0
edge_count ((id, implies) ∷ es) = length implies + edge_count es

-- Each edge pushes once at most, so the stack is empty when the fuel ends.
unfoldable pub closure_of : TagGraph → List Uuid → List Uuid
closure_of g roots = (closure_loop g (length roots + edge_count g.edges) [] (reverse roots)).0

unfoldable pub missing_for_card : TagGraph → List Uuid → List Uuid
missing_for_card g current_tags =
    let have = set_of current_tags in
    filter (λ t. not (contains have t)) (closure_of g current_tags)

unfoldable pub affected_cards_for_change : TagGraph → List Card → List (Uuid × List Uuid)
affected_cards_for_change next [] = []
affected_cards_for_change next (c ∷ cards) =
    let rest = affected_cards_for_change next cards in
    elim (missing_for_card next c.tags) [ [] ↦ rest | m ∷ ms ↦ (c.id, m ∷ ms) ∷ rest ]
