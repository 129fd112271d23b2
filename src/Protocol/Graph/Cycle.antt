-- ===== src/Protocol/Graph/Cycle.antt =====
-- `TagGraph::detect_cycle` of protocol/src/tag/graph.rs. `stack` and `path` are lists with their last
-- item in front.
pub mod Walk
pub mod Invariant
pub mod Descend
pub mod Verdict
use blaze_list.Prelude.{
  ℕ, zero, suc, ◌+◌, ◌*◌, Bool, true, false, Option, none, some, List, [], ◌∷◌, ◌++◌, reverse,
  length, drop, get_elem?, map, ◌==◌, if◌then◌else◌,
}
use blaze_list.Prelude.Btree.{keys, map_get, map_insert}
use blaze_list.Protocol.Types.{Uuid}
use blaze_list.Protocol.Graph.{TagGraph, sorted_implies, edge_count}

pub data Color : Type 0 where
  white gray black : Color

-- `(current_node, parent_iterator_index, parents)`
pub record Frame : Type 0 where
  pub node : Uuid
  pub idx : ℕ
  pub parents : List Uuid

pub record Search : Type 0 where
  pub color : List (Uuid × Color)
  pub stack : List Frame
  pub path : List Uuid

abbrev pub or_white : Option Color → Color
or_white none = white
or_white (some c) = c

-- `color.get(&id).copied().unwrap_or(Color::White)`
abbrev pub color_of : Search → Uuid → Color
color_of s id = or_white (map_get id s.color)

-- `path.iter().position(|id| *id == next)`
unfoldable pub position : Uuid → List Uuid → Option ℕ
position next [] = none
position next (x ∷ xs) =
    if x == next then some 0 else elim (position next xs) [ none ↦ none | some i ↦ some (suc i) ]

-- The slice of the path from `next` on, and `next` once more.
unfoldable pub cycle_at : List Uuid → Uuid → List Uuid
unfolding position
cycle_at path next =
    let start_idx : ℕ = elim (position next path) [ none ↦ 0 | some i ↦ i ] in
    drop start_idx path ++ next ∷ []

-- A white node turns gray and goes on the stack and the path.
unfoldable pub enter : TagGraph → Uuid → Search → Search
enter g id s = record {
  color = map_insert id gray s.color;
  stack = record { node = id; idx = 0; parents = sorted_implies g id } ∷ s.stack;
  path = id ∷ s.path;
}

abbrev pub pop {ℓ} : {A : Type ℓ} → List A → List A
pop [] = []
pop (x ∷ xs) = xs

-- The top frame has no parent left: its node turns black.
unfoldable pub leave : Frame → List Frame → Search → Search
leave frame rest s = record {
  color = map_insert frame.node black s.color;
  stack = rest;
  path = pop s.path;
}

-- `*idx += 1` on the top frame.
unfoldable pub advance : Frame → List Frame → Search → Search
advance frame rest s = record s { stack = record frame { idx = suc frame.idx } ∷ rest }

pub data Progress : Type 0 where
  more : Search → Progress
  found : List Uuid → Progress

-- The body of the `while let` loop, for the top frame and the frames below it.
unfoldable pub visit : TagGraph → Frame → List Frame → Search → Progress
unfolding leave advance enter cycle_at
visit g frame rest s = elim (get_elem? frame.parents frame.idx) [
  | none ↦ more (leave frame rest s)
  | some next ↦ elim (color_of s next) [
    | white ↦ more (enter g next (advance frame rest s))
    | gray ↦ found (cycle_at (reverse s.path) next)
    | black ↦ more (advance frame rest s)
  ]
]

pub data Outcome : Type 0 where
  finished : Search → Outcome
  cyclic : List Uuid → Outcome
  out_of_fuel : Outcome

-- The `while let` loop.
unfoldable pub descend : TagGraph → ℕ → Search → Outcome
descend g zero s = elim s.stack [ [] ↦ finished s | frame ∷ rest ↦ out_of_fuel ]
descend g (suc fuel) s = elim s.stack [
  | [] ↦ finished s
  | frame ∷ rest ↦ elim (visit g frame rest s) [
    | more s' ↦ descend g fuel s'
    | found cycle ↦ cyclic cycle
  ]
]

-- `color.get(&start).copied() == Some(Color::White)`
abbrev pub is_white : Option Color → Bool
is_white none = false
is_white (some white) = true
is_white (some gray) = false
is_white (some black) = false

-- The `for` loop over the start nodes.
unfoldable pub search_from : TagGraph → ℕ → List Uuid → Search → Outcome
search_from g fuel [] s = finished s
search_from g fuel (start ∷ starts) s = elim (is_white (map_get start s.color)) [
  | false ↦ search_from g fuel starts s
  | true ↦ elim (descend g fuel (enter g start s)) [
    | finished s' ↦ search_from g fuel starts s'
    | cyclic cycle ↦ cyclic cycle
    | out_of_fuel ↦ out_of_fuel
  ]
]

-- Each frame is pushed and popped once, and each of its parents is looked at once.
unfoldable pub cycle_fuel : TagGraph → ℕ
cycle_fuel g = length g.edges + 2 * edge_count g.edges

unfoldable pub initial_colors : TagGraph → List (Uuid × Color)
initial_colors g = map (λ e. (e.0, white)) g.edges

unfoldable pub detect_cycle : TagGraph → Option (List Uuid)
unfolding initial_colors cycle_fuel
detect_cycle g =
    elim (search_from g (cycle_fuel g) (keys g.edges)
      (record { color = initial_colors g; stack = []; path = [] })) [
        | finished s ↦ none
        | cyclic cycle ↦ some cycle
        | out_of_fuel ↦ none
      ]
