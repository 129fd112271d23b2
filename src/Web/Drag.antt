-- ===== src/Web/Drag.antt =====
-- `drop_position` of clients/wasm/src/state/drag.rs: where a dragged card is dropped.
pub mod Places
pub mod Laws
use blaze_list.Prelude.{
  ℕ, zero, suc, ◌+◌, ◌-◌, ◌≡◌, ◌≢◌, refl, Bool, true, false, not, Option, none, some, List, [], ◌∷◌,
  map, filter, get_elem?, contains, ltb, ◌==◌, ==_iff, arith, if◌then◌else◌, Option-cases, inl, inr,
  ◌⊎◌, Bool-cases,
}
use blaze_list.Protocol.Types.{Uuid}
use blaze_list.Protocol.Card.{Card}
use blaze_list.Client.Priority.{InsertPosition, at}
use blaze_list.Client.Sync.{card_id}
use blaze_list.Client.Sync.Laws.{HasDistinctIds}

pub data DropEdge : Type 0 where
  above below : DropEdge

-- `iter().position(…)`
unfoldable pub position_of : Uuid → List Card → Option ℕ
position_of id [] = none
position_of id (c ∷ cs) =
    if c.id == id then some 0 else elim (position_of id cs) [ none ↦ none | some i ↦ some (suc i) ]

-- The target's place in the list without the source.
abbrev pub reduced : ℕ → ℕ → ℕ
reduced src_idx tgt_idx = if ltb src_idx tgt_idx then tgt_idx - 1 else tgt_idx

abbrev pub place_at : DropEdge → ℕ → ℕ
place_at above base = base
place_at below base = base + 1

abbrev pub drop_at : DropEdge → Option ℕ → Option ℕ → Option InsertPosition
drop_at edge none target = none
drop_at edge (some src_idx) none = none
drop_at edge (some src_idx) (some tgt_idx) =
    let place = place_at edge (reduced src_idx tgt_idx) in
    if place == src_idx then none else some (at place)

unfoldable pub drop_position : List Card → Uuid → Uuid → DropEdge → Option InsertPosition
drop_position filtered source_id target_id edge =
    if source_id == target_id
    then none
    else drop_at edge (position_of source_id filtered) (position_of target_id filtered)
