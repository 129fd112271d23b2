-- ===== src/Client/Priority.antt =====
-- clients/lib/src/priority.rs: where a card goes in the list, and how a packed range is spread out.
-- An `i128` is an integer, since every value stays far inside its range, and each value that is cast
-- back to an `i64` lies between two `i64` values or is clamped first. The random generator is a
-- parameter: at `n` it gives a number that `random_range(0..n)` may give.
pub mod Bounds
use blaze_list.Prelude.{
  ℕ, zero, suc, ◌+◌, ◌-◌, ◌*◌, Bool, true, false, not, ◌&&◌, Option, none, some, List, [], ◌∷◌,
  ◌++◌, filter, find, length, take, drop, min, ltb, leb, ◌==◌, if◌then◌else◌, map,
}
use blaze_list.Prelude.Int.{
  ℤ, pos, negsuc, ◌+ℤ◌, ◌-ℤ◌, quot, leb_ℤ, ltb_ℤ, eqb_ℤ, min_ℤ, max_ℤ, clamp_ℤ, i64_max, i64_min,
  pos_part,
}
use blaze_list.Protocol.Types.{Uuid, Hash, DateTime}
use blaze_list.Protocol.Card.{Card, next}

pub data InsertPosition : Type 0 where
  top bottom : InsertPosition
  at : ℕ → InsertPosition

pub data Placement : Type 0 where
  simple : ℤ → Placement
  rebalanced : ℤ → List (Uuid × ℤ) → Placement

-- MAX_EDGE_GAP
abbrev pub max_edge_gap : ℤ
max_edge_gap = pos 65536

module _ (random : ℕ → ℕ) where
  -- The midpoint with a jitter, strictly inside the bounds where there is room.
  unfoldable pub compute_priority : ℤ → ℤ → ℤ
  compute_priority upper lower =
      let gap = upper -ℤ lower in
      let midpoint = lower +ℤ quot gap 2 in
      let jitter_range = max_ℤ (quot gap 16) (pos 1) in
      let jitter_val = pos (random (pos_part jitter_range * 2 + 1)) -ℤ jitter_range in
      if leb_ℤ gap (pos 2)
      then midpoint
      else clamp_ℤ (midpoint +ℤ jitter_val) (lower +ℤ pos 1) (upper -ℤ pos 1)

-- One virtual bound is moved to within `max_edge_gap` of the real one.
unfoldable pub cap_edge_bounds : ℤ → ℤ → ℤ × ℤ
cap_edge_bounds upper lower = if leb_ℤ (upper -ℤ lower) max_edge_gap then (upper, lower) else (
  (if eqb_ℤ upper i64_max && not (eqb_ℤ lower i64_min)
      then min_ℤ (lower +ℤ max_edge_gap) i64_max
      else upper),
  (if eqb_ℤ lower i64_min && not (eqb_ℤ upper i64_max)
      then max_ℤ (upper -ℤ max_edge_gap) i64_min
      else lower),
)

-- `cards[i].card_priority()`; the default is never read, since every index is in range.
unfoldable pub priority_at : List Card → ℕ → ℤ
priority_at [] i = pos 0
priority_at (c ∷ cards) zero = c.priority
priority_at (c ∷ cards) (suc i) = priority_at cards i

-- `cards.first()` and `cards.last()` with a virtual bound for the empty list.
unfoldable pub first_priority : List Card → ℤ
first_priority [] = i64_min
first_priority (c ∷ cards) = c.priority

unfoldable pub last_priority : List Card → ℤ
last_priority [] = i64_max
last_priority (c ∷ []) = c.priority
last_priority (c ∷ d ∷ cards) = last_priority (d ∷ cards)

pub record Slot : Type 0 where
  pub upper : ℤ
  pub lower : ℤ
  pub insert_idx : ℕ

abbrev pub upper_at : List Card → ℕ → ℤ
upper_at cards zero = i64_max
upper_at cards (suc i) = priority_at cards i

unfoldable pub bounds_for_position : List Card → InsertPosition → Slot
bounds_for_position cards top = record {
  upper = i64_max;
  lower = first_priority cards;
  insert_idx = 0;
}
bounds_for_position cards bottom = record {
  upper = last_priority cards;
  lower = i64_min;
  insert_idx = length cards;
}
bounds_for_position cards (at idx) =
    let idx' = min idx (length cards) in
    record {
      upper = upper_at cards idx';
      lower = if ltb idx' (length cards) then priority_at cards idx' else i64_min;
      insert_idx = idx';
    }

-- The gap between a card and the next one is at most 1.
unfoldable pub is_packed : List Card → ℕ → Bool
is_packed cards i = leb_ℤ (priority_at cards i -ℤ priority_at cards (suc i)) (pos 1)

-- The loop that moves `left` towards the front.
unfoldable pub packed_left : List Card → ℕ → ℕ
packed_left cards zero = zero
packed_left cards (suc left) =
    let rest = packed_left cards left in if is_packed cards left then rest else suc left

-- The loop that moves `right` towards the back; the first number counts the cards behind `right`.
unfoldable pub packed_right : List Card → ℕ → ℕ → ℕ
packed_right cards zero right = right
packed_right cards (suc behind) right =
    let rest = packed_right cards behind (suc right) in
    if is_packed cards right then rest else right

-- The priority of a slot, clamped to an `i64`.
unfoldable pub slot_priority : ℤ → ℤ → ℕ → ℤ
slot_priority range_upper step slot =
    clamp_ℤ (range_upper -ℤ pos (pos_part step * (slot + 1))) i64_min i64_max

abbrev pub is_none : Option ℤ → Bool
is_none none = true
is_none (some _) = false

-- The result of the loop over the packed cards.
pub record Spread : Type 0 where
  pub shifted : List (Uuid × ℤ)
  pub new_priority : Option ℤ
  pub slot : ℕ

-- The loop over the packed cards. The new card takes its slot in front of the first card that comes
-- to it; a card whose priority stays is not listed.
unfoldable pub spread_cards : ℤ → ℤ → ℕ → List Card → Spread → Spread
spread_cards range_upper step new_slot [] s = s
spread_cards range_upper step new_slot (c ∷ cards) s =
    let takes = s.slot == new_slot && is_none s.new_priority in
    let new_priority =
      if takes then some (slot_priority range_upper step s.slot) else s.new_priority in
    let slot = if takes then suc s.slot else s.slot in
    let new_p = slot_priority range_upper step slot in
    let shifted = if eqb_ℤ new_p c.priority then s.shifted else s.shifted ++ (c.id, new_p) ∷ [] in
    spread_cards range_upper step new_slot cards
      (record { shifted = shifted; new_priority = new_priority; slot = suc slot })

abbrev pub or_slot : ℤ → ℤ → Spread → ℤ
or_slot range_upper step s = elim s.new_priority [
  | none ↦ slot_priority range_upper step s.slot
  | some p ↦ p
]

abbrev pub placement : ℤ → List (Uuid × ℤ) → Placement
placement priority [] = simple priority
placement priority (x ∷ xs) = rebalanced priority (x ∷ xs)

-- The packed range around the insertion point, and the room around it.
pub record Range : Type 0 where
  pub left : ℕ
  pub right : ℕ
  pub range_upper : ℤ
  pub range_lower : ℤ

unfoldable pub packed_range : List Card → ℕ → Range
unfolding packed_left packed_right
packed_range cards insert_idx =
    let left = packed_left cards (insert_idx - 1) in
    let from = if ltb insert_idx (length cards) then insert_idx else length cards - 1 in
    let right = packed_right cards (length cards - 1 - from) from in
    record {
      left = left;
      right = right;
      range_upper = upper_at cards left;
      range_lower = if leb (length cards - 1) right then i64_min else priority_at cards (suc right);
    }

unfoldable pub range_step : Range → ℤ
range_step r =
    let total_slots = r.right - r.left + 1 + 1 in
    max_ℤ (quot (r.range_upper -ℤ r.range_lower) (total_slots + 1)) (pos 1)

unfoldable pub rebalance_range : List Card → ℕ → Range → Placement
unfolding range_step
rebalance_range cards insert_idx r =
    let step = range_step r in
    let s =
      spread_cards r.range_upper step (insert_idx - r.left)
        (take (r.right + 1 - r.left) (drop r.left cards))
        (record { shifted = []; new_priority = none; slot = 0 }) in
    placement (or_slot r.range_upper step s) s.shifted

-- The index of the first card with at most the desired priority, or the number of cards.
unfoldable pub first_below : List Card → ℤ → ℕ
first_below [] desired_priority = 0
first_below (c ∷ cards) desired_priority =
    if leb_ℤ c.priority desired_priority then 0 else suc (first_below cards desired_priority)

module _ (random : ℕ → ℕ) where
  unfoldable pub rebalance : List Card → ℕ → Placement
  rebalance [] insert_idx = simple (compute_priority random i64_max i64_min)
  rebalance (c ∷ cards) insert_idx =
      rebalance_range (c ∷ cards) insert_idx (packed_range (c ∷ cards) insert_idx)

  unfoldable pub try_place : List Card → ℤ → ℤ → ℕ → Placement
  try_place cards upper lower insert_idx =
      if ltb_ℤ (pos 1) (upper -ℤ lower)
      then simple (compute_priority random upper lower)
      else rebalance cards insert_idx

  unfoldable pub place_card : List Card → InsertPosition → Placement
  place_card cards position =
      let slot = bounds_for_position cards position in
      let (upper, lower) = cap_edge_bounds slot.upper slot.lower in
      try_place cards upper lower slot.insert_idx

  unfoldable pub move_card : List Card → Uuid → InsertPosition → Placement
  unfolding place_card
  move_card cards card_id target =
      place_card (filter (λ (c : Card). not (c.id == card_id)) cards) target

  unfoldable pub resolve_collision : List Card → ℤ → Placement
  resolve_collision cards desired_priority =
      place_card cards (at (first_below cards desired_priority))

-- `c.next(…)` with a new priority, for each listed card that is found; `none` is the panic of `next`.
unfoldable pub build_shifted_versions :
    (List ℕ → Hash) → List (Uuid × ℤ) → List Card → DateTime → Option (List Card)
build_shifted_versions blake3 [] all_cards now = some []
build_shifted_versions blake3 ((id, new_p) ∷ shifted) all_cards now =
    let rest = build_shifted_versions blake3 shifted all_cards now in
    elim (find (λ (c : Card). c.id == id) all_cards) [
      | none ↦ rest
      | some c ↦ elim (next blake3 c c.content new_p c.tags c.blazed now c.due_date) [
        | none ↦ none
        | some d ↦ elim rest [ none ↦ none | some ds ↦ some (d ∷ ds) ]
      ]
    ]
