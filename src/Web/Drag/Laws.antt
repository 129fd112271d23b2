-- ===== src/Web/Drag/Laws.antt =====
-- Where `drop_position` of clients/wasm/src/state/drag.rs puts a dropped card.
use blaze_list.Prelude.{
  ℕ, suc, ◌≡◌, ◌⊎◌, subst, ap, true, refl, false, Option, none, some, List, map, get_elem?,
  contains, ◌==◌, ==_iff, arith, inl, inr, Bool-cases,
}
use blaze_list.Protocol.Types.{Uuid}
use blaze_list.Protocol.Card.{Card}
use blaze_list.Client.Priority.{InsertPosition, at}
use blaze_list.Client.Sync.{card_id}
use blaze_list.Client.Sync.Laws.{HasDistinctIds}
use blaze_list.Web.Drag.{
  DropEdge, above, below, position_of, reduced, place_at, drop_at, drop_position,
}
use blaze_list.Web.Drag.Places.{
  position_without, position_of-none, positions_differ, Before-positions, positions-Before, Before,
  without,
}

-- The source stands at that edge of the target.
abbrev pub Stands : List Card → Uuid → Uuid → DropEdge → Type 0
Stands cards source target above = Before cards source target
Stands cards source target below = Before cards target source

-- The target's place in the list that `move_card` sees: a card put above takes that place, and one
-- put below the next.
abbrev pub Adjoins : List Card → Uuid → Uuid → DropEdge → InsertPosition → Type 0
Adjoins cards source target above p =
    (i : ℕ) × (c : Card) × (get_elem? (without source cards) i ≡ some c)
    × (c.id ≡ target)
    × (p ≡ at i)
Adjoins cards source target below p =
    (i : ℕ) × (c : Card) × (get_elem? (without source cards) i ≡ some c)
    × (c.id ≡ target)
    × (p ≡ at (suc i))

abbrev pub IsDrop : List Card → Uuid → Uuid → DropEdge → Option InsertPosition → Type 0
IsDrop cards source target edge none =
    (source ≡ target)
    ⊎ ((contains (map card_id cards) source ≡ false)
        ⊎ ((contains (map card_id cards) target ≡ false) ⊎ Stands cards source target edge))
IsDrop cards source target edge (some p) =
    Adjoins cards source target edge p × ¬ Stands cards source target edge

same_place :
    (cards : List Card) (source target : Uuid) (edge : DropEdge) (i j : ℕ)
    → position_of source cards ≡ some i
    → position_of target cards ≡ some j
    → (i == j) ≡ false
    → (place_at edge (reduced i j) == i) ≡ true
    → Stands cards source target edge
same_place cards source target above i j s t n h =
    let next : j ≡ suc i = ground arith in
    positions-Before cards source target i s (subst (λ x. position_of target cards ≡ some x) next t)
same_place cards source target below i j s t n h =
    let next : i ≡ suc j = ground arith in
    positions-Before cards target source j t (subst (λ x. position_of source cards ≡ some x) next s)

other_place :
    (cards : List Card) (source target : Uuid) (edge : DropEdge) (i j : ℕ)
    → HasDistinctIds card_id cards
    → position_of source cards ≡ some i
    → position_of target cards ≡ some j
    → (place_at edge (reduced i j) == i) ≡ false
    → ¬ Stands cards source target edge
other_place cards source target above i j d s t h b =
    let (k, s', t') = Before-positions cards source target d b in ground arith
other_place cards source target below i j d s t h b =
    let (k, t', s') = Before-positions cards target source d b in ground arith

reduced-Adjoins :
    (cards : List Card) (source target : Uuid) (edge : DropEdge) (i j : ℕ)
    → HasDistinctIds card_id cards
    → position_of source cards ≡ some i
    → position_of target cards ≡ some j
    → (source == target) ≡ false
    → Adjoins cards source target edge (at (place_at edge (reduced i j)))
reduced-Adjoins cards source target above i j d s t n =
    let (c, g, same) = position_without cards source target i j d s t n in
    (reduced i j, c, g, same, refl)
reduced-Adjoins cards source target below i j d s t n =
    let (c, g, same) = position_without cards source target i j d s t n in
    (reduced i j, c, g, same, ap at (omega arith))

drop_at-IsDrop :
    (cards : List Card) (source target : Uuid) (edge : DropEdge) (s t : Option ℕ)
    → HasDistinctIds card_id cards
    → (source == target) ≡ false
    → position_of source cards ≡ s
    → position_of target cards ≡ t
    → IsDrop cards source target edge (drop_at edge s t)
drop_at-IsDrop cards source target edge none t d n h k = inr (inl (position_of-none source cards h))
drop_at-IsDrop cards source target edge (some i) none d n h k =
    inr (inr (inl (position_of-none target cards k)))
drop_at-IsDrop cards source target edge (some i) (some j) d n h k =
    elim (Bool-cases (place_at edge (reduced i j) == i)) [
      | inl e ↦
          rw (e, drop_at)
            (inr (
              inr (
                inr (
                  same_place cards source target edge i j h k
                    (positions_differ cards source target i j h k n) e))))
      | inr e ↦
          rw (e, drop_at)
            (
              reduced-Adjoins cards source target edge i j d h k n,
              other_place cards source target edge i j d h k e,
            )
    ]

-- In a list with distinct identifiers, a drop above a card gives that card's place in the list without
-- the source that `move_card` works on, and a drop below it the next place; and then the source does
-- not stand there yet. It gives no place only where the source is the target, where one of them is not
-- in the list, or where the source stands there already.
pub drop_position_lem :
    (cards : List Card) (source target : Uuid) (edge : DropEdge)
    → HasDistinctIds card_id cards
    → IsDrop cards source target edge (drop_position cards source target edge)
unfolding drop_position
drop_position_lem cards source target edge d = elim (Bool-cases (source == target)) [
  | inl e ↦ rw e (inl ((==_iff source target).0 e))
  | inr e ↦ rw e (drop_at-IsDrop cards source target edge _ _ d e refl refl)
]
