-- ===== src/Web/Burst.antt =====
-- `PriorityBurst` of clients/wasm/src/state/pending_priority.rs: moves of one card that wait to be
-- pushed as one version. A `HashMap` is read in the order of its keys.
pub mod Laws
pub mod Versions
use blaze_list.Prelude.{ℕ, Option, none, some, List, [], ◌∷◌, ◌==◌, if◌then◌else◌}
use blaze_list.Prelude.Int.{ℤ}
use blaze_list.Prelude.Btree.{map_get, map_insert}
use blaze_list.Protocol.Types.{Uuid, Hash, DateTime}
use blaze_list.Protocol.Card.{Card, next}

pub record PriorityBurst : Type 0 where
  pub card_id : Uuid
  pub base : Card
  pub priority : ℤ
  pub sibling_bases : List (Uuid × Card)
  pub sibling_priorities : List (Uuid × ℤ)

unfoldable pub new_burst : Card → ℤ → PriorityBurst
new_burst base priority = record {
  card_id = base.id;
  base = base;
  priority = priority;
  sibling_bases = [];
  sibling_priorities = [];
}

-- `entry(id).or_insert_with(…)`
unfoldable pub or_insert : Uuid → Card → List (Uuid × Card) → List (Uuid × Card)
or_insert id v m = elim (map_get id m) [ none ↦ map_insert id v m | some _ ↦ m ]

-- The loop of `apply_move`.
unfoldable pub shift_each : List (Card × ℤ) → PriorityBurst → PriorityBurst
shift_each [] b = b
shift_each ((prev_sibling, new_priority) ∷ siblings) b = shift_each siblings (record b {
  sibling_bases = or_insert prev_sibling.id prev_sibling b.sibling_bases;
  sibling_priorities = map_insert prev_sibling.id new_priority b.sibling_priorities;
})

unfoldable pub apply_move : ℤ → List (Card × ℤ) → PriorityBurst → PriorityBurst
apply_move new_priority siblings b = shift_each siblings (record b { priority = new_priority })

abbrev pub or_own : Option ℤ → Card → ℤ
or_own none base = base.priority
or_own (some p) base = p

module _ (blake3 : List ℕ → Hash) (now : DateTime) where
  -- `base.next(…)` with a new priority; `none` is the panic of `next`.
  abbrev pub moved : Card → ℤ → Option Card
  moved base priority =
      next blake3 base base.content priority base.tags base.blazed now base.due_date

  unfoldable pub build_siblings : List (Uuid × Card) → List (Uuid × ℤ) → Option (List Card)
  build_siblings [] priorities = some []
  build_siblings ((id, base) ∷ bases) priorities =
      let rest = build_siblings bases priorities in
      elim (moved base (or_own (map_get id priorities) base)) [
        | none ↦ none
        | some c ↦ elim rest [ none ↦ none | some cs ↦ some (c ∷ cs) ]
      ]

  unfoldable pub build_versions : PriorityBurst → Option (Card × List Card)
  build_versions b = elim (moved b.base b.priority) [
    | none ↦ none
    | some primary ↦ elim (build_siblings b.sibling_bases b.sibling_priorities) [
      | none ↦ none
      | some siblings ↦ some (primary, siblings)
    ]
  ]

-- The moves of a burst after its first.
unfoldable pub apply_moves : List (ℤ × List (Card × ℤ)) → PriorityBurst → PriorityBurst
apply_moves [] b = b
apply_moves ((new_priority, siblings) ∷ moves) b =
    apply_moves moves (apply_move new_priority siblings b)

-- The burst part of `enqueue_move`: a burst on another card is flushed, and what waits then.
unfoldable pub enqueue_move :
    Option PriorityBurst → Card → ℤ → List (Card × ℤ) → Option PriorityBurst × PriorityBurst
enqueue_move none prev_card new_priority siblings =
    (none, apply_move new_priority siblings (new_burst prev_card new_priority))
enqueue_move (some b) prev_card new_priority siblings =
    if b.card_id == prev_card.id
    then (none, apply_move new_priority siblings b)
    else (some b, apply_move new_priority siblings (new_burst prev_card new_priority))

-- The burst part of `discard_for`.
unfoldable pub discard_for : Option PriorityBurst → Uuid → Option PriorityBurst
discard_for none id = none
discard_for (some b) id = if b.card_id == id then none else some b
