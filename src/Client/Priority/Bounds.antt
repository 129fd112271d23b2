-- ===== src/Client/Priority/Bounds.antt =====
-- Where a card is placed between its neighbours.
use blaze_list.Prelude.{ℕ, ◌+◌, ◌*◌, ◌/◌, ◌<◌, ◌≡◌, refl, arith, Bool-cases, inl, inr}
use blaze_list.Prelude.Int.{
  ℤ, pos, negsuc, ◌+ℤ◌, ◌-ℤ◌, ◌<ℤ◌, ◌≤ℤ◌, quot, leb_ℤ, max_ℤ, clamp_ℤ, pos_part, neg_part, +ℤ_parts,
  -ℤ_parts,
}
use blaze_list.Client.Priority.{compute_priority}

-- Rust's quotient by a positive number, in the parts that `omega` reads.
quot_parts : (a : ℤ) (k : ℕ) → 0 < k → pos 0 ≤ℤ a → pos_part (quot a k) ≡ pos_part a / k
unfolding quot
quot_parts (pos n) k h p = refl
quot_parts (negsuc n) k h p = absurd (omega arith)

quot-nonneg : (a : ℤ) (k : ℕ) → pos 0 ≤ℤ a → neg_part (quot a k) ≡ 0
unfolding quot
quot-nonneg (pos n) k p = refl
quot-nonneg (negsuc n) k p = absurd (omega arith)

neg_part_of_nonneg : (a : ℤ) → pos 0 ≤ℤ a → neg_part a ≡ 0
neg_part_of_nonneg (pos n) h = refl
neg_part_of_nonneg (negsuc n) h = absurd (omega arith)

-- Strictly between, from at most one less and at least one more.
clamp_between :
    (a upper lower : ℤ)
    → pos 1 <ℤ upper -ℤ lower
    → (lower <ℤ clamp_ℤ a (lower +ℤ pos 1) (upper -ℤ pos 1))
      × (clamp_ℤ a (lower +ℤ pos 1) (upper -ℤ pos 1) <ℤ upper)
clamp_between a upper lower h =
    let up = +ℤ_parts lower (pos 1) in
    let down = -ℤ_parts upper (pos 1) in let gap = -ℤ_parts upper lower in ground arith

-- The midpoint of bounds that are 2 apart.
midpoint_between :
    (upper lower : ℤ)
    → pos 1 <ℤ upper -ℤ lower
    → (lower <ℤ lower +ℤ quot (upper -ℤ lower) 2) × (lower +ℤ quot (upper -ℤ lower) 2 <ℤ upper)
midpoint_between upper lower h = omega (
  arith,
  -ℤ_parts upper lower,
  +ℤ_parts lower (quot (upper -ℤ lower) 2),
  quot_parts (upper -ℤ lower) 2 (omega arith) (omega arith),
  quot-nonneg (upper -ℤ lower) 2 (omega arith),
  neg_part_of_nonneg (upper -ℤ lower) (omega arith),
)

-- Where the upper bound is more than one above the lower, the priority lies strictly between them,
-- whatever the random draw.
pub compute_priority_bounds :
    (random : ℕ → ℕ) (upper lower : ℤ)
    → pos 1 <ℤ upper -ℤ lower
    → (lower <ℤ compute_priority random upper lower)
      × (compute_priority random upper lower <ℤ upper)
unfolding compute_priority
compute_priority_bounds random upper lower h = elim (Bool-cases (leb_ℤ (upper -ℤ lower) (pos 2))) [
  | inl small ↦ rw small (midpoint_between upper lower h)
  | inr large ↦ rw large (
      clamp_between
        (lower
          +ℤ quot (upper -ℤ lower) 2
          +ℤ (pos (random (pos_part (max_ℤ (quot (upper -ℤ lower) 16) (pos 1)) * 2 + 1))
              -ℤ max_ℤ (quot (upper -ℤ lower) 16) (pos 1)))
        upper lower h)
]
