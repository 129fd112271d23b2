-- ===== src/Protocol/Graph/Missing.antt =====
-- What a card lacks under the implication graph.
use blaze_list.Prelude.{
  nil_of_empty, ◌++◌, contains-append, List-cases, ℕ, ◌≡◌, refl, ◌↔◌, false, not, List, [], ◌∷◌,
  filter, contains, In, contains-filter, arith, All, Bool, Bool-cases, inl, inr, ◌&&◌, ap, ◌<◌,
}
use blaze_list.Prelude.Btree.{contains-set_of, IsAscending}
use blaze_list.Protocol.Types.{Uuid}
use blaze_list.Protocol.Card.{Card}
use blaze_list.Protocol.Graph.{TagGraph, closure_of, missing_for_card, affected_cards_for_change}
use blaze_list.Protocol.Graph.Reach.{Reach, root, step, IsClosed}
use blaze_list.Protocol.Graph.Closure.{closure_of-iff_Reach, closure_of-IsAscending}

All-filter : (P : ℕ → Type 0) (p : ℕ → Bool) (xs : List ℕ) → All P xs → All P (filter p xs)
All-filter P p [] h = tt
All-filter P p (x ∷ xs) h = elim (Bool-cases (p x)) [
  | inl e ↦ rw e (h.0, All-filter P p xs h.1)
  | inr e ↦ rw e (All-filter P p xs h.1)
]

filter-IsAscending : (p : ℕ → Bool) (xs : List ℕ) → IsAscending xs → IsAscending (filter p xs)
filter-IsAscending p [] h = tt
filter-IsAscending p (x ∷ xs) h = elim (Bool-cases (p x)) [
  | inl e ↦ rw e (All-filter (λ y. x < y) p xs h.0, filter-IsAscending p xs h.1)
  | inr e ↦ rw e (filter-IsAscending p xs h.1)
]

module _ (g : TagGraph) (tags : List Uuid) where
  contains-missing :
      (x : Uuid)
      → contains (missing_for_card g tags) x
        ≡ (contains (closure_of g tags) x && not (contains tags x))
  unfolding missing_for_card
  contains-missing x = rw contains-filter (rw contains-set_of refl)

  -- The missing tags are those that the card's tags reach and that it does not hold, in ascending
  -- order without repetition.
  pub missing_for_card_lem :
      ((x : Uuid) → In x (missing_for_card g tags) ↔ (Reach g tags x × (contains tags x ≡ false)))
      × IsAscending (missing_for_card g tags)
  unfolding missing_for_card
  missing_for_card_lem = (
    λ x. (
      λ m. (
        (closure_of-iff_Reach g tags x).0 (ground (arith, contains-missing x)),
        ground (arith, contains-missing x),
      ),
      λ (r, n). ground (arith, contains-missing x, (closure_of-iff_Reach g tags x).1 r),
    ),
    filter-IsAscending _ (closure_of g tags) (closure_of-IsAscending g tags),
  )

  Reach-In_of_IsClosed : IsClosed g tags → {x : Uuid} → Reach g tags x → In x tags
  Reach-In_of_IsClosed h (root m) = m
  Reach-In_of_IsClosed h (step {u} {v} r e) = h u v (Reach-In_of_IsClosed h r) e

  -- Nothing is missing exactly when the card's tags are closed under `implies`.
  pub missing_for_card-nil_iff : (missing_for_card g tags ≡ []) ↔ IsClosed g tags
  missing_for_card-nil_iff = (
    λ e u v m i.
        let reached = (closure_of-iff_Reach g tags v).1 (step (root m) i) in
        ground (arith, contains-missing v, ap (λ (l : List Uuid). contains l v) e),
    λ h. nil_of_empty (missing_for_card g tags) λ x.
        elim (Bool-cases (contains (closure_of g tags) x)) [
          | inl c ↦
              let held = Reach-In_of_IsClosed h ((closure_of-iff_Reach g tags x).0 c) in
              ground (arith, contains-missing x)
          | inr c ↦ ground (arith, contains-missing x)
        ],
  )

  -- The card's tags with the missing ones are all that is reached.
  filled-iff_Reach : (x : Uuid) → In x (tags ++ missing_for_card g tags) ↔ Reach g tags x
  filled-iff_Reach x =
      let all_of = closure_of-iff_Reach g tags x in
      let split = contains-append tags (missing_for_card g tags) x in
      (
        λ m. elim (Bool-cases (contains tags x)) [
          | inl held ↦ root held
          | inr new ↦ all_of.0 (ground (arith, contains-missing x))
        ],
        λ r. let m = all_of.1 r in ground (arith, contains-missing x),
      )

  -- The card's tags with the missing ones are closed under `implies`.
  pub missing_for_card-IsClosed : IsClosed g (tags ++ missing_for_card g tags)
  missing_for_card-IsClosed u v m i = (filled-iff_Reach v).1 (step ((filled-iff_Reach u).0 m) i)

  reached_of_IsClosed :
      (other : List Uuid)
      → ((x : Uuid) → In x tags → In x other)
      → IsClosed g other
      → {x : Uuid} → Reach g tags x
      → In x other
  reached_of_IsClosed other holds closed (root {x} m) = holds x m
  reached_of_IsClosed other holds closed (step {u} {v} r e) =
      closed u v (reached_of_IsClosed other holds closed r) e

  -- A closed list that holds the card's tags holds the missing ones too.
  pub missing_for_card_least :
      (other : List Uuid)
      → ((x : Uuid) → In x tags → In x other)
      → IsClosed g other
      → (x : Uuid) → In x (missing_for_card g tags)
      → In x other
  missing_for_card_least other holds closed x m =
      reached_of_IsClosed other holds closed ((missing_for_card_lem.0 x).0 m).0

-- No card is affected by a change exactly when every card's tags are closed under the new graph.
pub affected_cards_for_change-nil_iff :
    (g : TagGraph) (cards : List Card)
    → (affected_cards_for_change g cards ≡ []) ↔ All (λ c. IsClosed g c.tags) cards
unfolding affected_cards_for_change
affected_cards_for_change-nil_iff g [] = (λ _. tt, λ _. refl)
affected_cards_for_change-nil_iff g (c ∷ cards) =
    let rest = affected_cards_for_change-nil_iff g cards in
    let here = missing_for_card-nil_iff g c.tags in
    elim (List-cases (missing_for_card g c.tags)) [
      | inl e ↦ (
        λ n. (here.0 e, rest.0 (rw (e, affected_cards_for_change) at n)),
        λ (h, hs). rw (e, affected_cards_for_change) (rest.1 hs),
      )
      | inr (m, ms, e) ↦ (λ n. absurd (ground arith), λ (h, hs). absurd (ground (arith, here.1 h)))
    ]
