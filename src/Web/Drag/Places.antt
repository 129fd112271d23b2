-- ===== src/Web/Drag/Places.antt =====
-- Where cards stand in the list of `drop_position` in clients/wasm/src/state/drag.rs, and in the list
-- that `move_card` sees.
use blaze_list.Prelude.{
  ℕ, zero, suc, ◌≡◌, subst, true, refl, false, not, none, some, List, [], ◌∷◌, map, filter,
  get_elem?, contains, ◌==◌, ==_iff, arith, Option-cases, inl, inr, Bool-cases,
}
use blaze_list.Protocol.Types.{Uuid}
use blaze_list.Protocol.Card.{Card}
use blaze_list.Client.Sync.{card_id}
use blaze_list.Client.Sync.Laws.{HasDistinctIds}
use blaze_list.Web.Drag.{position_of, reduced}

-- The list that `move_card` sees.
abbrev pub without : Uuid → List Card → List Card
without id = filter (λ (c : Card). not (c.id == id))

without_absent :
    (id : Uuid) (cards : List Card)
    → contains (map card_id cards) id ≡ false
    → without id cards ≡ cards
without_absent id [] h = refl
without_absent id (c ∷ cs) h = ground (arith, without_absent id cs, ==_iff c.id id, ==_iff id c.id)

position_found :
    (id : Uuid) (cards : List Card) (i : ℕ)
    → position_of id cards ≡ some i
    → (c : Card) × (get_elem? cards i ≡ some c) × (c.id ≡ id)
unfolding position_of
position_found id [] i h = cc
position_found id (c ∷ cs) i h = elim (Bool-cases (c.id == id)) [
  | inl e ↦ (c, ground arith, (==_iff c.id id).0 e)
  | inr e ↦ elim (Option-cases (position_of id cs)) [
    | inl n ↦ absurd (ground arith)
    | inr (k, n) ↦ let (d, g, same) = position_found id cs k n in (d, ground arith, same)
  ]
]

position_of-tail :
    (id : Uuid) (c : Card) (cs : List Card) (i : ℕ)
    → position_of id (c ∷ cs) ≡ some i
    → (c.id == id) ≡ false
    → (k : ℕ) × (position_of id cs ≡ some k) × (i ≡ suc k)
unfolding position_of
position_of-tail id c cs i h n = elim (Option-cases (position_of id cs)) [
  | inl e ↦ absurd (ground arith)
  | inr (k, e) ↦ (k, e, ground arith)
]

reduced_tails : (i j : ℕ) → (i == j) ≡ false → reduced (suc i) (suc j) ≡ suc (reduced i j)
reduced_tails i j n = ground arith

pub positions_differ :
    (cards : List Card) (a b : Uuid) (i j : ℕ)
    → position_of a cards ≡ some i
    → position_of b cards ≡ some j
    → (a == b) ≡ false
    → (i == j) ≡ false
positions_differ cards a b i j h k n =
    let (c, g, same) = position_found a cards i h in
    let (d, g', same') = position_found b cards j k in ground (arith, ==_iff a b)

-- A card is found at its reduced position in the list without another.
pub position_without :
    (cards : List Card) (source target : Uuid) (i j : ℕ)
    → HasDistinctIds card_id cards
    → position_of source cards ≡ some i
    → position_of target cards ≡ some j
    → (source == target) ≡ false
    → (c : Card) × (get_elem? (without source cards) (reduced i j) ≡ some c) × (c.id ≡ target)
position_without [] source target i j d s t n = unfold position_of in cc
position_without (c ∷ cs) source target i j d s t n = elim (Bool-cases (c.id == source)) [
  | inl e ↦
      let (k, tail, e') = position_of-tail target c cs j t (ground (arith, ==_iff c.id source)) in
      let (x, g, same) = position_found target cs k tail in
      let first : i ≡ 0 = unfold position_of in ground arith in
      let gone : without source (c ∷ cs) ≡ cs =
        ground (arith, without_absent source cs, ==_iff c.id source) in
      let here : reduced i j ≡ k = ground arith in (x, rw (gone, here) g, same)
  | inr e ↦
      let (k, tail, e') = position_of-tail source c cs i s e in
      elim (Bool-cases (c.id == target)) [
        | inl f ↦
            let first : j ≡ 0 = unfold position_of in ground arith in
            (c, ground arith, (==_iff c.id target).0 f)
        | inr f ↦
            let (l, tail', f') = position_of-tail target c cs j t f in
            let (x, g, same) = position_without cs source target k l d.1 tail tail' n in
            let both : reduced i j ≡ suc (reduced k l) =
              ground
                (arith, reduced_tails k l, positions_differ cs source target k l tail tail' n) in
            let kept : without source (c ∷ cs) ≡ c ∷ without source cs = ground arith in
            (x, rw (kept, both) g, same)
      ]
]

pub position_of-none :
    (id : Uuid) (cards : List Card)
    → position_of id cards ≡ none
    → contains (map card_id cards) id ≡ false
unfolding position_of
position_of-none id [] h = refl
position_of-none id (c ∷ cs) h = elim (Option-cases (position_of id cs)) [
  | inl e ↦ ground (arith, position_of-none id cs e, ==_iff c.id id, ==_iff id c.id)
  | inr (k, e) ↦ absurd (ground arith)
]

get_elem?-contains :
    (cards : List Card) (i : ℕ) (c : Card)
    → get_elem? cards i ≡ some c
    → contains (map card_id cards) c.id ≡ true
get_elem?-contains [] i c g = cc
get_elem?-contains (d ∷ ds) zero c g = ground (arith, ==_iff c.id d.id)
get_elem?-contains (d ∷ ds) (suc i) c g = ground (arith, get_elem?-contains ds i c g)

-- With distinct identifiers a card is found where it stands.
position_of-get_elem? :
    (cards : List Card) (i : ℕ) (c : Card)
    → HasDistinctIds card_id cards
    → get_elem? cards i ≡ some c
    → position_of c.id cards ≡ some i
unfolding position_of
position_of-get_elem? [] i c d g = cc
position_of-get_elem? (x ∷ xs) zero c d g = ground (arith, ==_iff x.id c.id)
position_of-get_elem? (x ∷ xs) (suc i) c d g =
    let later = position_of-get_elem? xs i c d.1 g in
    let other : (x.id == c.id) ≡ false =
      ground (arith, get_elem?-contains xs i c g, ==_iff x.id c.id) in
    rw (other, later, position_of) refl

-- The card under one identifier stands directly before that under another.
abbrev pub Before : List Card → Uuid → Uuid → Type 0
Before cards a b =
    (i : ℕ) × (c : Card) × (d : Card) × (get_elem? cards i ≡ some c)
    × (get_elem? cards (suc i) ≡ some d)
    × (c.id ≡ a)
    × (d.id ≡ b)

pub Before-positions :
    (cards : List Card) (a b : Uuid)
    → HasDistinctIds card_id cards
    → Before cards a b
    → (i : ℕ) × (position_of a cards ≡ some i) × (position_of b cards ≡ some (suc i))
Before-positions cards a b distinct (i, c, d, g, g', same, same') = (
  i,
  subst (λ x. position_of x cards ≡ some i) same (position_of-get_elem? cards i c distinct g),
  subst (λ x. position_of x cards ≡ some (suc i)) same'
      (position_of-get_elem? cards (suc i) d distinct g'),
)

pub positions-Before :
    (cards : List Card) (a b : Uuid) (i : ℕ)
    → position_of a cards ≡ some i
    → position_of b cards ≡ some (suc i)
    → Before cards a b
positions-Before cards a b i h k =
    let (c, g, same) = position_found a cards i h in
    let (d, g', same') = position_found b cards (suc i) k in (i, c, d, g, g', same, same')
