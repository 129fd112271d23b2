-- ===== src/Web/Burst/Laws.antt =====
-- A burst gives one version of each card that it moves: on the first snapshot, with the last priority.
use blaze_list.Prelude.{
  ◌≡◌, refl, ◌∙◌, ap, Option, none, some, List, [], ◌∷◌, ◌++◌, All, ◌==◌, ==_iff, arith,
  if◌then◌else◌,
}
use blaze_list.Prelude.Int.{ℤ}
use blaze_list.Prelude.Btree.{
  map_get, map_insert, map_get-map_insert, keys, IsAscending, map_insert-IsAscending,
}
use blaze_list.Protocol.Types.{Uuid}
use blaze_list.Protocol.Card.{Card}
use blaze_list.Web.Burst.{PriorityBurst, or_insert, shift_each, apply_move, apply_moves}

-- The first snapshot and the last target of a sibling.
abbrev pub first_base : Uuid → List (Card × ℤ) → Option Card
first_base j [] = none
first_base j ((c, p) ∷ ss) = if c.id == j then some c else first_base j ss

abbrev pub last_target : Uuid → List (Card × ℤ) → Option ℤ
last_target j [] = none
last_target j ((c, p) ∷ ss) = elim (last_target j ss) [
  | none ↦ if c.id == j then some p else none
  | some q ↦ some q
]

abbrev pub all_siblings : List (ℤ × List (Card × ℤ)) → List (Card × ℤ)
all_siblings [] = []
all_siblings ((p, ss) ∷ moves) = ss ++ all_siblings moves

abbrev pub final_priority : ℤ → List (ℤ × List (Card × ℤ)) → ℤ
final_priority p [] = p
final_priority p ((q, ss) ∷ moves) = final_priority q moves

abbrev pub or_else : {A : Type 0} → Option A → Option A → Option A
or_else none b = b
or_else (some a) b = some a

abbrev pub OwnBases : List (Uuid × Card) → Type 0
OwnBases = All (λ (e : Uuid × Card). e.1.id ≡ e.0)

-- What a burst knows of siblings besides those of a list of moves.
pub record Knows (before after : PriorityBurst) (ss : List (Card × ℤ)) : Type 0 where
  pub same_card : after.card_id ≡ before.card_id
  pub base : after.base ≡ before.base
  pub bases :
      (j : Uuid)
      → map_get j after.sibling_bases ≡ or_else (map_get j before.sibling_bases) (first_base j ss)
  pub targets :
      (j : Uuid)
      → map_get j after.sibling_priorities
        ≡ or_else (last_target j ss) (map_get j before.sibling_priorities)
  pub ascending : IsAscending (keys before.sibling_bases) → IsAscending (keys after.sibling_bases)
  pub own : OwnBases before.sibling_bases → OwnBases after.sibling_bases

own-map_insert : (v : Card) (m : List (Uuid × Card)) → OwnBases m → OwnBases (map_insert v.id v m)
unfolding map_insert
own-map_insert v [] h = (refl, tt)
own-map_insert v ((j, w) ∷ m) h = ground (arith, own-map_insert v m h.1)

map_get-or_insert :
    (v : Card) (m : List (Uuid × Card)) (j : Uuid)
    → map_get j (or_insert v.id v m) ≡ or_else (map_get j m) (if v.id == j then some v else none)
unfolding or_insert
map_get-or_insert v m j =
    ground (arith, map_get-map_insert v.id j v m, ==_iff v.id j, ==_iff j v.id)

or_insert-IsAscending :
    (v : Card) (m : List (Uuid × Card))
    → IsAscending (keys m)
    → IsAscending (keys (or_insert v.id v m))
unfolding or_insert
or_insert-IsAscending v m h = ground (arith, map_insert-IsAscending v.id v m h)

or_insert-own : (v : Card) (m : List (Uuid × Card)) → OwnBases m → OwnBases (or_insert v.id v m)
unfolding or_insert
or_insert-own v m h = ground (arith, own-map_insert v m h)

shift_each-Knows : (ss : List (Card × ℤ)) (b : PriorityBurst) → Knows b (shift_each ss b) ss
unfolding shift_each
shift_each-Knows [] b = record {
  same_card = refl;
  base = refl;
  bases = λ j. ground arith;
  targets = λ j. refl;
  ascending = λ h. h;
  own = λ h. h;
}
shift_each-Knows ((c, p) ∷ ss) b =
    let b' = record b {
      sibling_bases = or_insert c.id c b.sibling_bases;
      sibling_priorities = map_insert c.id p b.sibling_priorities;
    } in
    let k = shift_each-Knows ss b' in
    record {
      same_card = k.same_card;
      base = k.base;
      bases = λ j. k.bases j ∙ ground (arith, map_get-or_insert c b.sibling_bases j);
      targets = λ j.
          k.targets j
          ∙ ground (
            arith,
            map_get-map_insert c.id j p b.sibling_priorities,
            ==_iff c.id j,
            ==_iff j c.id,
          );
      ascending = λ h. k.ascending (or_insert-IsAscending c b.sibling_bases h);
      own = λ h. k.own (or_insert-own c b.sibling_bases h);
    }

first_base-append :
    (j : Uuid) (ss ts : List (Card × ℤ))
    → first_base j (ss ++ ts) ≡ or_else (first_base j ss) (first_base j ts)
first_base-append j [] ts = refl
first_base-append j ((c, p) ∷ ss) ts = ground (arith, first_base-append j ss ts)

last_target-append :
    (j : Uuid) (ss ts : List (Card × ℤ))
    → last_target j (ss ++ ts) ≡ or_else (last_target j ts) (last_target j ss)
last_target-append j [] ts = ground arith
last_target-append j ((c, p) ∷ ss) ts = ground (arith, last_target-append j ss ts)

priority-shift_each :
    (ss : List (Card × ℤ)) (b : PriorityBurst) → (shift_each ss b).priority ≡ b.priority
unfolding shift_each
priority-shift_each [] b = refl
priority-shift_each ((c, p) ∷ ss) b = priority-shift_each ss _

pub apply_moves-Knows :
    (moves : List (ℤ × List (Card × ℤ))) (b : PriorityBurst)
    → Knows b (apply_moves moves b) (all_siblings moves)
      × ((apply_moves moves b).priority ≡ final_priority b.priority moves)
unfolding apply_moves apply_move
apply_moves-Knows [] b = (
  record {
    same_card = refl;
    base = refl;
    bases = λ j. ground arith;
    targets = λ j. refl;
    ascending = λ h. h;
    own = λ h. h;
  },
  refl,
)
apply_moves-Knows ((q, ss) ∷ moves) b =
    let b' = record b { priority = q } in
    let k = shift_each-Knows ss b' in
    let (k', p) = apply_moves-Knows moves (shift_each ss b') in
    (
      record {
        same_card = k'.same_card ∙ k.same_card;
        base = k'.base ∙ k.base;
        bases = λ j.
            k'.bases j ∙ ground (arith, k.bases j, first_base-append j ss (all_siblings moves));
        targets = λ j.
            k'.targets j
            ∙ ground (arith, k.targets j, last_target-append j ss (all_siblings moves));
        ascending = λ h. k'.ascending (k.ascending h);
        own = λ h. k'.own (k.own h);
      },
      p ∙ ap (λ r. final_priority r moves) (priority-shift_each ss b'),
    )
