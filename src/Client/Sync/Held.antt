-- ===== src/Client/Sync/Held.antt =====
-- In a list with distinct identifiers the first value found is the last one.
use blaze_list.Prelude.{◌≡◌, refl, false, none, List, [], ◌∷◌, map, arith, contains}
use blaze_list.Protocol.Types.{Uuid}
use blaze_list.Client.Sync.Laws.{latest, held, HasDistinctIds}

module _ {A : Type 0} (id : A → Uuid) where
  held-none : (j : Uuid) (vs : List A) → contains (map id vs) j ≡ false → held id j vs ≡ none
  held-none j [] h = refl
  held-none j (v ∷ vs) h = ground (arith, held-none j vs)

  pub latest-eq-held :
      (j : Uuid) (vs : List A) → HasDistinctIds id vs → latest id j vs ≡ held id j vs
  unfolding latest
  latest-eq-held j [] h = refl
  latest-eq-held j (v ∷ vs) h = ground (arith, latest-eq-held j vs h.1, held-none j vs)
