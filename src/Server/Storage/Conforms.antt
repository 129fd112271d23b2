-- ===== src/Server/Storage/Conforms.antt =====
-- Items that keep to the use of identifiers that the clients make: a chain of versions has one
-- identifier, none is used for a card and for a tag, and a tag's implications are normalised.
use blaze_list.Prelude.{◌≡◌, refl, Bool, true, false, List, [], ◌∷◌, All, last_or}
use blaze_list.Prelude.Btree.{IsAscending}
use blaze_list.Protocol.Types.{Uuid}
use blaze_list.Protocol.Card.{Card}
use blaze_list.Protocol.Tag.{Tag}
use blaze_list.Protocol.Messages.{PushItem}

-- The identifiers of cards; the others are those of tags.
abbrev pub Kinds : Type 0
Kinds = Uuid → Bool

abbrev pub OneCard : Card → List Card → Type 0
OneCard v = All (λ (w : Card). w.id ≡ v.id)

abbrev pub OneTag : Tag → List Tag → Type 0
OneTag v = All (λ (w : Tag). w.id ≡ v.id)

abbrev pub Conforms : Kinds → PushItem → Type 0
Conforms is_card (PushItem.cards []) = Unit
Conforms is_card (PushItem.cards (v ∷ vs)) = (is_card v.id ≡ true) × OneCard v vs
Conforms is_card (PushItem.tags []) = Unit
Conforms is_card (PushItem.tags (v ∷ vs)) =
    (is_card v.id ≡ false) × OneTag v vs × All (λ (w : Tag). IsAscending w.implies) (v ∷ vs)
Conforms is_card (PushItem.delete_card id) = is_card id ≡ true
Conforms is_card (PushItem.delete_tag id) = is_card id ≡ false

pub last_card-id : (v : Card) (vs : List Card) → OneCard v vs → (last_or v vs).id ≡ v.id
last_card-id v [] h = refl
last_card-id v (w ∷ ws) h = last_card-id_of w ws v h.0 h.1
  where
    last_card-id_of :
        (w : Card) (ws : List Card) (v : Card)
        → w.id ≡ v.id
        → OneCard v ws
        → (last_or w ws).id ≡ v.id
    last_card-id_of w [] v e h = e
    last_card-id_of w (u ∷ us) v e h = last_card-id_of u us v h.0 h.1

pub last_tag-id : (v : Tag) (vs : List Tag) → OneTag v vs → (last_or v vs).id ≡ v.id
last_tag-id v [] h = refl
last_tag-id v (w ∷ ws) h = last_tag-id_of w ws v h.0 h.1
  where
    last_tag-id_of :
        (w : Tag) (ws : List Tag) (v : Tag) → w.id ≡ v.id → OneTag v ws → (last_or w ws).id ≡ v.id
    last_tag-id_of w [] v e h = e
    last_tag-id_of w (u ∷ us) v e h = last_tag-id_of u us v h.0 h.1
