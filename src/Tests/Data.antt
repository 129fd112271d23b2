-- ===== src/Tests/Data.antt =====
-- Inputs for the tests.
use blaze_list.Prelude.{ℕ, ◌+◌, ◌*◌, ◌%◌, ◌^◌, false, none, List, [], ◌∷◌}
use blaze_list.Prelude.Int.{ℤ, pos, negsuc}
use blaze_list.Protocol.Types.{Uuid, Hash, Text}
use blaze_list.Protocol.Card
use blaze_list.Protocol.Card.{Card}
use blaze_list.Protocol.Tag.{Tag, first_with_implies}
use blaze_list.Protocol.Graph.{TagGraph}
use blaze_list.Protocol.Messages.{ChangeSet, PushItem}

-- A function in the place of BLAKE3.
abbrev pub sample_hash : List ℕ → Hash
sample_hash [] = 7
sample_hash (b ∷ bs) = (sample_hash bs * 257 + b + 1) % 2 ^ 256

-- A function in the place of Unicode lower case.
abbrev pub same_text : Text → Text
same_text t = t

abbrev pub plain_card : Uuid → ℤ → List Uuid → Card
plain_card id priority tags = record {
  id = id;
  content = b'a' ∷ b'b' ∷ [];
  priority = priority;
  tags = tags;
  blazed = false;
  created_at = pos 5;
  modified_at = pos 6;
  due_date = none;
  count = record { value = 1 };
  ancestor_hash = 0;
  hash = id + 100;
}

abbrev pub plain_tag : Uuid → List Uuid → Tag
plain_tag id implies = record {
  id = id;
  title = b'x' ∷ [];
  color = none;
  created_at = pos 5;
  modified_at = pos 6;
  count = record { value = 1 };
  ancestor_hash = 0;
  hash = id + 200;
  implies = implies;
}

-- 1 → 2 → 3 → 4 and 3 → 1.
abbrev pub looped : TagGraph
looped = record { edges = (1, 2 ∷ []) ∷ (2, 3 ∷ []) ∷ (3, 4 ∷ 1 ∷ []) ∷ [] }

abbrev pub changes : ChangeSet
changes = record {
  cards = plain_card 2 (pos 9) [] ∷ plain_card 4 (negsuc 3) [] ∷ [];
  tags = plain_tag 12 [] ∷ [];
  deleted = record { id = 1; hash = 0 } ∷ record { id = 11; hash = 0 } ∷ [];
  root = record { hash = 1; sequence = record { value = 3 } };
}

abbrev pub three_cards : List Card
three_cards =
    plain_card 1 (pos 30) (1 ∷ [])
    ∷ plain_card 2 (pos 20) (1 ∷ 2 ∷ [])
    ∷ plain_card 3 (pos 10) []
    ∷ []

-- Two tags, the second implying the first, and a card with both.
abbrev pub batch : List PushItem
batch =
    PushItem.tags (first_with_implies sample_hash 1 (b'p' ∷ []) none [] (pos 5) ∷ [])
    ∷ PushItem.tags (first_with_implies sample_hash 2 (b'q' ∷ []) none (1 ∷ []) (pos 5) ∷ [])
    ∷ PushItem.cards
        (Card.first sample_hash 3 (b'c' ∷ []) (pos 40) (2 ∷ 1 ∷ []) false (pos 5) none ∷ [])
    ∷ []
