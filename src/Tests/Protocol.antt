-- ===== src/Tests/Protocol.antt =====
-- The hashes, entities and the tag graph.
use blaze_list.Prelude.{
  contains-append, ℕ, ◌≡◌, refl, ◌↔◌, true, false, none, some, List, [], ◌∷◌, ◌++◌, arith, In,
  contains, All,
}
use blaze_list.Prelude.Btree.{IsAscending, map_get, map_insert, set_insert, set_of}
use blaze_list.Prelude.Int.{pos, negsuc}
use blaze_list.Prelude.Sort.{sort_by}
use blaze_list.Protocol.Types.{Uuid}
use blaze_list.Protocol.Bytes.{sort_ids, canonical_card_bytes, canonical_tag_bytes, implies_bytes}
use blaze_list.Protocol.Bytes.Unique.{
  CardFields, SameCard, card_bytes-inj, TagFields, SameTag, tag_bytes-inj,
}
use blaze_list.Protocol.Card.{Card, next}
use blaze_list.Protocol.Card.Versions.{IsNextOf, next-IsNextOf}
use blaze_list.Protocol.Tag.{Tag, next_with_implies, normalize_implies}
use blaze_list.Protocol.Tag.Versions
use blaze_list.Protocol.Tag.Versions.{next_with_implies-IsNextOf, normalize_implies_lem}
use blaze_list.Protocol.Graph.{
  implies_of, closure_of, missing_for_card, affected_cards_for_change, sorted_implies, closure_loop,
  edge_count, push_unvisited,
}
use blaze_list.Protocol.Graph.Reach.{Reach, IsClosed}
use blaze_list.Protocol.Graph.Closure.{closure_of-iff_Reach}
use blaze_list.Protocol.Graph.Missing.{
  missing_for_card_lem, missing_for_card-nil_iff, missing_for_card-IsClosed, missing_for_card_least,
  affected_cards_for_change-nil_iff,
}
use blaze_list.Protocol.Graph.Cycle.{detect_cycle, search_from, descend, visit, enter, leave}
use blaze_list.Protocol.Graph.Cycle.{detect_cycle}
use blaze_list.Protocol.Graph.Cycle.Verdict.{Verdict, detect_cycle-Verdict}
use blaze_list.Tests.Data.{sample_hash, plain_card, plain_tag, looped, three_cards}

abbrev card_fields : List Uuid → CardFields
card_fields tags = record {
  id = 9;
  content = 1 ∷ 2 ∷ [];
  priority = negsuc 4;
  tags = tags;
  blazed = true;
  created_at = pos 1;
  modified_at = pos 2;
  count = pos 3;
  ancestor_hash = 77;
  due_date = some (pos 8);
}

same_card_bytes :
    canonical_card_bytes 9
      (1 ∷ 2 ∷ [])
      (negsuc 4)
      (5 ∷ 3 ∷ [])
      true
      (pos 1)
      (pos 2)
      (pos 3)
      77
      (some (pos 8))
    ≡ canonical_card_bytes 9
        (1 ∷ 2 ∷ [])
        (negsuc 4)
        (3 ∷ 5 ∷ [])
        true
        (pos 1)
        (pos 2)
        (pos 3)
        77
        (some (pos 8))
unfolding canonical_card_bytes sort_ids sort_by
same_card_bytes = refl

card_bytes-inj_example : SameCard (card_fields (5 ∷ 3 ∷ [])) (card_fields (3 ∷ 5 ∷ []))
card_bytes-inj_example =
    card_bytes-inj (card_fields (5 ∷ 3 ∷ [])) (card_fields (3 ∷ 5 ∷ [])) (omega arith) (omega arith)
      same_card_bytes

abbrev tag_fields : List Uuid → TagFields
tag_fields implies = record {
  id = 9;
  title = 1 ∷ 2 ∷ [];
  created_at = pos 1;
  modified_at = pos 2;
  count = pos 3;
  ancestor_hash = 77;
  color = some (record { r = 1; g = 2; b = 3 });
  implies = implies;
}

same_tag_bytes :
    canonical_tag_bytes 9
      (1 ∷ 2 ∷ [])
      (pos 1)
      (pos 2)
      (pos 3)
      77
      (some (record { r = 1; g = 2; b = 3 }))
      (5 ∷ 3 ∷ [])
    ≡ canonical_tag_bytes 9
        (1 ∷ 2 ∷ [])
        (pos 1)
        (pos 2)
        (pos 3)
        77
        (some (record { r = 1; g = 2; b = 3 }))
        (3 ∷ 5 ∷ [])
unfolding canonical_tag_bytes implies_bytes sort_ids sort_by
same_tag_bytes = refl

tag_bytes-inj_example : SameTag (tag_fields (5 ∷ 3 ∷ [])) (tag_fields (3 ∷ 5 ∷ []))
tag_bytes-inj_example =
    tag_bytes-inj (tag_fields (5 ∷ 3 ∷ [])) (tag_fields (3 ∷ 5 ∷ [])) (omega arith) (omega arith)
      same_tag_bytes

next-IsNextOf_example :
    (d : Card) × (next sample_hash
        (plain_card 1 (pos 30) [])
        (b'c' ∷ [])
        (pos 3)
        (2 ∷ 1 ∷ [])
        true
        (pos 9)
        none
      ≡ some d)
    × IsNextOf sample_hash (plain_card 1 (pos 30) []) d
    × (d.content ≡ b'c' ∷ [])
    × (d.priority ≡ pos 3)
    × (d.tags ≡ sort_ids (2 ∷ 1 ∷ []))
    × (d.blazed ≡ true)
    × (d.modified_at ≡ pos 9)
    × (d.due_date ≡ none)
next-IsNextOf_example =
    next-IsNextOf sample_hash (plain_card 1 (pos 30) []) (b'c' ∷ []) (pos 3) (2 ∷ 1 ∷ []) true
      (pos 9) none (omega arith)

next_with_implies-IsNextOf_example :
    (u : Tag) × (next_with_implies sample_hash
        (plain_tag 1 [])
        (b'c' ∷ [])
        none
        (2 ∷ 1 ∷ 2 ∷ [])
        (pos 9)
      ≡ some u)
    × Versions.IsNextOf sample_hash (plain_tag 1 []) u
    × (u.title ≡ b'c' ∷ [])
    × (u.color ≡ none)
    × (u.modified_at ≡ pos 9)
    × ((a : ℕ) → contains u.implies a ≡ contains (2 ∷ 1 ∷ 2 ∷ []) a)
next_with_implies-IsNextOf_example =
    next_with_implies-IsNextOf sample_hash (plain_tag 1 []) (b'c' ∷ []) none (2 ∷ 1 ∷ 2 ∷ [])
      (pos 9) (omega arith)

normalize_implies_lem_example :
    IsAscending (normalize_implies (2 ∷ 1 ∷ 2 ∷ []))
    × ((a : ℕ) → contains (normalize_implies (2 ∷ 1 ∷ 2 ∷ [])) a ≡ contains (2 ∷ 1 ∷ 2 ∷ []) a)
normalize_implies_lem_example = normalize_implies_lem (2 ∷ 1 ∷ 2 ∷ [])

closure_of-iff_Reach_example : In 4 (closure_of looped (2 ∷ [])) ↔ Reach looped (2 ∷ []) 4
closure_of-iff_Reach_example = closure_of-iff_Reach looped (2 ∷ []) 4

missing_for_card_lem_example :
    ((x : Uuid)
      → In x (missing_for_card looped (2 ∷ []))
        ↔ (Reach looped (2 ∷ []) x × (contains (2 ∷ []) x ≡ false)))
    × IsAscending (missing_for_card looped (2 ∷ []))
missing_for_card_lem_example = missing_for_card_lem looped (2 ∷ [])

missing_for_card-nil_iff_example :
    (missing_for_card looped (2 ∷ []) ≡ []) ↔ IsClosed looped (2 ∷ [])
missing_for_card-nil_iff_example = missing_for_card-nil_iff looped (2 ∷ [])

missing_for_card-IsClosed_example : IsClosed looped ((2 ∷ []) ++ missing_for_card looped (2 ∷ []))
missing_for_card-IsClosed_example = missing_for_card-IsClosed looped (2 ∷ [])

missing-looped : missing_for_card looped (2 ∷ []) ≡ 1 ∷ 3 ∷ 4 ∷ []
unfolding missing_for_card closure_of implies_of closure_loop edge_count push_unvisited map_get
    set_insert set_of
missing-looped = refl

four_is_missing : In 4 (missing_for_card looped (2 ∷ []))
four_is_missing = ground (arith, missing-looped)

missing_for_card_least_example : In 4 ((2 ∷ []) ++ missing_for_card looped (2 ∷ []))
missing_for_card_least_example =
    missing_for_card_least looped (2 ∷ []) ((2 ∷ []) ++ missing_for_card looped (2 ∷ []))
      (λ x m. ground (arith, contains-append (2 ∷ []) (missing_for_card looped (2 ∷ [])) x))
      (missing_for_card-IsClosed looped (2 ∷ [])) 4 four_is_missing

affected_cards_for_change-nil_iff_example :
    (affected_cards_for_change looped three_cards ≡ [])
    ↔ All (λ c. IsClosed looped c.tags) three_cards
affected_cards_for_change-nil_iff_example = affected_cards_for_change-nil_iff looped three_cards

detect_cycle-looped : detect_cycle looped ≡ some (1 ∷ 2 ∷ 3 ∷ 1 ∷ [])
unfolding detect_cycle search_from descend visit enter leave sorted_implies implies_of sort_ids
    sort_by map_get map_insert edge_count
detect_cycle-looped = refl

detect_cycle-Verdict_example : Verdict looped (detect_cycle looped)
detect_cycle-Verdict_example = detect_cycle-Verdict looped
