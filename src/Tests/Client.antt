-- ===== src/Tests/Client.antt =====
-- Placement, filters, sorting and sync.
use mathlib.Core.List.{Perm}
use blaze_list.Prelude.{◌≡◌, ◌&&◌, false, [], ◌∷◌, filter, arith}
use blaze_list.Prelude.Int.{pos, negsuc, ◌<ℤ◌, ◌-ℤ◌}
use blaze_list.Protocol.Types.{Uuid}
use blaze_list.Protocol.Messages.{extinguished_cards}
use blaze_list.Client.Sync.{card_id, tag_id, apply_card_changeset, apply_tag_changeset}
use blaze_list.Client.Sync.Laws.{HasDistinctIds, held, expected, apply_tag_changeset_lem}
use blaze_list.Client.Sync.Cards.{IsDescending, apply_card_changeset_lem}
use blaze_list.Client.Priority.{compute_priority}
use blaze_list.Client.Priority.Bounds.{compute_priority_bounds}
use blaze_list.Client.Filter.{apply_all_filters}
use blaze_list.Client.Filter.Modes.{mode_nand}
use blaze_list.Client.Filter.Laws.{
  linked_test, blaze_test, search_test, tag_test, apply_all_filters-eq_filter,
}
use blaze_list.Client.SortOrder.{due_date, title, sort_cards, order_from_url_value, order_url_value}
use blaze_list.Client.SortOrder.Laws.{
  IsOrdered, sort_cards_lem, order_from_url_value-order_url_value,
}
use blaze_list.Client.Filter.Modes.{url_text}
use blaze_list.Tests.Data.{same_text, three_cards, changes, plain_tag}

apply_card_changeset_lem_example :
    IsDescending (apply_card_changeset three_cards changes)
    × HasDistinctIds card_id (apply_card_changeset three_cards changes)
    × ((j : Uuid)
        → held card_id j (apply_card_changeset three_cards changes)
          ≡ expected card_id j three_cards changes.deleted changes.cards)
apply_card_changeset_lem_example = apply_card_changeset_lem three_cards changes

apply_tag_changeset_lem_example :
    HasDistinctIds tag_id (apply_tag_changeset (plain_tag 11 [] ∷ plain_tag 13 [] ∷ []) changes)
    × ((j : Uuid)
        → held tag_id j (apply_tag_changeset (plain_tag 11 [] ∷ plain_tag 13 [] ∷ []) changes)
          ≡ expected tag_id j (plain_tag 11 [] ∷ plain_tag 13 [] ∷ []) changes.deleted changes.tags)
apply_tag_changeset_lem_example =
    apply_tag_changeset_lem (plain_tag 11 [] ∷ plain_tag 13 [] ∷ []) changes

one_apart : pos 1 <ℤ pos 1000 -ℤ negsuc 499
unfolding ◌-ℤ◌
one_apart = omega arith

compute_priority_bounds_example :
    (negsuc 499 <ℤ compute_priority (λ n. 0) (pos 1000) (negsuc 499))
    × (compute_priority (λ n. 0) (pos 1000) (negsuc 499) <ℤ pos 1000)
compute_priority_bounds_example = compute_priority_bounds (λ n. 0) (pos 1000) (negsuc 499) one_apart

apply_all_filters-eq_filter_example :
    apply_all_filters same_text three_cards
      (1 ∷ 2 ∷ [])
      extinguished_cards
      (b'b' ∷ [])
      (2 ∷ [])
      mode_nand
      false
      false
      []
    ≡ filter
        (λ c.
          linked_test (1 ∷ 2 ∷ []) c
          && blaze_test extinguished_cards c
          && search_test same_text (b'b' ∷ []) false [] c
          && tag_test (2 ∷ []) mode_nand false c)
        three_cards
apply_all_filters-eq_filter_example =
    apply_all_filters-eq_filter same_text three_cards (1 ∷ 2 ∷ []) extinguished_cards (b'b' ∷ [])
      (2 ∷ []) mode_nand false false []

sort_cards_lem_example :
    Perm (sort_cards same_text three_cards due_date) three_cards
    × IsOrdered same_text due_date (sort_cards same_text three_cards due_date)
sort_cards_lem_example = sort_cards_lem same_text due_date three_cards

order_from_url_value-order_url_value_example :
    order_from_url_value (url_text (order_url_value title)) ≡ title
order_from_url_value-order_url_value_example = order_from_url_value-order_url_value title
