-- ===== src/Client/Filter.antt =====
-- clients/lib/src/filter.rs: which cards are shown. `HashSet::contains` is membership in the list that
-- the set is made of. The Unicode lower case of a text is a parameter.
pub mod Modes
pub mod Laws
use blaze_list.Prelude.{
  ℕ, ◌/◌, Bool, true, false, not, ◌&&◌, ◌||◌, Option, none, some, List, [], ◌∷◌, filter, find, any,
  all, contains, ◌==◌, if◌then◌else◌,
}
use blaze_list.Prelude.Int.{ℤ, pos, negsuc, ◌+ℤ◌, leb_ℤ, ltb_ℤ, eqb_ℤ}
use blaze_list.Prelude.Btree.{set_of}
use blaze_list.Protocol.Types.{Uuid, Text, DateTime}
use blaze_list.Protocol.Card.{Card}
use blaze_list.Protocol.Tag.{Tag}
use blaze_list.Protocol.Messages.{CardFilter, all_cards, blazed_cards, extinguished_cards}
use blaze_list.Client.Filter.Modes.{
  DueDateFilter, due_all, overdue, today_only, today_and_upcoming, upcoming_tomorrow,
  today_and_tomorrow, upcoming_week, upcoming_two_weeks, TagFilterMode, mode_or, mode_and, mode_nor,
  mode_nand,
}

abbrev pub is_nil {ℓ} : {A : Type ℓ} → List A → Bool
is_nil [] = true
is_nil (_ ∷ _) = false

unfoldable pub apply_linked_card_filter : List Card → List Uuid → List Card
apply_linked_card_filter cards linked_ids =
    if is_nil linked_ids
    then cards
    else filter (λ (c : Card). contains (set_of linked_ids) c.id) cards

unfoldable pub apply_blaze_filter : List Card → CardFilter → List Card
apply_blaze_filter cards all_cards = cards
apply_blaze_filter cards blazed_cards = filter (λ (c : Card). c.blazed) cards
apply_blaze_filter cards extinguished_cards = filter (λ (c : Card). not c.blazed) cards

-- `str::contains`
unfoldable pub starts_with : Text → Text → Bool
starts_with text [] = true
starts_with [] (q ∷ qs) = false
starts_with (t ∷ ts) (q ∷ qs) = t == q && starts_with ts qs

unfoldable pub text_contains : Text → Text → Bool
unfolding starts_with
text_contains [] q = starts_with [] q
text_contains (t ∷ ts) q = starts_with (t ∷ ts) q || text_contains ts q

module _ (to_lowercase : Text → Text) where
  -- One of the card's tags is known and its title matches.
  unfoldable pub tag_matches : Text → List Tag → Uuid → Bool
  tag_matches q all_tags tag_id = elim (find (λ (t : Tag). t.id == tag_id) all_tags) [
    | none ↦ false
    | some tag ↦ text_contains (to_lowercase tag.title) q
  ]

  unfoldable pub search_keeps : Text → Bool → List Tag → Card → Bool
  search_keeps q search_tags all_tags c =
      text_contains (to_lowercase c.content) q || search_tags && any (tag_matches q all_tags) c.tags

  unfoldable pub apply_search_filter : List Card → Text → Bool → List Tag → List Card
  apply_search_filter cards query search_tags all_tags =
      if is_nil query
      then cards
      else filter (search_keeps (to_lowercase query) search_tags all_tags) cards

-- `set` is the set of the selected tags.
unfoldable pub mode_keeps : TagFilterMode → List Uuid → Card → Bool
mode_keeps mode_or set c = any (contains set) c.tags
mode_keeps mode_and set c = all (contains c.tags) set
mode_keeps mode_nor set c = not (any (contains set) c.tags)
mode_keeps mode_nand set c = not (all (contains c.tags) set)

unfoldable pub tag_keeps : List Uuid → TagFilterMode → Bool → Card → Bool
tag_keeps selected_tags mode no_tags c =
    if no_tags && is_nil c.tags
    then true
    else if is_nil selected_tags
    then false
    else mode_keeps mode (set_of selected_tags) c

unfoldable pub apply_tag_filter : List Card → List Uuid → TagFilterMode → Bool → List Card
apply_tag_filter cards selected_tags mode no_tags =
    if is_nil selected_tags && not no_tags
    then cards
    else filter (tag_keeps selected_tags mode no_tags) cards

-- `date_naive`: the day of a time, counted from 1970-01-01.
abbrev pub NaiveDate : Type 0
NaiveDate = ℤ

unfoldable pub date_naive : DateTime → NaiveDate
date_naive (pos ms) = pos (ms / 86400000)
date_naive (negsuc ms) = negsuc (ms / 86400000)

-- From `today` on, and before the end that lies so many days later.
abbrev pub in_window : NaiveDate → ℕ → NaiveDate → Bool
in_window today days date = leb_ℤ today date && ltb_ℤ date (today +ℤ pos days)

-- The predicate of each variant but `All`.
unfoldable pub due_keeps : DueDateFilter → NaiveDate → Bool → NaiveDate → Bool
due_keeps due_all today include_overdue date = true
due_keeps overdue today include_overdue date = ltb_ℤ date today
due_keeps today_only today include_overdue date =
    eqb_ℤ date today || include_overdue && ltb_ℤ date today
due_keeps today_and_upcoming today include_overdue date =
    leb_ℤ today date || include_overdue && ltb_ℤ date today
due_keeps upcoming_tomorrow today include_overdue date =
    eqb_ℤ date (today +ℤ pos 1) || include_overdue && ltb_ℤ date today
due_keeps today_and_tomorrow today include_overdue date =
    in_window today 2 date || include_overdue && ltb_ℤ date today
due_keeps upcoming_week today include_overdue date =
    in_window today 7 date || include_overdue && ltb_ℤ date today
due_keeps upcoming_two_weeks today include_overdue date =
    in_window today 14 date || include_overdue && ltb_ℤ date today

-- `is_some_and`
abbrev pub due_date_keeps : (NaiveDate → Bool) → Option DateTime → Bool
due_date_keeps keep none = false
due_date_keeps keep (some d) = keep (date_naive d)

unfoldable pub apply_due_date_filter_with_today :
    List Card → DueDateFilter → NaiveDate → Bool → List Card
apply_due_date_filter_with_today cards due_all today include_overdue = cards
apply_due_date_filter_with_today cards variant today include_overdue =
    filter (λ (c : Card). due_date_keeps (due_keeps variant today include_overdue) c.due_date) cards

module _ (to_lowercase : Text → Text) where
  unfoldable pub apply_all_filters :
      List Card
      → List Uuid
      → CardFilter
      → Text
      → List Uuid
      → TagFilterMode
      → Bool
      → Bool
      → List Tag
      → List Card
  apply_all_filters cards linked_ids blaze_filter search_query selected_tags tag_mode no_tags
        search_tags all_tags =
      apply_tag_filter
        (apply_search_filter to_lowercase
          (apply_blaze_filter (apply_linked_card_filter cards linked_ids) blaze_filter) search_query
          search_tags all_tags)
        selected_tags tag_mode no_tags
