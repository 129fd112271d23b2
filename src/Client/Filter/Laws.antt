-- ===== src/Client/Filter/Laws.antt =====
-- What the filters keep.
use blaze_list.Prelude.{
  ℕ, Bool, true, false, not, ◌&&◌, ◌||◌, ◌≡◌, refl, ◌∙◌, ap, sym, List, [], ◌∷◌, filter, any, all,
  contains, arith, Bool-cases, inl, inr,
}
use blaze_list.Prelude.Btree.{set_of, set_insert, contains-set_of}
use blaze_list.Protocol.Types.{Uuid, Text}
use blaze_list.Protocol.Card.{Card}
use blaze_list.Protocol.Tag.{Tag}
use blaze_list.Protocol.Messages.{CardFilter, all_cards, blazed_cards, extinguished_cards}
use blaze_list.Client.Filter.Modes.{
  DueDateFilter, due_all, overdue, today_only, today_and_upcoming, upcoming_tomorrow,
  today_and_tomorrow, upcoming_week, upcoming_two_weeks, TagFilterMode, mode_or, mode_and, mode_nor,
  mode_nand, url_text, due_url_value, due_from_url_value, mode_url_value, mode_from_url_value,
}
use blaze_list.Client.Filter.{
  is_nil, apply_linked_card_filter, apply_blaze_filter, apply_search_filter, apply_tag_filter,
  search_keeps, tag_keeps, mode_keeps, apply_all_filters,
}

-- Reading a URL value back gives the due-date filter and the tag mode that it was written for.
pub from_url_value-url_value :
    ((f : DueDateFilter) → due_from_url_value (url_text (due_url_value f)) ≡ f)
    × ((m : TagFilterMode) → mode_from_url_value (url_text (mode_url_value m)) ≡ m)
unfolding due_url_value due_from_url_value mode_url_value mode_from_url_value
from_url_value-url_value = (
  elim [
    | due_all ↦ refl
    | overdue ↦ refl
    | today_only ↦ refl
    | today_and_upcoming ↦ refl
    | upcoming_tomorrow ↦ refl
    | today_and_tomorrow ↦ refl
    | upcoming_week ↦ refl
    | upcoming_two_weeks ↦ refl
  ],
  elim [ mode_or ↦ refl | mode_and ↦ refl | mode_nor ↦ refl | mode_nand ↦ refl ],
)

filter-filter :
    {A : Type 0} (p q : A → Bool) (xs : List A)
    → filter q (filter p xs) ≡ filter (λ x. p x && q x) xs
filter-filter p q [] = refl
filter-filter p q (x ∷ xs) = ground (arith, filter-filter p q xs)

filter-true : {A : Type 0} (xs : List A) → filter (λ x. true) xs ≡ xs
filter-true [] = refl
filter-true (x ∷ xs) = ground (arith, filter-true xs)

filter_ext :
    {A : Type 0} (p q : A → Bool) (xs : List A) → ((x : A) → p x ≡ q x) → filter p xs ≡ filter q xs
filter_ext p q [] h = refl
filter_ext p q (x ∷ xs) h = ground (arith, filter_ext p q xs h, h x)

-- The test that each stage of the pipeline makes, with the stages that are switched off.
abbrev pub linked_test : List Uuid → Card → Bool
linked_test linked_ids c = is_nil linked_ids || contains linked_ids c.id

abbrev pub blaze_test : CardFilter → Card → Bool
blaze_test all_cards c = true
blaze_test blazed_cards c = c.blazed
blaze_test extinguished_cards c = not c.blazed

-- Some selected tag is on the card; every selected tag is on the card.
abbrev pub has_any : List Uuid → Card → Bool
has_any selected c = any (contains selected) c.tags

abbrev pub has_all : List Uuid → Card → Bool
has_all selected c = all (contains c.tags) selected

abbrev pub mode_test : TagFilterMode → List Uuid → Card → Bool
mode_test mode_or selected c = has_any selected c
mode_test mode_and selected c = has_all selected c
mode_test mode_nor selected c = not (has_any selected c)
mode_test mode_nand selected c = not (has_all selected c)

-- The tag stage as one condition.
abbrev pub tag_test : List Uuid → TagFilterMode → Bool → Card → Bool
tag_test selected mode no_tags c =
    is_nil selected && not no_tags
    || (no_tags && is_nil c.tags || not (is_nil selected) && mode_test mode selected c)

any_ext : (p q : ℕ → Bool) (xs : List ℕ) → ((x : ℕ) → p x ≡ q x) → any p xs ≡ any q xs
any_ext p q [] h = refl
any_ext p q (x ∷ xs) h = ground (arith, any_ext p q xs h, h x)

has_any-set_of : (sel : List Uuid) (c : Card) → any (contains (set_of sel)) c.tags ≡ has_any sel c
has_any-set_of sel c = any_ext (contains (set_of sel)) (contains sel) c.tags (contains-set_of sel)

all-set_insert : (p : ℕ → Bool) (x : ℕ) (s : List ℕ) → all p (set_insert x s) ≡ (p x && all p s)
unfolding set_insert
all-set_insert p x [] = refl
all-set_insert p x (y ∷ ys) = ground (arith, all-set_insert p x ys)

all-set_of : (p : ℕ → Bool) (xs : List ℕ) → all p (set_of xs) ≡ all p xs
unfolding set_of
all-set_of p [] = refl
all-set_of p (x ∷ xs) = ground (arith, all-set_insert p x (set_of xs), all-set_of p xs)

mode_keeps-mode_test :
    (mode : TagFilterMode) (sel : List Uuid) (c : Card)
    → mode_keeps mode (set_of sel) c ≡ mode_test mode sel c
unfolding mode_keeps
mode_keeps-mode_test mode_or sel c = has_any-set_of sel c
mode_keeps-mode_test mode_and sel c = all-set_of (contains c.tags) sel
mode_keeps-mode_test mode_nor sel c = ap not (has_any-set_of sel c)
mode_keeps-mode_test mode_nand sel c = ap not (all-set_of (contains c.tags) sel)

tag_keeps-tag_test :
    (sel : List Uuid) (mode : TagFilterMode) (no_tags : Bool) (c : Card)
    → is_nil sel && not no_tags ≡ false
    → tag_keeps sel mode no_tags c ≡ tag_test sel mode no_tags c
unfolding tag_keeps
tag_keeps-tag_test sel mode no_tags c h = ground (arith, mode_keeps-mode_test mode sel c)

linked_stage :
    (cards : List Card) (ids : List Uuid)
    → apply_linked_card_filter cards ids ≡ filter (linked_test ids) cards
unfolding apply_linked_card_filter
linked_stage cards [] = sym (filter-true cards)
linked_stage cards (i ∷ ids) =
    filter_ext _ (linked_test (i ∷ ids)) cards λ c. contains-set_of (i ∷ ids) c.id

blaze_stage :
    (cards : List Card) (f : CardFilter) → apply_blaze_filter cards f ≡ filter (blaze_test f) cards
unfolding apply_blaze_filter
blaze_stage cards all_cards = sym (filter-true cards)
blaze_stage cards blazed_cards = refl
blaze_stage cards extinguished_cards = refl

tag_stage :
    (cards : List Card) (sel : List Uuid) (mode : TagFilterMode) (no_tags : Bool)
    → apply_tag_filter cards sel mode no_tags ≡ filter (tag_test sel mode no_tags) cards
unfolding apply_tag_filter
tag_stage cards sel mode no_tags = elim (Bool-cases (is_nil sel && not no_tags)) [
  | inl off ↦ rw off (
      sym (filter-true cards)
      ∙ filter_ext (λ c. true) (tag_test sel mode no_tags) cards (λ c. rw off))
  | inr on ↦
      rw on (
        filter_ext _ (tag_test sel mode no_tags) cards
          λ c. tag_keeps-tag_test sel mode no_tags c on)
]

module _ (to_lowercase : Text → Text) where
  abbrev pub search_test : Text → Bool → List Tag → Card → Bool
  search_test query search_tags all_tags c =
      is_nil query || search_keeps to_lowercase (to_lowercase query) search_tags all_tags c

  search_stage :
      (cards : List Card) (query : Text) (search_tags : Bool) (all_tags : List Tag)
      → apply_search_filter to_lowercase cards query search_tags all_tags
        ≡ filter (search_test query search_tags all_tags) cards
  unfolding apply_search_filter
  search_stage cards [] search_tags all_tags = sym (filter-true cards)
  search_stage cards (q ∷ qs) search_tags all_tags = refl

  -- The pipeline keeps exactly the cards that pass all four stages, in their order: the card is
  -- linked (or nothing is linked), its blaze status fits, the query matches (or is empty), and the
  -- tag choice holds (or is off).
  pub apply_all_filters-eq_filter :
      (cards : List Card) (linked_ids : List Uuid) (blaze : CardFilter) (query : Text)
      (sel : List Uuid) (mode : TagFilterMode) (no_tags search_tags : Bool) (all_tags : List Tag)
      → apply_all_filters to_lowercase cards linked_ids blaze query sel mode no_tags search_tags
          all_tags
        ≡ filter
            (λ c.
              linked_test linked_ids c
              && blaze_test blaze c
              && search_test query search_tags all_tags c
              && tag_test sel mode no_tags c)
            cards
  unfolding apply_all_filters
  apply_all_filters-eq_filter cards linked_ids blaze query sel mode no_tags search_tags all_tags =
      rw (linked_stage, blaze_stage, search_stage, tag_stage)
        (simp filter-filter (filter_ext _ _ cards (λ c. ground arith)))
