-- ===== src/Client/SortOrder.antt =====
-- The sort orders of clients/lib/src/filter.rs. A sort that Rust leaves unstable is a stable one here,
-- which is one of its results.
pub mod Laws
use Prim.Native.String.{String}
use text.Mathlib.Text.{◌==◌ as str_eq}
use blaze_list.Prelude.{Bool, true, false, Option, none, some, List, [], ◌∷◌, if◌then◌else◌}
use blaze_list.Prelude.Int.{ℤ, leb_ℤ, ltb_ℤ}
use blaze_list.Prelude.Sort.{sort_by}
use blaze_list.Protocol.Types.{Text, DateTime}
use blaze_list.Protocol.Card.{Card}
use blaze_list.Server.Reads.{text_le}

pub data SortOrder : Type 0 where
  priority priority_reverse modified_at modified_at_reverse created_at created_at_reverse :
      SortOrder
  title title_reverse due_date due_date_reverse : SortOrder

unfoldable pub order_url_value : SortOrder → Option String
order_url_value priority = none
order_url_value priority_reverse = some "priority-reverse"
order_url_value modified_at = some "modified"
order_url_value modified_at_reverse = some "modified-reverse"
order_url_value created_at = some "created"
order_url_value created_at_reverse = some "created-reverse"
order_url_value title = some "title"
order_url_value title_reverse = some "title-reverse"
order_url_value due_date = some "due"
order_url_value due_date_reverse = some "due-reverse"

unfoldable pub order_from_url_value : String → SortOrder
order_from_url_value s =
    if str_eq s "priority-reverse"
    then priority_reverse
    else if str_eq s "modified"
    then modified_at
    else if str_eq s "modified-reverse"
    then modified_at_reverse
    else if str_eq s "created"
    then created_at
    else if str_eq s "created-reverse"
    then created_at_reverse
    else if str_eq s "title"
    then title
    else if str_eq s "title-reverse"
    then title_reverse
    else if str_eq s "due"
    then due_date
    else if str_eq s "due-reverse"
    then due_date_reverse
    else priority

-- `cmp(a, b).then_with(…)` for due dates: undated cards stand last in both directions, and a tie goes
-- to the higher priority. The flag reverses the order of the dated ones.
unfoldable pub due_dates_le : Bool → Option DateTime → Option DateTime → Bool → Bool
due_dates_le reverse none none tie = tie
due_dates_le reverse none (some e) tie = false
due_dates_le reverse (some d) none tie = true
due_dates_le reverse (some d) (some e) tie =
    if (if reverse then ltb_ℤ e d else ltb_ℤ d e)
    then true
    else if (if reverse then ltb_ℤ d e else ltb_ℤ e d)
    then false
    else tie

unfoldable pub due_le : Bool → Card → Card → Bool
due_le reverse a b = due_dates_le reverse a.due_date b.due_date (leb_ℤ b.priority a.priority)

module _ (to_lowercase : Text → Text) where
  -- `a` may stand before `b`.
  unfoldable pub order_le : SortOrder → Card → Card → Bool
  order_le priority a b = leb_ℤ b.priority a.priority
  order_le priority_reverse a b = leb_ℤ a.priority b.priority
  order_le modified_at a b = leb_ℤ b.modified_at a.modified_at
  order_le modified_at_reverse a b = leb_ℤ a.modified_at b.modified_at
  order_le created_at a b = leb_ℤ b.created_at a.created_at
  order_le created_at_reverse a b = leb_ℤ a.created_at b.created_at
  order_le title a b = text_le (to_lowercase a.content) (to_lowercase b.content)
  order_le title_reverse a b = text_le (to_lowercase b.content) (to_lowercase a.content)
  order_le due_date a b = due_le false a b
  order_le due_date_reverse a b = due_le true a b

  unfoldable pub sort_cards : List Card → SortOrder → List Card
  sort_cards cards order = sort_by (order_le order) cards

  unfoldable pub sort_by_priority : List Card → List Card
  unfolding sort_cards
  sort_by_priority cards = sort_cards cards priority
