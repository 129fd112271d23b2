-- ===== src/Client/Filter/Modes.antt =====
-- The filter choices of clients/lib/src/filter.rs and their URL values.
use Prim.Native.String.{String}
use text.Mathlib.Text.{◌==◌ as str_eq}
use blaze_list.Prelude.{Bool, true, false, ◌||◌, Option, none, some, if◌then◌else◌}

pub data DueDateFilter : Type 0 where
  due_all overdue today_only today_and_upcoming : DueDateFilter
  upcoming_tomorrow today_and_tomorrow upcoming_week upcoming_two_weeks : DueDateFilter

unfoldable pub is_upcoming : DueDateFilter → Bool
is_upcoming due_all = false
is_upcoming overdue = false
is_upcoming today_only = false
is_upcoming today_and_upcoming = true
is_upcoming upcoming_tomorrow = true
is_upcoming today_and_tomorrow = true
is_upcoming upcoming_week = true
is_upcoming upcoming_two_weeks = true

unfoldable pub due_url_value : DueDateFilter → Option String
due_url_value due_all = none
due_url_value overdue = some "overdue"
due_url_value today_only = some "today"
due_url_value today_and_upcoming = some "today-upcoming"
due_url_value upcoming_tomorrow = some "upcoming-tomorrow"
due_url_value today_and_tomorrow = some "today-tomorrow"
due_url_value upcoming_week = some "upcoming-week"
due_url_value upcoming_two_weeks = some "upcoming-2weeks"

unfoldable pub due_from_url_value : String → DueDateFilter
due_from_url_value s =
    if str_eq s "overdue"
    then overdue
    else if str_eq s "today"
    then today_only
    else if str_eq s "today-upcoming" || str_eq s "upcoming"
    then today_and_upcoming
    else if str_eq s "upcoming-tomorrow"
    then upcoming_tomorrow
    else if str_eq s "today-tomorrow"
    then today_and_tomorrow
    else if str_eq s "upcoming-week"
    then upcoming_week
    else if str_eq s "upcoming-2weeks"
    then upcoming_two_weeks
    else due_all

pub data TagFilterMode : Type 0 where
  mode_or mode_and mode_nor mode_nand : TagFilterMode

unfoldable pub mode_url_value : TagFilterMode → Option String
mode_url_value mode_or = none
mode_url_value mode_and = some "and"
mode_url_value mode_nor = some "nor"
mode_url_value mode_nand = some "nand"

unfoldable pub mode_from_url_value : String → TagFilterMode
mode_from_url_value s =
    if str_eq s "and"
    then mode_and
    else if str_eq s "nor"
    then mode_nor
    else if str_eq s "nand"
    then mode_nand
    else mode_or

unfoldable pub allows_no_tags : TagFilterMode → Bool
allows_no_tags mode_or = true
allows_no_tags mode_and = false
allows_no_tags mode_nor = false
allows_no_tags mode_nand = false

unfoldable pub next_mode : TagFilterMode → TagFilterMode
next_mode mode_or = mode_and
next_mode mode_and = mode_nor
next_mode mode_nor = mode_nand
next_mode mode_nand = mode_or

-- A parameter that is left out of the URL is read as the empty text, which names no variant.
abbrev pub url_text : Option String → String
url_text none = ""
url_text (some s) = s
