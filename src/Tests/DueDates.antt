-- ===== src/Tests/DueDates.antt =====
-- Due dates on a sample calendar.
use blaze_list.Prelude.{ℕ, ◌+◌, ◌-◌, ◌%◌, ◌≤◌, ◌<◌, ◌≡◌, true, arith}
use blaze_list.Prelude.Int.{pos, negsuc, ◌+ℤ◌}
use blaze_list.Client.Filter.{NaiveDate, date_naive, due_keeps}
use blaze_list.Client.Filter.Modes.{upcoming_week}
use blaze_list.Client.DueDates.{
  due_date_status, next_weekday, upcoming, today, today_midnight, tomorrow_midnight,
  in_two_days_midnight,
}
use blaze_list.Client.DueDates.Laws.{
  IsCalendar, shows, due_keeps-shows, status-midnights, next_weekday_lem,
}

-- The first of January 1970 was a Thursday.
abbrev sample_weekday : NaiveDate → ℕ
sample_weekday (pos n) = (n + 3) % 7
sample_weekday (negsuc n) = (9 - n % 7) % 7

sample_weekday-IsCalendar : IsCalendar sample_weekday
unfolding ◌+ℤ◌
sample_weekday-IsCalendar = record { below_seven = λ d. below d; cycles = λ d n. cycle d n }
  where
    below : (d : NaiveDate) → sample_weekday d < 7
    below (pos m) = omega arith
    below (negsuc m) = omega arith

    cycle : (d : NaiveDate) (n : ℕ) → sample_weekday (d +ℤ pos n) ≡ (sample_weekday d + n) % 7
    cycle (pos m) n = ground arith
    cycle (negsuc m) n = ground arith

next_weekday_lem_example :
    (n : ℕ) × (1 ≤ n)
    × (n ≤ 7)
    × (due_date_status (pos 4) (next_weekday sample_weekday (pos 4) 0) ≡ upcoming (pos n))
    × (sample_weekday (date_naive (next_weekday sample_weekday (pos 4) 0)) ≡ 0)
next_weekday_lem_example =
    next_weekday_lem sample_weekday sample_weekday-IsCalendar (pos 4) 0 (omega arith)

due_keeps-shows_example :
    due_keeps upcoming_week (pos 4) true (date_naive (pos 345600000))
    ≡ shows upcoming_week true (due_date_status (pos 4) (pos 345600000))
due_keeps-shows_example = due_keeps-shows upcoming_week (pos 4) true (pos 345600000)

status-midnights_example :
    (due_date_status (negsuc 0) (today_midnight (negsuc 0)) ≡ today)
    × (due_date_status (negsuc 0) (tomorrow_midnight (negsuc 0)) ≡ upcoming (pos 1))
    × (due_date_status (negsuc 0) (in_two_days_midnight (negsuc 0)) ≡ upcoming (pos 2))
status-midnights_example = status-midnights (negsuc 0)
