-- ===== src/Client/DueDates/Laws.antt =====
-- Quick picks resolve to the day they name, and the filters keep what the badges show.
use blaze_list.Prelude.{
  ℕ, suc, ◌+◌, ◌-◌, ◌%◌, ◌≤◌, ◌<◌, ◌≡◌, refl, sym, ◌∙◌, ap, subst, Bool, true, false, arith,
}
use blaze_list.Prelude.Int.{pos, negsuc, ◌+ℤ◌, ◌-ℤ◌, ltb_ℤ, eqb_ℤ, +ℤ_parts, -ℤ_parts, eq_of_parts}
use blaze_list.Protocol.Types.{DateTime}
use blaze_list.Client.Filter.{NaiveDate, date_naive, due_keeps}
use blaze_list.Client.Filter.Modes
use blaze_list.Client.Filter.Modes.{
  DueDateFilter, due_all, today_only, today_and_upcoming, upcoming_tomorrow, today_and_tomorrow,
  upcoming_week, upcoming_two_weeks,
}
use blaze_list.Client.DueDates.{
  DueDateStatus, due_date_status, overdue, today, upcoming, midnight_utc, today_midnight,
  tomorrow_midnight, in_two_days_midnight, days_ahead, next_weekday,
}

-- The statuses that a filter keeps, with the overdue ones where they are included.
abbrev pub shows : DueDateFilter → Bool → DueDateStatus → Bool
shows due_all include_overdue s = true
shows Modes.overdue include_overdue (overdue n) = true
shows Modes.overdue include_overdue s = false
shows f include_overdue (overdue n) = include_overdue
shows upcoming_tomorrow include_overdue today = false
shows f include_overdue today = true
shows today_only include_overdue (upcoming n) = false
shows today_and_upcoming include_overdue (upcoming n) = true
shows upcoming_tomorrow include_overdue (upcoming n) = eqb_ℤ n (pos 1)
shows today_and_tomorrow include_overdue (upcoming n) = ltb_ℤ n (pos 2)
shows upcoming_week include_overdue (upcoming n) = ltb_ℤ n (pos 7)
shows upcoming_two_weeks include_overdue (upcoming n) = ltb_ℤ n (pos 14)

-- A filter keeps a due date exactly where it shows the date's status.
pub due_keeps-shows :
    (f : DueDateFilter) (now : NaiveDate) (include_overdue : Bool) (due_date : DateTime)
    → due_keeps f now include_overdue (date_naive due_date)
      ≡ shows f include_overdue (due_date_status now due_date)
unfolding due_keeps due_date_status
due_keeps-shows due_all now i d = refl
due_keeps-shows Modes.overdue now i d = ground (arith, -ℤ_parts (date_naive d) now)
due_keeps-shows today_only now i d = ground (arith, -ℤ_parts (date_naive d) now)
due_keeps-shows today_and_upcoming now i d = ground (arith, -ℤ_parts (date_naive d) now)
due_keeps-shows upcoming_tomorrow now i d =
    ground (arith, -ℤ_parts (date_naive d) now, +ℤ_parts now (pos 1))
due_keeps-shows today_and_tomorrow now i d =
    ground (arith, -ℤ_parts (date_naive d) now, +ℤ_parts now (pos 2))
due_keeps-shows upcoming_week now i d =
    ground (arith, -ℤ_parts (date_naive d) now, +ℤ_parts now (pos 7))
due_keeps-shows upcoming_two_weeks now i d =
    ground (arith, -ℤ_parts (date_naive d) now, +ℤ_parts now (pos 14))

date_naive-midnight_utc : (date : NaiveDate) → date_naive (midnight_utc date) ≡ date
unfolding date_naive midnight_utc
date_naive-midnight_utc (pos d) = ap pos (omega arith)
date_naive-midnight_utc (negsuc d) = ap negsuc (omega arith)

-- A date some days ahead is upcoming by as many.
status_ahead :
    (now : NaiveDate) (due_date : DateTime) (n : ℕ)
    → date_naive due_date ≡ now +ℤ pos (suc n)
    → due_date_status now due_date ≡ upcoming (pos (suc n))
unfolding due_date_status
status_ahead now due_date n e =
    let diff : date_naive due_date -ℤ now ≡ pos (suc n) =
      ap (λ d. d -ℤ now) e
      ∙ eq_of_parts (now +ℤ pos (suc n) -ℤ now) (pos (suc n))
          (omega (arith, -ℤ_parts (now +ℤ pos (suc n)) now, +ℤ_parts now (pos (suc n)))) in
    rw diff (ground arith)

-- The quick picks by distance are today, upcoming by one day and upcoming by two.
pub status-midnights :
    (now : NaiveDate)
    → (due_date_status now (today_midnight now) ≡ today)
      × (due_date_status now (tomorrow_midnight now) ≡ upcoming (pos 1))
      × (due_date_status now (in_two_days_midnight now) ≡ upcoming (pos 2))
unfolding today_midnight tomorrow_midnight in_two_days_midnight due_date_status
status-midnights now = (
  rw (date_naive-midnight_utc now) (ground (arith, -ℤ_parts now now)),
  status_ahead now (midnight_utc (now +ℤ pos 1)) 0 (date_naive-midnight_utc (now +ℤ pos 1)),
  status_ahead now (midnight_utc (now +ℤ pos 2)) 1 (date_naive-midnight_utc (now +ℤ pos 2)),
)

-- Days are named in a cycle of seven.
pub record IsCalendar (weekday : NaiveDate → ℕ) : Type 0 where
  pub below_seven : (d : NaiveDate) → weekday d < 7
  pub cycles : (d : NaiveDate) (n : ℕ) → weekday (d +ℤ pos n) ≡ (weekday d + n) % 7

module _ (weekday : NaiveDate → ℕ) (calendar : IsCalendar weekday) where
  days_ahead-bounds :
      (now : NaiveDate) (target : ℕ)
      → target < 7
      → (1 ≤ days_ahead weekday now target)
        × (days_ahead weekday now target ≤ 7)
        × ((weekday now + days_ahead weekday now target) % 7 ≡ target)
  unfolding days_ahead
  days_ahead-bounds now target h =
      let w = calendar.below_seven now in (ground arith, ground arith, ground arith)

  -- The next day of a name lies one to seven days ahead and has that name: never today.
  pub next_weekday_lem :
      (now : NaiveDate) (target : ℕ)
      → target < 7
      → (n : ℕ) × (1 ≤ n)
        × (n ≤ 7)
        × (due_date_status now (next_weekday weekday now target) ≡ upcoming (pos n))
        × (weekday (date_naive (next_weekday weekday now target)) ≡ target)
  unfolding next_weekday
  next_weekday_lem now target h =
      let n = days_ahead weekday now target in
      let (low, high, hits) = days_ahead-bounds now target h in
      let day = date_naive-midnight_utc (now +ℤ pos n) in
      let back : suc (n - 1) ≡ n = omega arith in
      (
        n,
        low,
        high,
        subst (λ k. due_date_status now (midnight_utc (now +ℤ pos n)) ≡ upcoming (pos k)) back
            (status_ahead now (midnight_utc (now +ℤ pos n)) (n - 1)
              (day ∙ ap (λ k. now +ℤ pos k) (sym back))),
        ap weekday day ∙ calendar.cycles now n ∙ hits,
      )
