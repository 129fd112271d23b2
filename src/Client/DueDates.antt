-- ===== src/Client/DueDates.antt =====
-- clients/lib/src/due_date.rs: how far a due date is from today, and the quick picks. The clock's
-- date is an argument. The day of the week of a date is a parameter: it is `chrono` that knows the
-- calendar. The texts of badges and labels are left out.
pub mod Laws
use blaze_list.Prelude.{ℕ, suc, ◌+◌, ◌-◌, ◌*◌, ◌%◌, Bool, ◌==◌, if◌then◌else◌}
use blaze_list.Prelude.Int.{ℤ, pos, negsuc, ◌+ℤ◌, ◌-ℤ◌, ltb_ℤ, eqb_ℤ}
use blaze_list.Protocol.Types.{DateTime}
use blaze_list.Client.Filter.{NaiveDate, date_naive}

pub data DueDateStatus : Type 0 where
  overdue : ℤ → DueDateStatus
  today : DueDateStatus
  upcoming : ℤ → DueDateStatus

unfoldable pub due_date_status : NaiveDate → DateTime → DueDateStatus
due_date_status now due_date =
    let diff = date_naive due_date -ℤ now in
    if ltb_ℤ diff (pos 0)
    then overdue (pos 0 -ℤ diff)
    else if eqb_ℤ diff (pos 0)
    then today
    else upcoming diff

pub data DueDatePreset : Type 0 where
  preset_today tomorrow in_two_days : DueDatePreset
  next_mon next_tue next_wed next_thu next_fri next_sat next_sun : DueDatePreset

-- `Weekday::num_days_from_monday` of a preset's target.
abbrev pub monday_offset : DueDatePreset → ℕ
monday_offset next_mon = 0
monday_offset next_tue = 1
monday_offset next_wed = 2
monday_offset next_thu = 3
monday_offset next_fri = 4
monday_offset next_sat = 5
monday_offset next_sun = 6
monday_offset _ = 0

-- `and_hms_opt(0, 0, 0)` of a day counted from 1970-01-01.
unfoldable pub midnight_utc : NaiveDate → DateTime
midnight_utc (pos d) = pos (d * 86400000)
midnight_utc (negsuc d) = negsuc (suc d * 86400000 - 1)

unfoldable pub today_midnight : NaiveDate → DateTime
today_midnight now = midnight_utc now

unfoldable pub tomorrow_midnight : NaiveDate → DateTime
tomorrow_midnight now = midnight_utc (now +ℤ pos 1)

unfoldable pub in_two_days_midnight : NaiveDate → DateTime
in_two_days_midnight now = midnight_utc (now +ℤ pos 2)

module _ (weekday : NaiveDate → ℕ) where
  -- `((target_wd - today_wd) + 7) % 7`, a week where that is zero. A day of the week is below seven,
  -- so the sum is not negative.
  unfoldable pub days_ahead : NaiveDate → ℕ → ℕ
  days_ahead now target =
      let ahead = (target + 7 - weekday now) % 7 in if ahead == 0 then 7 else ahead

  unfoldable pub next_weekday : NaiveDate → ℕ → DateTime
  next_weekday now target = midnight_utc (now +ℤ pos (days_ahead now target))

  unfoldable pub resolve : DueDatePreset → NaiveDate → DateTime
  resolve preset_today now = today_midnight now
  resolve tomorrow now = tomorrow_midnight now
  resolve in_two_days now = in_two_days_midnight now
  resolve preset now = next_weekday now (monday_offset preset)
