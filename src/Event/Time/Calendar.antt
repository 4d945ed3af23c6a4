-- ===== src/Event/Time/Calendar.antt =====
-- src/models/disaster.rs: the proleptic Gregorian calendar, for years from 1970 on.
use disaster_alert.Prelude.{
  ℕ, ◌+◌, ◌-◌, ◌*◌, ◌/◌, ◌%◌, Bool, not, ◌&&◌, ◌||◌, ◌==◌, leb, if◌then◌else◌,
}

unfoldable pub is_leap : ℕ → Bool
is_leap year = (year % 4 == 0 && not (year % 100 == 0)) || year % 400 == 0

unfoldable pub days_in_month : ℕ → ℕ → ℕ
unfolding is_leap
days_in_month year month =
    if month == 1
      || month == 3
      || month == 5
      || month == 7
      || month == 8
      || month == 10
      || month == 12
    then 31
    else if month == 4 || month == 6 || month == 9 || month == 11
    then 30
    else if month == 2
    then (if is_leap year then 29 else 28)
    else 0

-- January and February count as months of the year before, so that a leap day ends its year.
unfoldable pub days_from_civil : ℕ → ℕ → ℕ → ℕ
days_from_civil year month day =
    let shifted = year - (if leb month 2 then 1 else 0) in
    let era = shifted / 400 in
    let year_of_era = shifted - era * 400 in
    let adjusted_month = if leb month 2 then month + 9 else month - 3 in
    let day_of_year = (153 * adjusted_month + 2) / 5 + day - 1 in
    let day_of_era = year_of_era * 365 + year_of_era / 4 - year_of_era / 100 + day_of_year in
    era * 146097 + day_of_era - 719468
