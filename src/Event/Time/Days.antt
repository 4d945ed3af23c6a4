-- ===== src/Event/Time/Days.antt =====
-- `days_from_civil` counts the days since 1970-01-01.
use disaster_alert.Prelude.{
  ℕ, zero, suc, ◌+◌, ◌-◌, ◌*◌, ◌/◌, ◌≤◌, ◌<◌, ◌≡◌, refl, ltb, leb, if◌then◌else◌, arith,
}
use disaster_alert.Event.Time.Calendar.{is_leap, days_in_month, days_from_civil}

pub record Date : Type 0 where
  pub year : ℕ
  pub month : ℕ
  pub day : ℕ

-- The day that follows, by the lengths of the months.
pub next_day : Date → Date
next_day d =
    if ltb d.day (days_in_month d.year d.month)
    then (record d { day = d.day + 1 })
    else if ltb d.month 12
    then (record { year = d.year; month = d.month + 1; day = 1 })
    else (record { year = d.year + 1; month = 1; day = 1 })

pub record IsDate (d : Date) : Type 0 where
  pub year : 1970 ≤ d.year
  pub month : (1 ≤ d.month) × (d.month ≤ 12)
  pub day : (1 ≤ d.day) × (d.day ≤ days_in_month d.year d.month)

abbrev pub day_number : Date → ℕ
day_number d = days_from_civil d.year d.month d.day

-- The days from 0000-03-01 to the first of March of a year.
march_first : ℕ → ℕ
march_first year =
    let year_of_era = year - year / 400 * 400 in
    year / 400 * 146097 + (year_of_era * 365 + year_of_era / 4 - year_of_era / 100)

march_first-suc :
    (y : ℕ) → march_first (y + 1) ≡ march_first y + (if is_leap (y + 1) then 366 else 365)
unfolding march_first is_leap
march_first-suc y = ground arith

march_first-ge : (y : ℕ) → 1969 ≤ y → 719162 ≤ march_first y
unfolding march_first
march_first-ge y h = omega arith

days_from_civil-march :
    (y m d : ℕ)
    → 1970 ≤ y
    → 1 ≤ m
    → 1 ≤ d
    → days_from_civil y m d + 719469 ≡ (
        if leb m 2
        then march_first (y - 1) + (153 * (m + 9) + 2) / 5 + d
        else march_first y + (153 * (m - 3) + 2) / 5 + d)
unfolding days_from_civil march_first
days_from_civil-march y m d h k l = ground (arith, march_first-ge (y - 1), march_first-ge y)

-- Within a year that begins in March, the next month begins behind the last day of this one.
month_start : ℕ → ℕ → ℕ
month_start y m =
    if leb m 2
    then march_first (y - 1) + (153 * (m + 9) + 2) / 5
    else march_first y + (153 * (m - 3) + 2) / 5

month_start-suc :
    (y m : ℕ)
    → 1970 ≤ y
    → 1 ≤ m
    → m < 12
    → month_start y (m + 1) ≡ month_start y m + days_in_month y m
unfolding month_start days_in_month
month_start-suc y m h k l = ground (arith, march_first-suc (y - 1))

month_start-year : (y : ℕ) → month_start (y + 1) 1 ≡ month_start y 12 + days_in_month y 12
unfolding month_start days_in_month
month_start-year y = ground arith

day_number-month_start :
    (d : Date) → IsDate d → day_number d + 719469 ≡ month_start d.year d.month + d.day
unfolding month_start
day_number-month_start d v =
    ground (arith, days_from_civil-march d.year d.month d.day v.year v.month.0 v.day.0)

days_in_month-pos : (y m : ℕ) → 1 ≤ m → m ≤ 12 → 28 ≤ days_in_month y m
unfolding days_in_month
days_in_month-pos y m h k = ground arith

next_day-IsDate : (d : Date) → IsDate d → IsDate (next_day d)
unfolding next_day
next_day-IsDate d v =
    ground (arith, days_in_month-pos d.year (d.month + 1), days_in_month-pos (d.year + 1) 1)

-- The number of a date of the calendar from 1970 on grows by one to the date that follows it, over
-- month ends, leap days and year ends.
pub day_number-next_day : (d : Date) → IsDate d → day_number (next_day d) ≡ day_number d + 1
unfolding next_day
day_number-next_day d v = ground (
  arith,
  day_number-month_start d v,
  day_number-month_start (next_day d) (next_day-IsDate d v),
  month_start-suc d.year d.month,
  month_start-year d.year,
)

abbrev pub epoch : Date
epoch = record { year = 1970; month = 1; day = 1 }

-- The day `n` days after 1970-01-01.
pub day_after_epoch : ℕ → Date
day_after_epoch zero = epoch
day_after_epoch (suc n) = next_day (day_after_epoch n)

pub day_after_epoch-IsDate : (n : ℕ) → IsDate (day_after_epoch n)
unfolding day_after_epoch days_in_month
day_after_epoch-IsDate zero = omega arith
day_after_epoch-IsDate (suc n) = next_day-IsDate _ (day_after_epoch-IsDate n)

-- The date that is n days after 1970-01-01 by the lengths of the months is a date of the calendar
-- and has the number n.
pub day_number-day_after_epoch :
    (n : ℕ) → (day_number (day_after_epoch n) ≡ n) × IsDate (day_after_epoch n)
unfolding day_after_epoch days_from_civil
day_number-day_after_epoch zero = (refl, day_after_epoch-IsDate 0)
day_number-day_after_epoch (suc n) = (
  omega (
    arith,
    day_number-next_day (day_after_epoch n) (day_after_epoch-IsDate n),
    (day_number-day_after_epoch n).0,
  ),
  day_after_epoch-IsDate (suc n),
)
