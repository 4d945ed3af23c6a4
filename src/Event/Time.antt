-- ===== src/Event/Time.antt =====
-- src/models/disaster.rs: the time at which an event occurred, in seconds since 1970.
--
-- Dates are computed only behind the range tests, where no number is negative, so they are over ℕ.
-- The default offset of a source is that of src/source_registry.rs.
pub mod Calendar
pub mod Days
use disaster_alert.Prelude.{
  ℕ, zero, suc, ◌+◌, ◌-◌, ◌*◌, ◌/◌, ◌%◌, ◌^◌, ◌≤◌, Bool, true, false, not, ◌&&◌, ◌||◌, Option, none,
  some, List, [], ◌∷◌, ◌++◌, ◌==◌, ltb, leb, if◌then◌else◌, length, all, drop, take, get_elem?,
}
use disaster_alert.Prelude.Int.{ℤ, pos, negsuc, ◌-ℤ◌, sub_ℕ}
use disaster_alert.Text.{Text, text}
use disaster_alert.Region.{trim}
use disaster_alert.Event.{DisasterEvent}
use disaster_alert.Sources.{default_utc_offset_seconds}
use Calendar.{days_in_month, days_from_civil}

infixl 5 ◌>>=◌
abbrev ◌>>=◌ {ℓ κ} : {A : Type ℓ} {B : Type κ} → Option A → (A → Option B) → Option B
none >>= f = none
some a >>= f = f a

-- `str::split_once` at the first character that fits.
unfoldable pub split_once : (ℕ → Bool) → Text → Option (Text × Text)
split_once sep [] = none
split_once sep (c ∷ cs) =
    let rest = split_once sep cs in
    if sep c then some ([], cs) else elim rest [ none ↦ none | some (a, b) ↦ some (c ∷ a, b) ]

-- The parts that `str::split` walks through; there is always one.
unfoldable pub split : (ℕ → Bool) → Text → Text × List Text
split sep [] = ([], [])
split sep (c ∷ cs) =
    let (first, others) = split sep cs in
    if sep c then ([], first ∷ others) else (c ∷ first, others)

is_ascii_digit : ℕ → Bool
is_ascii_digit c = leb b'0' c && leb c b'9'

read_digits : ℕ → Text → Option ℕ
unfolding is_ascii_digit
read_digits acc [] = some acc
read_digits acc (c ∷ cs) = if is_ascii_digit c then read_digits (acc * 10 + (c - b'0')) cs else none

unsigned : Text → Option ℕ
unfolding read_digits
unsigned [] = none
unsigned (c ∷ cs) = read_digits 0 (c ∷ cs)

-- `str::parse::<i64>` with `ok`.
unfoldable pub parse_i64 : Text → Option ℤ
unfolding unsigned
parse_i64 [] = none
parse_i64 (c ∷ cs) =
    if c == b'-'
    then (do n ← unsigned cs; if leb n (2 ^ 63) then some (sub_ℕ 0 n) else none)
    else do
      n ← unsigned (if c == b'+' then cs else c ∷ cs)
      if ltb n (2 ^ 63) then some (pos n) else none

-- A parsed number, if it lies between two bounds; a number outside makes the parse fail.
within : ℕ → ℕ → ℤ → Option ℕ
within lo hi (pos n) = if leb lo n && leb n hi then some n else none
within lo hi (negsuc n) = none

last_char : Text → Option (Text × ℕ)
last_char [] = none
last_char (c ∷ []) = some ([], c)
last_char (c ∷ d ∷ cs) = elim (last_char (d ∷ cs)) [ none ↦ none | some (a, z) ↦ some (c ∷ a, z) ]

-- `strip_suffix('Z')`.
strip_z : Text → Option Text
unfolding last_char
strip_z s = elim (last_char s) [ none ↦ none | some (a, z) ↦ if z == b'Z' then some a else none ]

is_sign : ℕ → Bool
is_sign c = c == b'+' || c == b'-'

-- The text up to the first sign behind the first character, the sign, and the text behind it.
split_sign : Text → Option (Text × ℕ × Text)
unfolding is_sign
split_sign [] = none
split_sign (c ∷ cs) =
    let rest = split_sign cs in
    if is_sign c
    then some ([], c, cs)
    else elim rest [ none ↦ none | some (a, s, b) ↦ some (c ∷ a, s, b) ]

signed_offset : ℕ → ℕ → ℤ
signed_offset sign seconds = if sign == b'-' then sub_ℕ 0 seconds else pos seconds

-- `hh:mm` behind a sign.
offset_seconds : ℕ → Text → Option ℤ
unfolding is_ascii_digit signed_offset
offset_seconds sign (a ∷ b ∷ colon ∷ c ∷ d ∷ []) =
    let hours = (a - b'0') * 10 + (b - b'0') in
    let minutes = (c - b'0') * 10 + (d - b'0') in
    if colon == b':'
      && (is_ascii_digit a && is_ascii_digit b && is_ascii_digit c && is_ascii_digit d)
      && leb hours 23
      && leb minutes 59
    then some (signed_offset sign (hours * 3600 + minutes * 60))
    else none
offset_seconds sign _ = none

with_first : ℕ → Option (Text × ℕ × Text) → Text → Option (Text × Option ℤ)
unfolding offset_seconds
with_first c none value = some (value, none)
with_first c (some (time, sign, body)) value = do
  offset ← offset_seconds sign body
  some (c ∷ time, some offset)

unstripped : Text → Option (Text × Option ℤ)
unfolding split_sign with_first
unstripped [] = some ([], none)
unstripped (c ∷ cs) = with_first c (split_sign cs) (c ∷ cs)

-- `parse_time_offset`.
unfoldable pub parse_time_offset : Text → Option (Text × Option ℤ)
unfolding strip_z unstripped
parse_time_offset value = elim (strip_z value) [
  | some time ↦ some (time, some (pos 0))
  | none ↦ unstripped value
]

whole_seconds : Text → Option ℤ
unfolding split_once parse_i64 is_ascii_digit all
whole_seconds item = elim (split_once (λ c. c == b'.') item) [
  | none ↦ parse_i64 item
  | some (seconds, fraction) ↦
      if ltb 0 (length fraction) && all is_ascii_digit fraction then parse_i64 seconds else none
]

date_of : Text × List Text → Option (ℤ × ℤ × ℤ)
unfolding parse_i64
date_of (year, month ∷ day ∷ []) = do
  y ← parse_i64 year
  m ← parse_i64 month
  d ← parse_i64 day
  some (y, m, d)
date_of _ = none

time_of : Text × List Text → Option (ℤ × ℤ × ℤ)
unfolding parse_i64 whole_seconds
time_of (hour, minute ∷ []) = do h ← parse_i64 hour; m ← parse_i64 minute; some (h, m, pos 0)
time_of (hour, minute ∷ second ∷ []) = do
  h ← parse_i64 hour
  m ← parse_i64 minute
  s ← whole_seconds second
  some (h, m, s)
time_of _ = none

or_default : Option ℤ → Option ℤ → Option ℤ
or_default (some a) b = some a
or_default none b = b

-- `parse_datetime_epoch_seconds`.
unfoldable pub parse_datetime_epoch_seconds : Text → Option ℤ → Option ℤ
unfolding trim split_once split date_of parse_time_offset time_of within or_default days_in_month
    days_from_civil ◌-ℤ◌
parse_datetime_epoch_seconds value default_offset_seconds = do
  (date, raw_time) ← split_once (λ c. c == b' ' || c == b'T') (trim value)
  (y, m, d) ← date_of (split (λ c. c == b'-' || c == b'/') date)
  (time, explicit_offset) ← parse_time_offset raw_time
  (h, mi, s) ← time_of (split (λ c. c == b':') time)
  year ← within 1970 9999 y
  month ← within 1 12 m
  day ← within 1 (days_in_month year month) d
  hour ← within 0 23 h
  minute ← within 0 59 mi
  second ← within 0 59 s
  offset ← or_default explicit_offset default_offset_seconds
  some (pos (days_from_civil year month day * 86400 + hour * 3600 + minute * 60 + second) -ℤ offset)

unfoldable pub parse_event_epoch : DisasterEvent → Option ℤ
unfolding parse_datetime_epoch_seconds default_utc_offset_seconds
parse_event_epoch e =
    parse_datetime_epoch_seconds e.occurred_at (default_utc_offset_seconds e.source)
