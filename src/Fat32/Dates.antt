-- ===== src/Fat32/Dates.antt =====
-- Dates and times: their 16 bits in a directory entry, and seconds since 1970. The fields are numbers, the
-- year not before 1970. Behind the end of `days_in_month`, which the months 13 to 15 of a damaged entry
-- lead to, the source reads what lies there; here it is 0.
mod Years
mod Calendar
mod Packing
mod Tests
use valerioedx.Base.{
  ℕ, zero, suc, ◌+◌, ◌-◌, ◌*◌, ◌/◌, ◌%◌, ◌^◌, Bool, true, false, ◌&&◌, ◌||◌, not, List, [], ◌∷◌,
  Option, none, some, ltb, leb, ◌==◌, if◌then◌else◌, get_or,
}

pub record Time : Type 0 where
  pub year : ℕ
  pub month : ℕ
  pub day : ℕ
  pub hour : ℕ
  pub min : ℕ
  pub sec : ℕ

pub days_in_month : ℕ → ℕ
days_in_month m = get_or (31 ∷ 28 ∷ 31 ∷ 30 ∷ 31 ∷ 30 ∷ 31 ∷ 31 ∷ 30 ∷ 31 ∷ 30 ∷ 31 ∷ []) m 0

pub is_leap_year : ℕ → Bool
is_leap_year year = ((year % 4 == 0) && not (year % 100 == 0)) || (year % 400 == 0)

pub days_in_year : ℕ → ℕ
days_in_year year = if is_leap_year year then 366 else 365

-- The days of the month that `m` months precede in the year.
pub month_days : (year m : ℕ) → ℕ
month_days year m = days_in_month m + (if (m == 1) && is_leap_year year then 1 else 0)

-- `while (rem >= days_in_year(y))`: the year, and the days into it. Nothing where the rounds run out.
pub find_year : (rounds y rem : ℕ) → Option (ℕ × ℕ)
find_year zero y rem = none
find_year (suc rounds) y rem =
    let later = find_year rounds (y + 1) (rem - days_in_year y) in
    if leb (days_in_year y) rem then later else some (y, rem)

-- `while (m < 11)`, with 11 - m rounds left.
pub find_month : (rounds year m rem : ℕ) → ℕ × ℕ
find_month zero year m rem = (m, rem)
find_month (suc rounds) year m rem =
    let later = find_month rounds year (m + 1) (rem - month_days year m) in
    if ltb rem (month_days year m) then (m, rem) else later

pub unix_to_datetime : (rounds timestamp : ℕ) → Option Time
unix_to_datetime rounds timestamp = elim (find_year rounds 1970 (timestamp / 60 / 60 / 24)) [
  | none ↦ none
  | some found ↦
      let (m, rem) = find_month 11 found.0 0 found.1 in
      some (record {
        year = found.0;
        month = m + 1;
        day = rem + 1;
        hour = timestamp / 60 / 60 % 24;
        min = timestamp / 60 % 60;
        sec = timestamp % 60;
      })
]

-- The loops of `datetime_to_unix`, by the rounds left.
pub sum_years : (rounds y days : ℕ) → ℕ
sum_years zero y days = days
sum_years (suc rounds) y days = sum_years rounds (y + 1) (days + days_in_year y)

pub sum_months : (rounds year m days : ℕ) → ℕ
sum_months zero year m days = days
sum_months (suc rounds) year m days =
    sum_months rounds year (m + 1) (days + month_days year (m - 1))

-- `days += day - 1` and the sums are in 64 bits.
pub datetime_to_unix : Time → ℕ
datetime_to_unix t =
    let years = sum_years (t.year - 1970) 1970 0 in
    let months = sum_months (t.month - 1) t.year 1 years in
    let days = months + t.day + (2 ^ 64 - 1) in
    (days * 86400 + t.hour * 3600 + t.min * 60 + t.sec) % 2 ^ 64

pub pack_fat_date : (year month day : ℕ) → ℕ
pack_fat_date year month day =
    (year + (2 ^ 32 - 1980)) % 2 ^ 7 * 2 ^ 9 + month % 2 ^ 4 * 2 ^ 5 + day % 2 ^ 5

pub pack_fat_time : (hour min sec : ℕ) → ℕ
pack_fat_time hour min sec = hour % 2 ^ 5 * 2 ^ 11 + min % 2 ^ 6 * 2 ^ 5 + sec / 2 % 2 ^ 5

pub unpack_fat_date : ℕ → ℕ × ℕ × ℕ
unpack_fat_date date = (date / 2 ^ 9 % 2 ^ 7 + 1980, date / 2 ^ 5 % 2 ^ 4, date % 2 ^ 5)

pub unpack_fat_time : ℕ → ℕ × ℕ × ℕ
unpack_fat_time time = (time / 2 ^ 11 % 2 ^ 5, time / 2 ^ 5 % 2 ^ 6, time % 2 ^ 5 * 2)

pub fat_to_unix : (date time : ℕ) → ℕ
fat_to_unix date time =
    let (year, month, day) = unpack_fat_date date in
    let (hour, min, sec) = unpack_fat_time time in
    let t : Time = record {
      year = year;
      month = month;
      day = day;
      hour = hour;
      min = min;
      sec = sec;
    } in
    if date == 0 then 0 else datetime_to_unix t

-- The date and the time of `sec`, the seconds of the clock.
pub get_fat_now : (rounds sec : ℕ) → Option (ℕ × ℕ)
get_fat_now rounds sec = elim (unix_to_datetime rounds sec) [
  | none ↦ none
  | some t ↦ some (pack_fat_date t.year t.month t.day, pack_fat_time t.hour t.min t.sec)
]
