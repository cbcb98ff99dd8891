-- ===== src/Fat32/Dates/Calendar.antt =====
-- The seconds of the date and time that unix_to_datetime gives.
use valerioedx.Base.{ℕ, ◌+◌, ◌-◌, ◌*◌, ◌/◌, ◌%◌, ◌^◌, ◌≤◌, ◌<◌, ◌≡◌, refl, some, arith, ap, ◌∙◌}
use valerioedx.Fat32.Dates.{
  Time, days_in_year, month_days, find_year, find_month, unix_to_datetime, sum_years, sum_months,
  datetime_to_unix,
}
use valerioedx.Fat32.Dates.Years.{
  sum_months-add, YearFound, MonthFound, find_year-YearFound, find_month-MonthFound, twelve_months,
}

-- A day of the calendar and a time of the day.
abbrev pub IsDate : Time → Type 0
IsDate t =
    (1970 ≤ t.year)
    × (1 ≤ t.month)
    × (t.month ≤ 12)
    × (1 ≤ t.day)
    × (t.day ≤ month_days t.year (t.month - 1))
    × (t.hour < 24)
    × (t.min < 60)
    × (t.sec < 60)

-- The date and time of `t`, and the days in front of it.
pub record Dated (rounds t : ℕ) : Type 0 where
  pub years : ℕ
  pub months : ℕ
  pub left : ℕ
  pub days :
      t / 60 / 60 / 24 ≡ sum_years years 1970 0 + (sum_months months (1970 + years) 1 0 + left)
  pub in_year : t / 60 / 60 / 24 < sum_years years 1970 0 + days_in_year (1970 + years)
  pub few : months ≤ 11
  pub in_month : left < month_days (1970 + years) months

abbrev pub date_of : {rounds t : ℕ} → Dated rounds t → Time
date_of {rounds} {t} a = record {
  year = 1970 + a.years;
  month = a.months + 1;
  day = a.left + 1;
  hour = t / 60 / 60 % 24;
  min = t / 60 % 60;
  sec = t % 60;
}

none_before : (m : ℕ) → 0 + m ≡ m
none_before m = omega arith

datetime_found :
    (rounds t n rem m left : ℕ)
    → find_year rounds 1970 (t / 60 / 60 / 24) ≡ some (1970 + n, rem)
    → find_month 11 (1970 + n) 0 rem ≡ (0 + m, left)
    → unix_to_datetime rounds t
      ≡ some (record {
        year = 1970 + n;
        month = m + 1;
        day = left + 1;
        hour = t / 60 / 60 % 24;
        min = t / 60 % 60;
        sec = t % 60;
      })
unfolding unix_to_datetime
datetime_found rounds t n rem m left e e' = rw (unix_to_datetime, e, e', none_before m) refl

pub unix_to_datetime-Dated :
    (rounds t : ℕ)
    → t / 60 / 60 / 24 < rounds * 365
    → (a : Dated rounds t) × (unix_to_datetime rounds t ≡ some (date_of a))
unfolding YearFound MonthFound
unix_to_datetime-Dated rounds t h =
    let (n, rem, e, total, l) = find_year-YearFound rounds 1970 (t / 60 / 60 / 24) h in
    let year = 1970 + n in
    let (m, left, e', few, total', l') =
      find_month-MonthFound 11 year 0 rem (omega (arith, l, twelve_months year)) in
    (
      record {
        years = n;
        months = m;
        left = left;
        days = omega (arith, total, total');
        in_year = omega (arith, total, l);
        few = few;
        in_month = omega (arith, l', ap (month_days year) (none_before m));
      },
      datetime_found rounds t n rem m left e e',
    )

pub seconds_lem :
    (years months left t s : ℕ)
    → t / 60 / 60 / 24 ≡ years + (months + left)
    → t < 2 ^ 55
    → s ≤ t % 60
    → ((years + months + (left + 1) + (2 ^ 64 - 1)) * 86400
          + t / 60 / 60 % 24 * 3600
          + t / 60 % 60 * 60
          + s)
        % 2 ^ 64
      ≡ t - (t % 60 - s)
seconds_lem years months left t s e h l = omega (arith, e, h, l)

-- The seconds of a date, of which `s` may be fewer.
pub datetime_to_unix-date_of :
    (rounds t s : ℕ) (a : Dated rounds t)
    → t < 2 ^ 55
    → s ≤ t % 60
    → datetime_to_unix (record (date_of a) { sec = s }) ≡ t - (t % 60 - s)
unfolding datetime_to_unix
datetime_to_unix-date_of rounds t s a h l =
    let n : 1970 + a.years - 1970 ≡ a.years = omega arith in
    let m : a.months + 1 - 1 ≡ a.months = omega arith in
    let years = sum_years a.years 1970 0 in
    rw (n, m, sum_months-add a.months (1970 + a.years) 1 years)
      (seconds_lem years (sum_months a.months (1970 + a.years) 1 0) a.left t s a.days h l)

-- With a round for each 365 days, unix_to_datetime gives a day of the calendar and a time of the day, which
-- datetime_to_unix turns into the seconds it was given, where these are below 2^55, so that the year fits.
pub datetime_to_unix-unix_to_datetime :
    (rounds t : ℕ)
    → t / 60 / 60 / 24 < rounds * 365
    → t < 2 ^ 55
    → (r : Time) × (unix_to_datetime rounds t ≡ some r) × IsDate r × (datetime_to_unix r ≡ t)
datetime_to_unix-unix_to_datetime rounds t h small =
    let (a, e) = unix_to_datetime-Dated rounds t h in
    let month : a.months + 1 - 1 ≡ a.months = omega arith in
    let days = ap (month_days (1970 + a.years)) month in
    (
      date_of a,
      e,
      (
        omega arith,
        omega arith,
        omega (arith, a.few),
        omega arith,
        omega (arith, a.in_month, days),
        omega arith,
        omega arith,
        omega arith,
      ),
      datetime_to_unix-date_of rounds t (t % 60) a small (omega arith) ∙ omega arith,
    )
