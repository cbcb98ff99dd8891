-- ===== src/Fat32/Dates/Years.antt =====
-- The loops of unix_to_datetime find the year and the month.
use valerioedx.Base.{
  ℕ, zero, suc, ◌+◌, ◌-◌, ◌*◌, ◌≤◌, ◌<◌, ◌≡◌, refl, inl, inr, some, ltb, leb, arith, ap, sym, ◌∙◌,
  Bool-cases, ltb→lt,
}
use valerioedx.Fat32.Dates.{
  days_in_month, is_leap_year, days_in_year, month_days, find_year, find_month, sum_years,
  sum_months,
}

pub sum_years-add : (n y days : ℕ) → sum_years n y days ≡ days + sum_years n y 0
unfolding sum_years
sum_years-add zero y days = omega arith
sum_years-add (suc n) y days = omega (
  arith,
  sum_years-add n (y + 1) (days + days_in_year y),
  sum_years-add n (y + 1) (0 + days_in_year y),
)

pub sum_months-add : (n year m days : ℕ) → sum_months n year m days ≡ days + sum_months n year m 0
unfolding sum_months
sum_months-add zero year m days = omega arith
sum_months-add (suc n) year m days = omega (
  arith,
  sum_months-add n year (m + 1) (days + month_days year (m - 1)),
  sum_months-add n year (m + 1) (0 + month_days year (m - 1)),
)

year_length : (y : ℕ) → 365 ≤ days_in_year y
unfolding days_in_year
year_length y = ground arith

-- A year is found for `rem`, with the days that are left in it.
unfoldable pub YearFound : (rounds y rem : ℕ) → Type 0
YearFound rounds y rem =
    (n : ℕ) × (left : ℕ) × (find_year rounds y rem ≡ some (y + n, left))
    × (rem ≡ sum_years n y 0 + left)
    × (left < days_in_year (y + n))

pub find_year-YearFound : (rounds y rem : ℕ) → rem < rounds * 365 → YearFound rounds y rem
unfolding find_year YearFound sum_years
find_year-YearFound zero y rem h = absurd (omega (arith, h))
find_year-YearFound (suc rounds) y rem h = elim (Bool-cases (leb (days_in_year y) rem)) [
  | inl more ↦
      let le : days_in_year y ≤ rem = ground (arith, more) in
      let (n, left, e, total, l) =
        find_year-YearFound rounds (y + 1) (rem - days_in_year y)
          (omega (arith, h, year_length y, le)) in
      let next : y + 1 + n ≡ y + suc n = omega arith in
      (
        suc n,
        left,
        rw more (e ∙ ap (λ x. some (x, left)) next),
        omega (arith, total, le, sum_years-add n (y + 1) (0 + days_in_year y)),
        omega (arith, l, ap days_in_year next),
      )
  | inr last ↦
      let here : y + 0 ≡ y = omega arith in
      let below : rem < days_in_year y = ground (arith, last) in
      (0, rem, rw (last, here) refl, omega arith, omega (arith, ap days_in_year here, below))
]

-- A month is found for `rem`, with the days that are left in it.
unfoldable pub MonthFound : (rounds year m rem : ℕ) → Type 0
MonthFound rounds year m rem =
    (n : ℕ) × (left : ℕ) × (find_month rounds year m rem ≡ (m + n, left))
    × (n ≤ rounds)
    × (rem ≡ sum_months n year (m + 1) 0 + left)
    × (left < month_days year (m + n))

pub find_month-MonthFound :
    (rounds year m rem : ℕ)
    → rem < sum_months (suc rounds) year (m + 1) 0
    → MonthFound rounds year m rem
unfolding find_month MonthFound sum_months
find_month-MonthFound zero year m rem h =
    let here : m + 0 ≡ m = omega arith in
    let first : m + 1 - 1 ≡ m = omega arith in
    (
      0,
      rem,
      ap (λ x. (x, rem)) (sym here),
      omega arith,
      omega arith,
      omega (arith, h, ap (month_days year) here, ap (month_days year) first),
    )
find_month-MonthFound (suc rounds) year m rem h =
    let here : m + 0 ≡ m = omega arith in
    let first : m + 1 - 1 ≡ m = omega arith in
    let month = ap (month_days year) first in
    elim (Bool-cases (ltb rem (month_days year m))) [
      | inl last ↦
          let below : rem < month_days year m = ltb→lt rem (month_days year m) last in
          (
            0,
            rem,
            rw last (ap (λ x. (x, rem)) (sym here)),
            omega arith,
            omega arith,
            omega (arith, below, ap (month_days year) here),
          )
      | inr more ↦
          let le : month_days year m ≤ rem = ground (arith, more) in
          let (n, left, e, few, total, l) =
            find_month-MonthFound rounds year (m + 1) (rem - month_days year m) (
              omega (
                arith,
                h,
                le,
                month,
                sum_months-add (suc rounds) year (m + 1 + 1) (0 + month_days year (m + 1 - 1)),
              )) in
          let next : m + 1 + n ≡ m + suc n = omega arith in
          (
            suc n,
            left,
            rw more (e ∙ ap (λ x. (x, left)) next),
            omega (arith, few),
            omega (
              arith,
              total,
              le,
              month,
              sum_months-add n year (m + 1 + 1) (0 + month_days year (m + 1 - 1)),
            ),
            omega (arith, l, ap (month_days year) next),
          )
    ]

pub twelve_months : (year : ℕ) → days_in_year year ≡ sum_months 12 year 1 0
unfolding days_in_year sum_months month_days days_in_month
twelve_months year = elim (Bool-cases (is_leap_year year)) [
  | inl leap ↦ rw leap refl
  | inr common ↦ rw common refl
]
