-- ===== src/Fat32/Dates/Packing.antt =====
-- The time that a directory entry holds.
use valerioedx.Base.{
  ℕ, zero, suc, ◌+◌, ◌-◌, ◌*◌, ◌/◌, ◌%◌, ◌^◌, ◌≤◌, ◌<◌, ◌≡◌, refl, Bool, ◌&&◌, true, false, inl,
  inr, List, [], ◌∷◌, some, ltb, leb, ◌==◌, arith, ap, ◌∙◌, Bool-cases, get_or,
}
use valerioedx.Fat32.Dates.{
  Time, days_in_month, is_leap_year, days_in_year, month_days, unix_to_datetime, pack_fat_date,
  pack_fat_time, unpack_fat_date, unpack_fat_time, fat_to_unix, get_fat_now, sum_years,
}
use valerioedx.Fat32.Dates.Years.{sum_years-add}
use valerioedx.Fat32.Dates.Calendar.{Dated, unix_to_datetime-Dated, datetime_to_unix-date_of}

unpack-pack_fat_date :
    (y m d : ℕ)
    → 1980 ≤ y
    → y < 2108
    → m < 16
    → d < 32
    → unpack_fat_date (pack_fat_date y m d) ≡ (y, m, d)
unfolding unpack_fat_date pack_fat_date
unpack-pack_fat_date y m d hy hy' hm hd =
    let p = (y + (2 ^ 32 - 1980)) % 2 ^ 7 * 2 ^ 9 + m % 2 ^ 4 * 2 ^ 5 + d % 2 ^ 5 in
    let ey : p / 2 ^ 9 % 2 ^ 7 + 1980 ≡ y = omega (arith, hy, hy', hm, hd) in
    let em : p / 2 ^ 5 % 2 ^ 4 ≡ m = omega (arith, hm, hd) in
    let ed : p % 2 ^ 5 ≡ d = omega (arith, hd) in rw (ey, em, ed) refl

unpack-pack_fat_time :
    (h m s : ℕ)
    → h < 24
    → m < 60
    → s < 60
    → unpack_fat_time (pack_fat_time h m s) ≡ (h, m, s / 2 * 2)
unfolding unpack_fat_time pack_fat_time
unpack-pack_fat_time h m s hh hm hs =
    let p = h % 2 ^ 5 * 2 ^ 11 + m % 2 ^ 6 * 2 ^ 5 + s / 2 % 2 ^ 5 in
    let eh : p / 2 ^ 11 % 2 ^ 5 ≡ h = omega (arith, hh, hm, hs) in
    let em : p / 2 ^ 5 % 2 ^ 6 ≡ m = omega (arith, hm, hs) in
    let es : p % 2 ^ 5 * 2 ≡ s / 2 * 2 = omega (arith, hs) in rw (eh, em, es) refl

pack_positive : (y m d : ℕ) → 1 ≤ m → m ≤ 12 → (pack_fat_date y m d == 0) ≡ false
unfolding pack_fat_date
pack_positive y m d h h' = ground (arith, h, h')

sum_years-more : (k n y : ℕ) → sum_years n y 0 ≤ sum_years (n + k) y 0
unfolding sum_years
sum_years-more k zero y = omega arith
sum_years-more k (suc n) y =
    let one : suc n + k ≡ suc (n + k) = omega arith in
    rw one (
      omega (
        arith,
        sum_years-more k n (y + 1),
        sum_years-add n (y + 1) (0 + days_in_year y),
        sum_years-add (n + k) (y + 1) (0 + days_in_year y),
      ))

sum_years-up : (n m : ℕ) → n ≤ m → sum_years n 1970 0 ≤ sum_years m 1970 0
sum_years-up n m h =
    let k : n + (m - n) ≡ m = omega (arith, h) in
    omega (arith, sum_years-more (m - n) n 1970, ap (λ x. sum_years x 1970 0) k)

sum_years-last : (n y : ℕ) → sum_years (suc n) y 0 ≡ sum_years n y 0 + days_in_year (y + n)
unfolding sum_years
sum_years-last zero y = let here : y + 0 ≡ y = omega arith in omega (arith, ap days_in_year here)
sum_years-last (suc n) y =
    let next : y + 1 + n ≡ y + suc n = omega arith in
    omega (
      arith,
      sum_years-last n (y + 1),
      sum_years-add (suc n) (y + 1) (0 + days_in_year y),
      sum_years-add n (y + 1) (0 + days_in_year y),
      ap days_in_year next,
    )

to_1980 : sum_years 10 1970 0 ≡ 3652
unfolding sum_years days_in_year is_leap_year
to_1980 = refl

to_2108 : sum_years 138 1970 0 ≡ 50403
unfolding sum_years days_in_year is_leap_year
to_2108 = refl

-- The years that seven bits hold.
in_range :
    (rounds t : ℕ) (a : Dated rounds t)
    → 315532800 ≤ t
    → t < 4354819200
    → (10 ≤ a.years) × (a.years < 138)
in_range rounds t a lo hi = (
  elim (Bool-cases (leb 10 a.years)) [
    | inl h ↦ ground (arith, h)
    | inr h ↦
        let early = sum_years-up (suc a.years) 10 (ground (arith, h)) in
        absurd (omega (arith, lo, a.in_year, early, sum_years-last a.years 1970, to_1980))
  ],
  elim (Bool-cases (ltb a.years 138)) [
    | inl h ↦ ground (arith, h)
    | inr h ↦
        let late = sum_years-up 138 a.years (ground (arith, h)) in
        absurd (omega (arith, hi, a.days, late, to_2108))
  ],
)

all_short : List ℕ → Bool
all_short [] = true
all_short (x ∷ xs) = leb x 31 && all_short xs

get_or-all_short : (xs : List ℕ) (m : ℕ) → all_short xs ≡ true → get_or xs m 0 ≤ 31
unfolding all_short
get_or-all_short [] m h = omega arith
get_or-all_short (x ∷ xs) zero h = ground (arith, h)
get_or-all_short (x ∷ xs) (suc m) h = get_or-all_short xs m (ground (arith, h))

month_short : (year m : ℕ) → month_days year m ≤ 31
unfolding month_days days_in_month all_short
month_short year m =
    let list =
      get_or-all_short (31 ∷ 28 ∷ 31 ∷ 30 ∷ 31 ∷ 30 ∷ 31 ∷ 31 ∷ 30 ∷ 31 ∷ 30 ∷ 31 ∷ []) m refl in
    elim (Bool-cases (m == 1)) [
      | inl e ↦ let second : m ≡ 1 = ground (arith, e) in rw second (ground arith)
      | inr other ↦ rw other (omega (arith, list))
    ]

now_found :
    (rounds t : ℕ) (r : Time)
    → unix_to_datetime rounds t ≡ some r
    → get_fat_now rounds t
      ≡ some (pack_fat_date r.year r.month r.day, pack_fat_time r.hour r.min r.sec)
unfolding get_fat_now
now_found rounds t r e = rw (get_fat_now, e) refl

-- From 1980 until the end of 2107, and with a round for each 365 days, the date and time of a clock at `t`,
-- put into a directory entry and read from it, are `t` but for an odd second.
pub fat_to_unix-get_fat_now :
    (rounds t : ℕ)
    → t / 60 / 60 / 24 < rounds * 365
    → 315532800 ≤ t
    → t < 4354819200
    → (date : ℕ) × (time : ℕ) × (get_fat_now rounds t ≡ some (date, time))
      × (fat_to_unix date time ≡ t - t % 2)
unfolding fat_to_unix
fat_to_unix-get_fat_now rounds t h lo hi =
    let (a, e) = unix_to_datetime-Dated rounds t h in
    let (from, until) = in_range rounds t a lo hi in
    let short = month_short (1970 + a.years) a.months in
    (
      pack_fat_date (1970 + a.years) (a.months + 1) (a.left + 1),
      pack_fat_time (t / 60 / 60 % 24) (t / 60 % 60) (t % 60),
      now_found rounds t _ e,
      rw
          (
            pack_positive (1970 + a.years) (a.months + 1) (a.left + 1) (omega arith)
                (omega (arith, a.few)),
            unpack-pack_fat_date (1970 + a.years) (a.months + 1) (a.left + 1) (omega (arith, from))
                (omega (arith, until)) (omega (arith, a.few)) (omega (arith, a.in_month, short)),
            unpack-pack_fat_time (t / 60 / 60 % 24) (t / 60 % 60) (t % 60) (omega arith)
                (omega arith) (omega arith),
          )
          (datetime_to_unix-date_of rounds t (t % 60 / 2 * 2) a (omega (arith, hi)) (omega arith)
            ∙ omega arith),
    )
