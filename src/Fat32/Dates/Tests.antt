-- ===== src/Fat32/Dates/Tests.antt =====
-- The first second of March of 2024, and one in 2031.
use valerioedx.Base.{ℕ, ◌-◌, ◌%◌, ◌≡◌, some, arith}
use valerioedx.Fat32.Dates.{Time, unix_to_datetime, datetime_to_unix, get_fat_now, fat_to_unix}
use valerioedx.Fat32.Dates.Calendar.{IsDate, datetime_to_unix-unix_to_datetime}
use valerioedx.Fat32.Dates.Packing.{fat_to_unix-get_fat_now}

datetime_to_unix_example :
    (r : Time) × (unix_to_datetime 60 1709251200 ≡ some r)
    × IsDate r
    × (datetime_to_unix r ≡ 1709251200)
datetime_to_unix_example =
    datetime_to_unix-unix_to_datetime 60 1709251200 (omega arith) (omega arith)

fat_to_unix_example :
    (date : ℕ) × (time : ℕ) × (get_fat_now 70 1930000001 ≡ some (date, time))
    × (fat_to_unix date time ≡ 1930000001 - 1930000001 % 2)
fat_to_unix_example =
    fat_to_unix-get_fat_now 70 1930000001 (omega arith) (omega arith) (omega arith)
