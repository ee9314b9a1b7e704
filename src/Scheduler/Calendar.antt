-- ===== src/Scheduler/Calendar.antt =====
-- `currentNflWeek` and `weekOneTuesday` of apps/api/src/providers/configure.ts, with the UTC calendar
-- of JavaScript's `Date` that they use, for the instants from 1970 on.
use sleeper_ff.Prelude.{
  ℕ, ◌+◌, ◌-◌, ◌*◌, ◌/◌, ◌%◌, ◌≤◌, ◌≡◌, ◌∙◌, refl, ap, min, max, Bool, ◌&&◌, ◌||◌, not, Option,
  none, ltb, ◌==◌, if◌then◌else◌, or_else, arith,
}
use sleeper_ff.Records.{Stamp}

abbrev pub day_ms : ℕ
day_ms = 86400000

-- The year that starts with March, and the day of it, of a number of days since 1970-01-01. Four
-- centuries have 146097 days.
record MarchDate : Type 0 where
  year : ℕ
  day : ℕ

unfoldable march_date : ℕ → MarchDate
march_date days =
    let z = days + 719468 in
    let era = z / 146097 in
    let day = z % 146097 in
    let year = (day - day / 1460 + day / 36524 - day / 146096) / 365 in
    record { year = year + era * 400; day = day - (365 * year + year / 4 - year / 100) }

-- `getUTCMonth()`, from 0 for January
unfoldable pub month_of : Stamp → ℕ
unfolding march_date
month_of now =
    let m = (5 * (march_date (now / day_ms)).day + 2) / 153 in if ltb m 10 then m + 2 else m - 10

-- `getUTCFullYear()`
unfoldable pub full_year : Stamp → ℕ
unfolding march_date month_of
full_year now =
    let y = (march_date (now / day_ms)).year in if ltb (month_of now) 2 then y + 1 else y

abbrev pub is_leap : ℕ → Bool
is_leap y = (y % 4 == 0) && (not (y % 100 == 0) || (y % 400 == 0))

-- The days from 1970-01-01 to the first of September of a year from 1970 on: `Date.UTC(year, 8, 1)`.
unfoldable pub september_first : ℕ → ℕ
september_first y =
    (y - 1970) * 365
    + ((y - 1969) / 4 + (y - 1601) / 400 - (y - 1901) / 100)
    + (if is_leap y then 244 else 243)

-- `getUTCDay()` of a day, from 0 for Sunday; 1970-01-01 was a Thursday.
abbrev pub weekday : ℕ → ℕ
weekday day = (day + 4) % 7

-- The number of days to Labor Day, the first Monday of September.
unfoldable pub labor_day : ℕ → ℕ
labor_day year = let first = september_first year in first + (8 - weekday first) % 7

unfoldable pub week_one_tuesday : ℕ → Stamp
unfolding labor_day
week_one_tuesday year = labor_day year * day_ms + day_ms

-- `NFL_SEASON` and `NFL_WEEK_ONE_TUESDAY`, as config/environment.ts admits them: a year, and a date.
pub record CalendarEnv : Type 0 where
  pub season : Option ℕ
  pub week_one : Option Stamp

pub record NflWeek : Type 0 where
  pub season : ℕ
  pub week : ℕ

-- `floor((now - start) / week)` is negative before `start`, which the bounds make week 1.
abbrev week_since : Stamp → Stamp → ℕ
week_since start now =
    if ltb now start then 1 else min 18 (max 1 ((now - start) / (7 * day_ms) + 1))

unfoldable pub current_nfl_week : Stamp → CalendarEnv → NflWeek
unfolding week_one_tuesday month_of full_year
current_nfl_week now env =
    let year =
      or_else env.season (if ltb (month_of now) 2 then full_year now - 1 else full_year now) in
    record { season = year; week = week_since (or_else env.week_one (week_one_tuesday year)) now }

pub current_nfl_week-bounds :
    (now : Stamp) (env : CalendarEnv)
    → (1 ≤ (current_nfl_week now env).week) × ((current_nfl_week now env).week ≤ 18)
unfolding current_nfl_week
current_nfl_week-bounds now env = (ground arith, ground arith)

-- The first Monday from a day on.
abbrev monday_from : ℕ → ℕ
monday_from first = first + (8 - weekday first) % 7

monday_from_lem :
    (first : ℕ)
    → (weekday (monday_from first) ≡ 1)
      × (weekday (monday_from first + 1) ≡ 2)
      × (first ≤ monday_from first)
      × (monday_from first ≤ first + 6)
monday_from_lem first = (omega arith, omega arith, omega arith, omega arith)

day_of : (day : ℕ) → (day * day_ms + day_ms) / day_ms ≡ day + 1
day_of day = omega arith

-- Labor Day is a Monday in the first seven days of September, and week 1 starts on the Tuesday after
-- it, at the first instant of that day.
pub week_one_tuesday_lem :
    (year : ℕ)
    → (weekday (labor_day year) ≡ 1)
      × (weekday (week_one_tuesday year / day_ms) ≡ 2)
      × (september_first year ≤ labor_day year)
      × (labor_day year ≤ september_first year + 6)
      × (week_one_tuesday year ≡ (labor_day year + 1) * day_ms)
unfolding labor_day week_one_tuesday
week_one_tuesday_lem year =
    let m = monday_from_lem (september_first year) in
    (m.0, ap weekday (day_of (monday_from (september_first year))) ∙ m.1, m.2, m.3, omega arith)

abbrev no_override : CalendarEnv
no_override = record { season = none; week_one = none }

-- 2025-09-02, 2024-09-03, and 2024-02-28 and 2024-03-01 on either side of a leap day
week_one_2025 : week_one_tuesday 2025 ≡ 1756771200000
unfolding week_one_tuesday labor_day september_first
week_one_2025 = refl

week_one_2024 : week_one_tuesday 2024 ≡ 1725321600000
unfolding week_one_tuesday labor_day september_first
week_one_2024 = refl

february : full_year 1709078400000 * 12 + month_of 1709078400000 ≡ 2024 * 12 + 1
unfolding full_year month_of march_date
february = refl

march : full_year 1709251200000 * 12 + month_of 1709251200000 ≡ 2024 * 12 + 2
unfolding full_year month_of march_date
march = refl

leap_day : full_year 1709164800000 * 12 + month_of 1709164800000 ≡ 2024 * 12 + 1
unfolding full_year month_of march_date
leap_day = refl

-- 2026-01-15 belongs to the season of 2025, past its last week.
january : current_nfl_week 1768435200000 no_override ≡ record { season = 2025; week = 18 }
unfolding current_nfl_week week_one_tuesday labor_day september_first full_year month_of march_date
january = refl
