-- ===== src/Providers/Schedule.antt =====
-- apps/api/src/providers/schedule.ts: when ingestion runs. What `Intl.DateTimeFormat` reads at an
-- instant, in the schedule's time zone, is a parameter; an instant is its milliseconds.
pub mod Scanning
use sleeper_ff.Prelude.{
  ℕ, zero, suc, ◌+◌, ◌-◌, ◌*◌, ◌/◌, ◌%◌, String, Bool, not, ◌&&◌, Option, none, some, List, [], ◌∷◌,
  any, find, ltb, leb, ◌==◌, str_eq, if◌then◌else◌, or_else,
}

pub record ScheduleWindow : Type 0 where
  pub id : String
  pub reason : String
  pub days : List ℕ
  -- local minutes from midnight: inclusive start, exclusive end
  pub from : ℕ
  pub to : ℕ
  pub every_minutes : ℕ

abbrev pub hhmm : ℕ → ℕ → ℕ
hhmm hours minutes = hours * 60 + minutes

abbrev pub at : String → String → List ℕ → ℕ → ℕ → ScheduleWindow
at id reason days hours minutes = record {
  id = id;
  reason = reason;
  days = days;
  from = hhmm hours minutes;
  to = hhmm hours minutes + 1;
  every_minutes = 1;
}

abbrev pub default_windows : List ScheduleWindow
default_windows =
    at "waiver-preflight-evening" "Tuesday evening, ahead of Wednesday waiver processing" (2 ∷ [])
      21 0
    ∷ at "waiver-preflight-final" "Final refresh before Wednesday waiver processing" (3 ∷ []) 1 30
    ∷ at "injury-report-wednesday" "After the first practice report of the week" (3 ∷ []) 18 0
    ∷ at "injury-report-thursday" "After the second practice report of the week" (4 ∷ []) 18 0
    ∷ at "injury-report-friday" "After the final game-status report" (5 ∷ []) 17 0
    ∷ at "injury-report-saturday" "Saturday elevations and weekend status changes" (6 ∷ []) 13 0
    ∷ record {
      id = "gameday-thursday";
      reason = "Thursday night kickoff window";
      days = 4 ∷ [];
      from = hhmm 18 0;
      to = hhmm 24 0;
      every_minutes = 30;
    }
    ∷ record {
      id = "gameday-sunday";
      reason = "Sunday inactives and kickoff windows";
      days = 0 ∷ [];
      from = hhmm 8 0;
      to = hhmm 24 0;
      every_minutes = 15;
    }
    ∷ record {
      id = "gameday-monday";
      reason = "Monday night kickoff window";
      days = 1 ∷ [];
      from = hhmm 18 0;
      to = hhmm 24 0;
      every_minutes = 30;
    }
    ∷ record {
      id = "baseline";
      reason = "Baseline refresh";
      days = 0 ∷ 1 ∷ 2 ∷ 3 ∷ 4 ∷ 5 ∷ 6 ∷ [];
      from = hhmm 6 0;
      to = hhmm 22 0;
      every_minutes = 360;
    }
    ∷ []

pub record LocalTime : Type 0 where
  pub day : ℕ
  pub minutes : ℕ

-- The parts that the formatter gives for an instant, its numbers read by `Number`
pub record Parts : Type 0 where
  pub weekday : Option String
  pub hour : ℕ
  pub minute : ℕ

abbrev pub day_names : List String
day_names = "Sun" ∷ "Mon" ∷ "Tue" ∷ "Wed" ∷ "Thu" ∷ "Fri" ∷ "Sat" ∷ []

-- `Math.max(0, names.indexOf(name))`
unfoldable pub index_or_zero : String → List String → ℕ → ℕ
index_or_zero name [] n = 0
index_or_zero name (own ∷ names) n = if str_eq own name then n else index_or_zero name names (suc n)

unfoldable pub local_time : (ℕ → Parts) → ℕ → LocalTime
local_time format date =
    let parts = format date in
    record {
      day = index_or_zero (or_else parts.weekday "Sun") day_names 0;
      minutes = parts.hour % 24 * 60 + parts.minute;
    }

-- A remainder by 0 is not a number, and not 0.
unfoldable pub matches : LocalTime → ScheduleWindow → Bool
matches time window =
    any (λ d. d == time.day) window.days
    && leb window.from time.minutes
    && ltb time.minutes window.to
    && not (window.every_minutes == 0)
    && (time.minutes - window.from) % window.every_minutes == 0

-- The first window that an instant is in
abbrev pub window_at : (ℕ → Parts) → List ScheduleWindow → ℕ → Option ScheduleWindow
window_at format windows date = find (matches (local_time format date)) windows

pub record Run : Type 0 where
  pub date : ℕ
  pub window : ScheduleWindow

abbrev pub run_or : ℕ → Option ScheduleWindow → Option Run → Option Run
run_or candidate none rest = rest
run_or candidate (some window) rest = some record { date = candidate; window = window }

-- The loop over the minutes from `candidate`, this many of them
unfoldable pub scan : (ℕ → Parts) → List ScheduleWindow → ℕ → ℕ → Option Run
scan format windows zero candidate = none
scan format windows (suc steps) candidate =
    let rest = scan format windows steps (candidate + 60000) in
    run_or candidate (window_at format windows candidate) rest

-- the start of the next whole minute
abbrev pub next_minute : ℕ → ℕ
next_minute date = date / 60000 * 60000 + 60000

-- `step <= 8 * 24 * 60`
unfoldable pub next_run : (ℕ → Parts) → List ScheduleWindow → ℕ → Option Run
next_run format windows date = scan format windows (8 * 24 * 60 + 1) (next_minute date)
