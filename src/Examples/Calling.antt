-- ===== src/Examples/Calling.antt =====
-- The Sleeper client, the ingestion schedule and the retained feed on concrete inputs.
use sleeper_ff.Prelude.{
  ℕ, zero, suc, ◌+◌, ◌*◌, ◌≤◌, ◌≡◌, refl, arith, String, Bool, true, Option, none, some, [], ◌∷◌,
  All, if◌then◌else◌,
}
use sleeper_ff.SleeperClient.{Options, Reply, answered, timed_out, Call, get, observation}
use sleeper_ff.SleeperClient.Retrying.{fetches, observations, InLimits, get_reported, get_timely}
use sleeper_ff.Providers.Schedule.{
  Parts, Run, ScheduleWindow, default_windows, next_run, next_minute, window_at, local_time,
  matches, index_or_zero,
}
use sleeper_ff.Providers.Schedule.Scanning.{next_run_found, default_windows_run}
use sleeper_ff.Providers.FeedStore.{StoredFeed, load, serves, state_of, feed_of, load-state_of}
use sleeper_ff.Providers.ServiceLevel.{default_service_level}

abbrev options : Options
options = record {
  timeout_ms = 10000;
  max_retries = 2;
  backoff_ms = 200;
  max_retry_after_ms = 5000;
  max_elapsed_ms = 20000;
}

-- The first request times out, the second is answered.
abbrev flaky : ℕ → ℕ → Reply ℕ × ℕ
flaky zero limit = (timed_out, limit)
flaky (suc n) limit = (answered 200 none (some 7), limit)

flaky_stops : (attempt limit : ℕ) → (flaky attempt limit).1 ≤ limit
flaky_stops zero limit = omega arith
flaky_stops (suc n) limit = omega arith

abbrev no_date : String → Option ℕ
no_date s = none

abbrev accept : ℕ → Bool
accept value = true

abbrev on_time : ℕ → ℕ
on_time attempt = 0

get_reported_example :
    (c : Call ℕ) × (get options no_date accept "league" 0 flaky on_time ≡ some c)
    × (1 ≤ fetches c.trace)
    × (fetches c.trace ≤ options.max_retries + 1)
    × (observations c.trace ≡ observation "league" (fetches c.trace) c.ended c.outcome ∷ [])
get_reported_example = get_reported options no_date accept "league" 0 flaky on_time

get_timely_example :
    (c : Call ℕ) × (get options no_date accept "league" 0 flaky on_time ≡ some c)
    × (c.ended ≤ options.max_elapsed_ms + 0)
    × All (InLimits options) c.trace
get_timely_example =
    get_timely options no_date accept "league" 0 flaky on_time 0 (omega arith) flaky_stops
      (λ attempt. omega arith)

abbrev six_o_clock : ℕ → Parts
six_o_clock date = record { weekday = some "Tue"; hour = 6; minute = 0 }

abbrev tuesdays : ScheduleWindow
tuesdays = record {
  id = "tuesdays";
  reason = "every six hours";
  days = 2 ∷ [];
  from = 360;
  to = 720;
  every_minutes = 360;
}

default_windows_run_example :
    (run : Run) × (next_run six_o_clock default_windows 0 ≡ some run)
    × (run.date ≤ next_minute 0 + 0 * 60000)
default_windows_run_example = default_windows_run six_o_clock 0 0 (omega arith) refl refl

next_run_found_example :
    (run : Run) × (next_run six_o_clock (tuesdays ∷ []) 0 ≡ some run)
    × (m : ℕ) × (m ≤ 0)
    × (run.date ≡ next_minute 0 + m * 60000)
    × (window_at six_o_clock (tuesdays ∷ []) run.date ≡ some run.window)
unfolding local_time matches index_or_zero
next_run_found_example =
    next_run_found six_o_clock (tuesdays ∷ []) 0 0 {w = tuesdays} (omega arith) refl

abbrev retained : StoredFeed
retained = record {
  ingested_at = some 0;
  report = "";
  feed = record { season = "2025"; week = 3; players = 400; body = "" };
}

load-state_of_example : load default_service_level 1000 "2025" 3 (some retained) ≡ (
    if serves (state_of default_service_level 1000 (some "2025") (some 3) (some retained))
    then feed_of (some retained)
    else none)
load-state_of_example = load-state_of default_service_level 1000 "2025" 3 (some retained)
