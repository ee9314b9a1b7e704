-- ===== src/Scheduler/Timer.antt =====
-- `start`, `stop` and `schedule` of `LeagueSyncWorker` in apps/api/src/scheduler/worker.ts: when the next
-- sweep is due.
use sleeper_ff.Prelude.{ℕ, ◌+◌, Bool, true, false, Option, none, some, if◌then◌else◌}
use sleeper_ff.Records.{Stamp}
use sleeper_ff.Scheduler.Worker.{WorkerOptions}

-- The timer is its delay.
pub record Timer : Type 0 where
  pub stopped : Bool
  pub timer : Option ℕ
  pub due_at : Option Stamp

abbrev pub not_started : Timer
not_started = record { stopped = true; timer = none; due_at = none }

-- `schedule`, with a random offset
unfoldable pub schedule : WorkerOptions → Stamp → ℕ → Timer → Timer
schedule o now jitter t = if t.stopped then t else record t {
  timer = some (o.sweep_interval_ms + jitter);
  due_at = some (now + (o.sweep_interval_ms + jitter));
}

-- `start`; whether it also begins a sweep
unfoldable pub start : WorkerOptions → Bool → Stamp → ℕ → Timer → Bool × Timer
unfolding schedule
start o run_on_start now jitter t =
    if t.stopped
    then (run_on_start, schedule o now jitter (record t { stopped = false }))
    else (false, t)

-- `stop`
unfoldable pub stop : Timer → Timer
stop t = record t { stopped = true; timer = none }
