-- ===== src/Scheduler/Worker.antt =====
-- `LeagueSyncWorker` of apps/api/src/scheduler/worker.ts: its options, which leagues are due, one
-- attempt at a league, and one sweep. The queue between them is in Queue.
pub mod Attempting
pub mod Failing
use Prim.Native.String.{◌++◌ as concat}
use sleeper_ff.Prelude.{
  ℕ, ◌+◌, ◌-◌, ◌*◌, ◌/◌, ◌%◌, ◌^◌, min, max, String, Bool, true, false, not, ◌&&◌, Option, none,
  some, List, [], ◌∷◌, ltb, ◌==◌, if◌then◌else◌, or_else,
}
use sleeper_ff.Prelude.Assoc.{Assoc, lookup}
use sleeper_ff.Records.{Stamp, SyncStatus, success, failed, SyncAttempt, League, LeagueConnection}
use sleeper_ff.Store.{StoreShape}
use sleeper_ff.Store.Leases.{LeaseHandle, acquire, release}
use sleeper_ff.Store.Connections.{
  is_active, league_connection, update_league_connection, record_league_sync_attempt,
}
use sleeper_ff.Store.Sync.{resource_freshness}
use sleeper_ff.Scheduler.Calendar.{CalendarEnv}
use sleeper_ff.Scheduler.Week.{SyncTarget, resolve_sync_target, league_is_historical}
use sleeper_ff.Scheduler.Queue.{SyncJob}

pub record WorkerOptions : Type 0 where
  pub concurrency : ℕ
  pub sweep_interval_ms : ℕ
  pub jitter_ms : ℕ
  pub base_retry_ms : ℕ
  pub max_retry_ms : ℕ
  pub lease_ttl_ms : ℕ
  pub demo : Bool
  pub env : CalendarEnv

-- What a caller gives of the options that have a bound.
pub record GivenOptions : Type 0 where
  pub concurrency : Option ℕ
  pub sweep_interval_ms : Option ℕ
  pub jitter_ms : Option ℕ
  pub base_retry_ms : Option ℕ
  pub max_retry_ms : Option ℕ
  pub lease_ttl_ms : Option ℕ

-- The constructor's defaults and bounds.
unfoldable pub worker_options : GivenOptions → Bool → CalendarEnv → WorkerOptions
worker_options given demo env = record {
  concurrency = max 1 (or_else given.concurrency 3);
  sweep_interval_ms = max 60000 (or_else given.sweep_interval_ms (30 * 60000));
  jitter_ms = or_else given.jitter_ms 20000;
  base_retry_ms = max 1000 (or_else given.base_retry_ms 60000);
  max_retry_ms = max 1000 (or_else given.max_retry_ms (60 * 60000));
  lease_ttl_ms = max 1000 (or_else given.lease_ttl_ms (10 * 60000));
  demo = demo;
  env = env;
}

abbrev pub sweep_lease_key : String
sweep_lease_key = "league-sync:sweep"

abbrev pub league_lease_key : String → String
league_lease_key league_id = concat "league-sync:league:" league_id

-- Why a league is or is not synchronized.
pub data Eligibility : Type 0 where
  archived_league demo_disabled awaiting_retry historical due : Eligibility

abbrev awaits : Option Stamp → Stamp → Bool
awaits none now = false
awaits (some at) now = ltb now at

unfoldable pub eligibility : WorkerOptions → Stamp → StoreShape → LeagueConnection → Eligibility
eligibility o now s c =
    if not (is_active c.status)
    then archived_league
    else if c.demo && not o.demo
    then demo_disabled
    else if awaits c.next_attempt_at now
    then awaiting_retry
    else if league_is_historical (lookup c.league_id s.leagues) now o.env
    then historical
    else due

-- How `syncLeague` ends: with the resources that it refreshed, with an error of the Sleeper client,
-- or with another.
pub data Outcome : Type 0 where
  synced : List String → Outcome
  sleeper_error : String → Option ℕ → Outcome
  other_error : Outcome

abbrev category_of : Outcome → String
category_of (sleeper_error category retry_after) = category
category_of _ = "internal"

abbrev pub retry_after_of : Outcome → Option ℕ
retry_after_of (sleeper_error category retry_after) = retry_after
retry_after_of _ = none

-- `min(maxRetryMs, guided ?? baseRetryMs * 2 ** (failures - 1)) + jitter`, where `before` is the
-- number of failures before this one. The bound takes over long before a double is inexact.
unfoldable pub retry_delay : WorkerOptions → Option ℕ → ℕ → ℕ → ℕ
retry_delay o guided before jitter =
    min o.max_retry_ms (or_else guided (o.base_retry_ms * 2 ^ before)) + jitter

-- The instants at which an attempt reads the clock, and the random offset of its next one.
pub record Moments : Type 0 where
  pub acquired : Stamp
  pub started : Stamp
  pub written : Stamp
  pub finished : Stamp
  pub jitter : ℕ

pub data JobResult : Type 0 where
  -- the league's lease is held by another worker
  lease_held : JobResult
  ended : SyncStatus → Stamp → JobResult

-- The last decimal digit of a number, and a year as the text that `season` reads.
abbrev digit : ℕ → String
digit n =
    let d = n % 10 in
    if d == 0
    then "0"
    else if d == 1
    then "1"
    else if d == 2
    then "2"
    else if d == 3
    then "3"
    else if d == 4
    then "4"
    else if d == 5
    then "5"
    else if d == 6
    then "6"
    else if d == 7
    then "7"
    else if d == 8
    then "8"
    else "9"

unfoldable pub season_text : ℕ → String
season_text year =
    concat (digit (year / 1000))
      (concat (digit (year / 100)) (concat (digit (year / 10)) (digit year)))

abbrev failures_of : Option LeagueConnection → ℕ
failures_of none = 0
failures_of (some c) = c.consecutive_failures

abbrev pub status_of : Outcome → SyncStatus
status_of (synced refreshed) = success
status_of _ = failed

-- What `recordLeagueSyncAttempt` is told. `connection` was read before the attempt, `freshness` after.
unfoldable pub attempt_of :
    WorkerOptions
    → Moments
    → SyncTarget
    → ℕ
    → Option LeagueConnection
    → Assoc Stamp
    → Outcome
    → SyncAttempt
unfolding season_text
attempt_of o m target week connection freshness (synced refreshed) = record {
  status = success;
  at = m.finished;
  duration_ms = m.finished - m.started;
  category = none;
  refreshed = some refreshed;
  season = some (season_text target.season);
  week = some week;
  resource_freshness = some freshness;
  next_attempt_at = some (m.finished + o.sweep_interval_ms + m.jitter);
  consecutive_failures = some 0;
}
attempt_of o m target week connection freshness out = record {
  status = failed;
  at = m.finished;
  duration_ms = m.finished - m.started;
  category = some (category_of out);
  refreshed = none;
  season = some (season_text target.season);
  week = some week;
  resource_freshness = some freshness;
  next_attempt_at =
      some (m.finished + retry_delay o (retry_after_of out) (failures_of connection) m.jitter);
  consecutive_failures = some (failures_of connection + 1);
}

-- `syncLeague(leagueId, week, force)` is an interface to the worker: it ends in one way or another,
-- with what it has written.
abbrev pub Synchronizer : Type 0
Synchronizer = String → ℕ → Bool → StoreShape → Outcome × StoreShape

module _ (o : WorkerOptions) (owner : String) (sync : Synchronizer) (m : Moments)
    (job : SyncJob) where
  -- The attempt, once the league's lease is `handle`.
  unfoldable pub attempt_with : LeaseHandle → StoreShape → JobResult × StoreShape
  unfolding attempt_of
  attempt_with handle s =
      let connection = league_connection job.league_id s in
      let league = lookup job.league_id s.leagues in
      let target = resolve_sync_target league connection m.started o.env in
      let week = or_else job.week target.week in
      let s₁ =
        update_league_connection job.league_id (season_text target.season) week m.written s in
      let ran = sync job.league_id week job.force s₁ in
      let out = ran.0 in
      let s₂ = ran.1 in
      let a = attempt_of o m target week connection (resource_freshness job.league_id s₂) out in
      let s₃ = record_league_sync_attempt job.league_id a s₂ in
      (ended a.status (or_else a.next_attempt_at m.finished), release handle s₃)

  abbrev pub attempt_if : Option LeaseHandle → StoreShape → JobResult × StoreShape
  attempt_if none s = (lease_held, s)
  attempt_if (some handle) s = attempt_with handle s

  -- `attempt`
  unfoldable pub attempt : StoreShape → JobResult × StoreShape
  unfolding attempt_with
  attempt s =
      let taken = acquire owner (league_lease_key job.league_id) o.lease_ttl_ms m.acquired s in
      attempt_if taken.0 taken.1
