-- ===== src/Observability/Health.antt =====
-- apps/api/src/observability/health.ts: the state of the league synchronization, the worker, the
-- scoring observations and the calls to Sleeper, and their worst. The forecast feed's own report is an
-- input.
pub mod Leagues
pub mod Grading
use sleeper_ff.Prelude.{
  ℕ, ◌+◌, ◌-◌, ◌*◌, min, max, Bool, true, false, not, Option, none, some, List, [], ◌∷◌, ltb, leb,
  ◌==◌, if◌then◌else◌, length, keep, map, includes,
}
use sleeper_ff.Prelude.Assoc.{values}
use sleeper_ff.Records.{
  Stamp, LeagueConnection, League, SyncLease, SyncStatus, failed, success, ScoringConfiguration,
  ScoringKind, unavailable as scoring_unavailable, complete_live, partial_reference,
}
use sleeper_ff.Store.{StoreShape}
use sleeper_ff.Store.Leases.{lease_at}
use sleeper_ff.Store.Connections.{active_league_connections}
use sleeper_ff.Scheduler.Worker.{sweep_lease_key}
use sleeper_ff.Observability.Health.Grading.{
  DependencyState, DependencyThresholds, degraded, ready, stale, unavailable, worst,
}
use sleeper_ff.Observability.Health.Leagues.{
  LeagueSyncStatus, is_past, is_stale, league_sync_status, observed_connections, oldest_of,
}

pub record WorkerStatus : Type 0 where
  pub state : DependencyState
  pub heartbeat_at : Option Stamp
  pub age_ms : Option ℕ
  pub held : Bool

abbrev pub worker_of : DependencyThresholds → Stamp → Option SyncLease → WorkerStatus
worker_of t now none = record {
  state = unavailable;
  heartbeat_at = none;
  age_ms = none;
  held = false;
}
worker_of t now (some lease) =
    let expired = ltb lease.expires_at now in
    record {
      state =
          if is_past now t.worker_heartbeat_ms lease.acquired_at
          then unavailable
          else if expired
          then degraded
          else ready;
      heartbeat_at = some lease.acquired_at;
      age_ms = some (now - lease.acquired_at);
      held = not expired;
    }

-- `workerStatus`, with the age in milliseconds
unfoldable pub worker_status : DependencyThresholds → Stamp → StoreShape → WorkerStatus
worker_status t now s = worker_of t now (lease_at sweep_lease_key s)

-- `sleeperStatus` of the two counters: at least half of the calls failed, or at least a tenth.
unfoldable pub sleeper_state : ℕ → ℕ → DependencyState
sleeper_state calls failures =
    if calls == 0
    then ready
    else if leb calls (2 * failures)
    then unavailable
    else if leb calls (10 * failures)
    then degraded
    else ready

pub record ScoringStatus : Type 0 where
  pub state : DependencyState
  pub leagues : ℕ
  pub unavailable : ℕ
  pub stale : ℕ
  pub oldest_observed_at : Option Stamp

pub record ScoringTally : Type 0 where
  pub unavailable : ℕ
  pub stale : ℕ
  pub oldest : Option Stamp

abbrev is_unavailable : ScoringKind → Bool
is_unavailable scoring_unavailable = true
is_unavailable complete_live = false
is_unavailable partial_reference = false

-- One turn of the loop of `scoringStatus`
abbrev pub observed :
    DependencyThresholds → Stamp → Option ScoringConfiguration → ScoringTally → ScoringTally
observed t now none k = record k { unavailable = k.unavailable + 1 }
observed t now (some scoring) k =
    if is_unavailable scoring.kind then record k { unavailable = k.unavailable + 1 } else record k {
      stale =
          if is_stale now t.scoring_stale_ms scoring.synchronized_at then k.stale + 1 else k.stale;
      oldest = oldest_of k.oldest scoring.synchronized_at;
    }

unfoldable pub observe_all :
    DependencyThresholds → Stamp → List League → ScoringTally → ScoringTally
observe_all t now [] k = k
observe_all t now (l ∷ ls) k = observe_all t now ls (observed t now l.scoring k)

unfoldable pub scoring_status_of : DependencyThresholds → Stamp → List League → ScoringStatus
unfolding observe_all
scoring_status_of t now [] = record {
  state = ready;
  leagues = 0;
  unavailable = 0;
  stale = 0;
  oldest_observed_at = none;
}
scoring_status_of t now (l ∷ ls) =
    let k = observe_all t now (l ∷ ls) (record { unavailable = 0; stale = 0; oldest = none }) in
    record {
      state =
          if k.unavailable == length (l ∷ ls)
          then unavailable
          else if ltb 0 k.unavailable
          then degraded
          else if ltb 0 k.stale
          then stale
          else ready;
      leagues = length (l ∷ ls);
      unavailable = k.unavailable;
      stale = k.stale;
      oldest_observed_at = k.oldest;
    }

-- `scoringStatus`: the leagues of the active connections
unfoldable pub scoring_status : DependencyThresholds → Stamp → StoreShape → ScoringStatus
unfolding scoring_status_of
scoring_status t now s =
    let active = map (λ (c : LeagueConnection). c.league_id) (observed_connections s) in
    scoring_status_of t now (keep (λ (l : League). includes l.id active) (values s.leagues))

pub record ForecastStatus : Type 0 where
  pub state : DependencyState
  pub has_reason : Bool

pub record DependencyStatus : Type 0 where
  pub scoring : ScoringStatus
  pub forecast : ForecastStatus
  pub league_sync : LeagueSyncStatus
  pub worker : WorkerStatus
  pub sleeper : DependencyState
  pub state : DependencyState

-- `dependencyStatus`, without the gauges that it sets
unfoldable pub dependency_status :
    DependencyThresholds → Stamp → ForecastStatus → ℕ → ℕ → StoreShape → DependencyStatus
unfolding worst league_sync_status scoring_status worker_status sleeper_state
dependency_status t now forecast calls failures s =
    let scoring = scoring_status t now s in
    let sync = league_sync_status t now s in
    let worker = worker_status t now s in
    let sleeper = sleeper_state calls failures in
    record {
      scoring = scoring;
      forecast = forecast;
      league_sync = sync;
      worker = worker;
      sleeper = sleeper;
      state = worst (scoring.state ∷ forecast.state ∷ sync.state ∷ worker.state ∷ sleeper ∷ []);
    }
