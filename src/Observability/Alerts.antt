-- ===== src/Observability/Alerts.antt =====
-- apps/api/src/observability/alerts.ts: which alerts a status fires, their deduplication, and the
-- counters of a window. The texts and details of an alert are left out.
use sleeper_ff.Prelude.{
  ℕ, ◌+◌, ◌-◌, ◌*◌, String, Bool, true, false, ◌&&◌, Option, none, some, List, [], ◌∷◌, ◌++◌, ltb,
  leb, ◌==◌, if◌then◌else◌,
}
use sleeper_ff.Prelude.Assoc.{Assoc, lookup, insert, remove}
use sleeper_ff.Prelude.Text.{colon}
use sleeper_ff.Records.{Stamp}
use sleeper_ff.Observability.Health.{DependencyStatus}
use sleeper_ff.Observability.Health.Grading.{
  DependencyThresholds, DependencyState, degraded, stale, unavailable, rank,
}

pub data AlertSeverity : Type 0 where
  warning critical : AlertSeverity

pub data AlertId : Type 0 where
  stale_scoring stale_projections repeated_sync_failures worker_inactive elevated_5xx
        storage_failures :
      AlertId

pub record OperationalAlert : Type 0 where
  pub id : AlertId
  pub severity : AlertSeverity
  pub fired_at : Stamp

pub record TrafficDelta : Type 0 where
  pub requests : ℕ
  pub server_errors : ℕ
  pub storage_failures : ℕ

-- The rate of server errors that is too high is five in a hundred, `maxServerErrorRate`.
pub record AlertThresholds : Type 0 where
  pub dependency : DependencyThresholds
  pub max_server_error_percent : ℕ
  pub min_requests_for_rate : ℕ
  pub max_storage_failures : ℕ

abbrev when : Bool → AlertId → AlertSeverity → Stamp → List OperationalAlert
when b id severity at =
    if b then record { id = id; severity = severity; fired_at = at } ∷ [] else []

abbrev pub is_state : DependencyState → DependencyState → Bool
is_state a b = rank a == rank b

abbrev graded : Bool → AlertSeverity
graded b = if b then critical else warning

-- `evaluate`: the six conditions, in the order of the code
unfoldable pub evaluate :
    DependencyStatus → TrafficDelta → AlertThresholds → Stamp → List OperationalAlert
evaluate s traffic t at =
    (if ltb 0 s.scoring.unavailable
      then when true stale_scoring (graded (s.scoring.unavailable == s.scoring.leagues)) at
      else when (ltb 0 s.scoring.stale) stale_scoring warning at)
    ++ (if is_state s.forecast.state stale
        then when true stale_projections critical at
        else when (is_state s.forecast.state degraded && s.forecast.has_reason) stale_projections
            warning at)
    ++ (if is_state s.league_sync.state unavailable
        then when true repeated_sync_failures critical at
        else if ltb 0 s.league_sync.stale_leagues
        then when true repeated_sync_failures warning at
        else when (leb t.dependency.failure_streak s.league_sync.worst_failure_streak)
            repeated_sync_failures warning at)
    ++ when (is_state s.worker.state unavailable) worker_inactive critical at
    ++ when
        (leb t.min_requests_for_rate traffic.requests
          && ltb (t.max_server_error_percent * traffic.requests) (100 * traffic.server_errors))
        elevated_5xx (graded (ltb traffic.requests (4 * traffic.server_errors))) at
    ++ when (ltb t.max_storage_failures traffic.storage_failures) storage_failures critical at

abbrev pub id_text : AlertId → String
id_text stale_scoring = "stale-scoring"
id_text stale_projections = "stale-projections"
id_text repeated_sync_failures = "repeated-sync-failures"
id_text worker_inactive = "worker-inactive"
id_text elevated_5xx = "elevated-5xx"
id_text storage_failures = "storage-failures"

abbrev pub severity_text : AlertSeverity → String
severity_text warning = "warning"
severity_text critical = "critical"

abbrev pub alert_key : OperationalAlert → String
alert_key a = colon (id_text a.id) (severity_text a.severity)

-- `DeduplicatingSink`: when each key was last delivered, and what the inner sink was given.
pub record Sink : Type 0 where
  pub last_delivered : Assoc Stamp
  pub delivered : List OperationalAlert

abbrev pub is_repeat : ℕ → Stamp → Option Stamp → Bool
is_repeat repeat_after_ms at none = false
is_repeat repeat_after_ms at (some previous) = ltb at (previous + repeat_after_ms)

-- `deliver`
unfoldable pub deliver : ℕ → Stamp → OperationalAlert → Sink → Sink
deliver repeat_after_ms at a sink =
    if is_repeat repeat_after_ms at (lookup (alert_key a) sink.last_delivered)
    then sink
    else record {
      last_delivered = insert (alert_key a) at sink.last_delivered;
      delivered = a ∷ sink.delivered;
    }

-- `clear`: the two keys of the alert
unfoldable pub clear : AlertId → Sink → Sink
clear id sink = record sink {
  last_delivered =
      remove (colon (id_text id) "critical")
        (remove (colon (id_text id) "warning") sink.last_delivered);
}

-- `TrafficWindow.read`, of the counters now and at the last reading
unfoldable pub read_window : TrafficDelta → TrafficDelta → TrafficDelta
read_window previous current = record {
  requests = current.requests - previous.requests;
  server_errors = current.server_errors - previous.server_errors;
  storage_failures = current.storage_failures - previous.storage_failures;
}
