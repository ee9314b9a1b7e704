-- ===== src/Observability/Health/Grading.antt =====
-- The states of apps/api/src/observability/health.ts, in the order of `worst`, and its thresholds.
use sleeper_ff.Prelude.{ℕ, ◌*◌, List, [], ◌∷◌, ltb, if◌then◌else◌}

pub data DependencyState : Type 0 where
  ready degraded stale unavailable : DependencyState

-- Its place in the order of `worst`, from `ready`
abbrev pub rank : DependencyState → ℕ
rank ready = 0
rank degraded = 1
rank stale = 2
rank unavailable = 3

abbrev pub worse : DependencyState → DependencyState → DependencyState
worse a b = if ltb (rank a) (rank b) then b else a

-- `worst`
unfoldable pub worst : List DependencyState → DependencyState
worst [] = ready
worst (x ∷ xs) = worse x (worst xs)

pub record DependencyThresholds : Type 0 where
  pub scoring_stale_ms : ℕ
  pub forecast_stale_ms : ℕ
  pub league_stale_ms : ℕ
  pub worker_heartbeat_ms : ℕ
  pub failure_streak : ℕ

-- `DEFAULT_THRESHOLDS`
abbrev pub default_thresholds : DependencyThresholds
default_thresholds = record {
  scoring_stale_ms = 6 * 3600000;
  forecast_stale_ms = 12 * 3600000;
  league_stale_ms = 3 * 3600000;
  worker_heartbeat_ms = 65 * 60000;
  failure_streak = 3;
}
