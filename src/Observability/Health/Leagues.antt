-- ===== src/Observability/Health/Leagues.antt =====
-- `leagueSyncStatus` of apps/api/src/observability/health.ts. Rates are compared as the fractions that
-- they are.
use sleeper_ff.Prelude.{
  ℕ, ◌+◌, min, max, Bool, true, false, not, Option, none, some, List, [], ◌∷◌, ltb, leb, ◌==◌,
  if◌then◌else◌, length, keep,
}
use sleeper_ff.Records.{Stamp, LeagueConnection, SyncStatus, failed, success}
use sleeper_ff.Store.{StoreShape}
use sleeper_ff.Store.Connections.{active_league_connections}
use sleeper_ff.Observability.Health.Grading.{
  DependencyState, DependencyThresholds, degraded, ready, stale, unavailable,
}

pub record LeagueSyncStatus : Type 0 where
  pub state : DependencyState
  pub active_leagues : ℕ
  pub last_success_at : Option Stamp
  pub oldest_success_at : Option Stamp
  pub stale_leagues : ℕ
  pub failing_leagues : ℕ
  pub worst_failure_streak : ℕ

-- What the loop over the connections carries. An infinite `oldest` is `none`.
pub record Tally : Type 0 where
  pub newest : Stamp
  pub oldest : Option Stamp
  pub stale : ℕ
  pub failing : ℕ
  pub worst_streak : ℕ

abbrev pub earlier : Option Stamp → Stamp → Option Stamp
earlier none at = some at
earlier (some old) at = some (min old at)

-- `now - at > window`, for instants in either order
abbrev pub is_past : Stamp → ℕ → Stamp → Bool
is_past now window at = ltb (at + window) now

abbrev pub is_stale : Stamp → ℕ → Option Stamp → Bool
is_stale now window none = true
is_stale now window (some at) = is_past now window at

abbrev pub newest_of : Stamp → Option Stamp → Stamp
newest_of newest none = newest
newest_of newest (some at) = max newest at

abbrev pub oldest_of : Option Stamp → Option Stamp → Option Stamp
oldest_of oldest none = oldest
oldest_of oldest (some at) = earlier oldest at

abbrev pub has_failed : Option SyncStatus → Bool
has_failed none = false
has_failed (some failed) = true
has_failed (some success) = false

unfoldable pub tallied : DependencyThresholds → Stamp → LeagueConnection → Tally → Tally
tallied t now c k =
    let late = is_stale now t.league_stale_ms c.last_synced_at in
    record {
      newest = newest_of k.newest c.last_synced_at;
      oldest = if late then some 0 else oldest_of k.oldest c.last_synced_at;
      stale = if late then k.stale + 1 else k.stale;
      failing = if has_failed c.last_status then k.failing + 1 else k.failing;
      worst_streak = max k.worst_streak c.consecutive_failures;
    }

unfoldable pub tally : DependencyThresholds → Stamp → List LeagueConnection → Tally → Tally
unfolding tallied
tally t now [] k = k
tally t now (c ∷ cs) k = tally t now cs (tallied t now c k)

abbrev pub no_tally : Tally
no_tally = record { newest = 0; oldest = none; stale = 0; failing = 0; worst_streak = 0 }

abbrev pub positive : Option Stamp → Option Stamp
positive none = none
positive (some at) = if ltb 0 at then some at else none

abbrev pub sync_state : DependencyThresholds → ℕ → Tally → DependencyState
sync_state t active k =
    if k.stale == active
    then unavailable
    else if ltb 0 k.stale
    then stale
    else if leb t.failure_streak k.worst_streak
    then degraded
    else ready

-- `leagueSyncStatus` of the active leagues that are not the sample one
unfoldable pub sync_status_of :
    DependencyThresholds → Stamp → List LeagueConnection → LeagueSyncStatus
unfolding tally
sync_status_of t now [] = record {
  state = ready;
  active_leagues = 0;
  last_success_at = none;
  oldest_success_at = none;
  stale_leagues = 0;
  failing_leagues = 0;
  worst_failure_streak = 0;
}
sync_status_of t now (c ∷ cs) =
    let k = tally t now (c ∷ cs) no_tally in
    record {
      state = sync_state t (length (c ∷ cs)) k;
      active_leagues = length (c ∷ cs);
      last_success_at = positive (some k.newest);
      oldest_success_at = positive k.oldest;
      stale_leagues = k.stale;
      failing_leagues = k.failing;
      worst_failure_streak = k.worst_streak;
    }

abbrev pub observed_connections : StoreShape → List LeagueConnection
observed_connections s = keep (λ (c : LeagueConnection). not c.demo) (active_league_connections s)

unfoldable pub league_sync_status : DependencyThresholds → Stamp → StoreShape → LeagueSyncStatus
unfolding sync_status_of
league_sync_status t now s = sync_status_of t now (observed_connections s)
