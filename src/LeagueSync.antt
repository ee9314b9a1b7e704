-- ===== src/LeagueSync.antt =====
-- apps/api/src/sync.ts: one league's synchronization, under its lease. What the upstream answers is
-- a parameter, already converted to the records of the store; where several requests of one
-- `Promise.all` fail, the first in order stands for the first to fail, and the refresh of the player
-- directory, a parameter, has ended by then. Metrics and log lines are not modelled.
pub mod Requests
pub mod Fetching
pub mod Writing
pub mod Publishing
pub mod Atomic
pub mod Leasing
use sleeper_ff.Prelude.{
  ℕ, ◌+◌, ◌*◌, String, Bool, true, false, not, ◌&&◌, ◌||◌, Option, none, some, List, [], ◌∷◌, ◌++◌,
  ltb, leb, str_eq, if◌then◌else◌, or_else, is_some, take,
}
use sleeper_ff.Prelude.Assoc.{Assoc, lookup}
use sleeper_ff.Prelude.Text.{colon}
use sleeper_ff.Records.{
  Stamp, League, User, Roster, Matchup, Transaction, TradedDraftPick, WeeklySnapshot, StoredSyncRun,
  SyncStatus, success, failed, ScoringConfiguration, unavailable, LeaseGuard, SyncWrite, SyncLease,
}
use sleeper_ff.Store.{StoreShape}
use sleeper_ff.Store.Contexts.{rosters, resource_synced_at}
use sleeper_ff.Store.Leases.{acquire_lease, release_lease}
use sleeper_ff.Store.Sync.{apply_sync}
use sleeper_ff.SleeperClient.{SleeperApiError, Outcome, returned, threw, timeout}
use sleeper_ff.LeagueSync.Requests.{
  Failure, Fetched, Finished, Job, Keys, SyncResult, Upstream, api, broken, done, fetch_all,
  freshness_of, internal, keys_of, refreshed_of, replaced, publish_key,
}

-- The parameters: the store's snapshot ids, the body of a weekly snapshot, and of the unavailable
-- scoring that stands in for a league's last one, what else `recordSync` writes of a run, the
-- default of `scoringUnavailable`, and the refresh of the player directory.
module _ (snapshot_id : ScoringConfiguration → String)
    (snapshot_body : List Roster → List Matchup → String)
    (unavailable_body : Option ScoringConfiguration → Stamp → String)
    (report : Option Failure → String) (no_scoring : ScoringConfiguration)
    (refresh : StoreShape → Bool × StoreShape) where
  abbrev pub weekly : String → String → StoreShape → Fetched → Option WeeklySnapshot
  weekly id league_id s f =
      if is_some f.rosters || is_some f.matchups
      then some record {
        id = id;
        league_id = league_id;
        body = snapshot_body (or_else f.rosters (rosters league_id s)) (or_else f.matchups []);
      }
      else none

  unfoldable pub write_of :
      LeaseGuard → League → Keys → String → Stamp → Fetched → StoreShape → SyncWrite
  unfolding freshness_of
  write_of guard league keys id at f s = record {
    lease_guard = some guard;
    league = some league;
    users = f.users;
    players = none;
    rosters = f.rosters;
    matchups = f.matchups;
    transactions = f.transactions;
    draft_picks = f.draft_picks;
    replace_draft_picks_for_league = replaced league.id f.draft_picks;
    weekly_snapshot = weekly id league.id s f;
    freshness = some (freshness_of keys at f);
    roster_observations = none;
  }

  abbrev pub synchronized_of : Option ScoringConfiguration → Option Stamp
  synchronized_of none = none
  synchronized_of (some scoring) = scoring.synchronized_at

  -- The last known league, its scoring marked as unavailable
  abbrev pub without_scoring : League → Stamp → League
  without_scoring league at = record league {
    scoring = some record {
      kind = unavailable;
      synchronized_at = synchronized_of league.scoring;
      body = unavailable_body league.scoring at;
    };
  }

  abbrev pub scoring_write : LeaseGuard → League → SyncWrite
  scoring_write guard league = record {
    lease_guard = some guard;
    league = some league;
    users = none;
    players = none;
    rosters = none;
    matchups = none;
    transactions = none;
    draft_picks = none;
    replace_draft_picks_for_league = none;
    weekly_snapshot = none;
    freshness = none;
    roster_observations = none;
  }

  -- `recordSync`
  abbrev pub log_sync : Job → Stamp → SyncStatus → Option Failure → StoreShape → StoreShape
  log_sync job at status failure s = record s {
    sync_log = take 100 (
        record {
          id = some job.run_id;
          league_id = some job.league_id;
          synced_at = at;
          status = status;
          body = report failure;
        }
        ∷ s.sync_log);
  }

  -- The outer `catch`
  abbrev pub fail : Job → Stamp → Failure → StoreShape → Finished × StoreShape
  fail job at failure s = (broken failure, log_sync job at failed (some failure) s)

  -- `applySync` after the failure of the league's own request; losing the lease is another failure.
  abbrev pub fail_with :
      Job → Stamp → Failure → StoreShape → Option StoreShape → Finished × StoreShape
  fail_with job at failure s none = fail job at internal s
  fail_with job at failure s (some s') = fail job at failure s'

  abbrev pub keep_league :
      Job → Stamp → LeaseGuard → Failure → StoreShape → Option League → Finished × StoreShape
  keep_league job at guard failure s none = fail job at failure s
  keep_league job at guard failure s (some previous) =
      fail_with job at failure s
        (apply_sync snapshot_id (scoring_write guard (without_scoring previous at)) s)

  abbrev pub season_id : Job → League → String
  season_id job league = colon league.id (colon league.season (colon job.week_text job.at_text))

  abbrev pub snapshot_id_of : Option WeeklySnapshot → Option String
  snapshot_id_of none = none
  snapshot_id_of (some snapshot) = some snapshot.id

  -- The authoritative write, last of all
  abbrev pub commit :
      Job
      → Stamp
      → League
      → Fetched
      → Bool
      → SyncWrite
      → StoreShape
      → Option StoreShape
      → Finished × StoreShape
  commit job at league f players w s none = fail job at internal s
  commit job at league f players w s (some s') = (
    done record {
      league_id = job.league_id;
      synchronized_at = at;
      refreshed = refreshed_of f players;
      snapshot_id = snapshot_id_of w.weekly_snapshot;
      scoring = league.scoring;
    },
    log_sync job at success none s',
  )

  abbrev pub publish :
      Job
      → Stamp
      → LeaseGuard
      → League
      → Keys
      → Bool
      → StoreShape
      → Outcome Fetched
      → Finished × StoreShape
  publish job at guard league keys players s (threw e) = fail job at (api e) s
  publish job at guard league keys players s (returned f) =
      let w = write_of guard league keys (season_id job league) at f s in
      commit job at league f players w s (apply_sync snapshot_id w s)

  abbrev pub keys_for : Job → League → Keys
  keys_for job league = keys_of job.league_id league.season job.week_text

  unfoldable pub after_league :
      Job → Stamp → LeaseGuard → Upstream → StoreShape → Outcome League → Finished × StoreShape
  after_league job at guard up s (threw e) =
      keep_league job at guard (api e) s (lookup job.league_id s.leagues)
  after_league job at guard up s (returned league) =
      let s' = refresh s in
      if not (str_eq league.id job.league_id)
      then keep_league job at guard internal s (lookup job.league_id s.leagues)
      else publish job at guard league (keys_for job league) s'.0 s'.1
          (fetch_all (keys_for job league) at job.force up s)

  -- `perform`: `at` is when it starts, `guard` names the lease and the instant at which it publishes.
  unfoldable pub perform : Job → Stamp → LeaseGuard → Upstream → StoreShape → Finished × StoreShape
  perform job at guard up s = after_league job at guard up s up.league

  -- What a caller that waited for another's run is given: that run's result, where it left one
  abbrev pub joined_result : Job → StoreShape → Option League → Option SyncResult
  joined_result job s none = none
  joined_result job s (some league) =
      if is_some (resource_synced_at (keys_for job league).matchups s)
      then some record {
        league_id = job.league_id;
        synchronized_at = league.synchronized_at;
        refreshed = [];
        snapshot_id = none;
        scoring = some (or_else league.scoring no_scoring);
      }
      else none

  abbrev pub joined_or :
      Option SyncResult → Finished × StoreShape → StoreShape → Finished × StoreShape
  joined_or none run s = run
  joined_or (some result) run s = (done result, s)

  abbrev pub under_lease :
      Job → Stamp → LeaseGuard → Bool → Upstream → StoreShape → Finished × StoreShape
  under_lease job at guard joined up s =
      let result = if joined then joined_result job s (lookup job.league_id s.leagues) else none in
      let run = joined_or result (perform job at guard up s) s in
      (run.0, release_lease (publish_key job.league_id) guard.owner run.1)

  -- `Synchronization is already in progress.`
  abbrev pub in_progress : Failure
  in_progress =
      api record { status = 503; category = timeout; retryable = true; retry_after_ms = none }

  abbrev pub with_lease :
      Job
      → Stamp
      → Stamp
      → String
      → Bool
      → Upstream
      → Option SyncLease
      → StoreShape
      → Finished × StoreShape
  with_lease job at later owner joined up none s = (broken in_progress, s)
  with_lease job at later owner joined up (some lease) s =
      under_lease job at (record { key = publish_key job.league_id; owner = owner; now = later })
        joined up s

  -- `serialized`, on the document at the last time it asks for the lease: the first, or (`joined`) a
  -- later one, at most 20 seconds after.
  unfoldable pub serialized :
      Job → Stamp → Stamp → String → Bool → Upstream → StoreShape → Finished × StoreShape
  serialized job at later owner joined up s =
      let asked = acquire_lease (publish_key job.league_id) owner (10 * 60000) at s in
      with_lease job at later owner joined up asked.0 asked.1
