-- ===== src/Store/Runs.antt =====
-- The synchronization log of store.ts: `recordSyncRun`, `syncRuns` and `pruneSyncRuns`, on the list that
-- the document keeps, the newest run first.
use sleeper_ff.Prelude.{
  ℕ, ◌+◌, ◌≡◌, refl, String, Bool, true, false, not, ◌&&◌, Option, none, some, List, [], ◌∷◌, arith,
  str_eq, ltb, if◌then◌else◌, or_else, length, keep, take,
}
use sleeper_ff.Prelude.Assoc.{Assoc, lookup, insert}
use sleeper_ff.Records.{Stamp, SyncStatus, success, failed}

pub data RunKind : Type 0 where
  league players forecast : RunKind

pub record SyncRunRecord : Type 0 where
  pub id : String
  pub league_id : Option String
  pub kind : RunKind
  pub status : SyncStatus
  pub category : Option String
  pub season : Option String
  pub week : Option ℕ
  pub started_at : Stamp
  pub finished_at : Stamp
  pub duration_ms : ℕ
  pub refreshed : Option (List String)
  pub next_attempt_at : Option Stamp
  pub worker_id : Option String

-- `recordSyncRun`: the log holds `limit` runs.
unfoldable pub record_sync_run : ℕ → SyncRunRecord → List SyncRunRecord → List SyncRunRecord
record_sync_run limit run log = take limit (run ∷ log)

-- `recordSync`, whose id is `leagueId:syncedAt`, given as a text
unfoldable pub record_sync :
    ℕ
    → String
    → String
    → SyncStatus
    → Stamp
    → ℕ
    → Option String
    → List SyncRunRecord
    → List SyncRunRecord
unfolding record_sync_run
record_sync limit id league_id status synced_at duration_ms category log =
    record_sync_run limit
      (record {
        id = id;
        league_id = some league_id;
        kind = league;
        status = status;
        category = category;
        season = none;
        week = none;
        started_at = synced_at;
        finished_at = synced_at + duration_ms;
        duration_ms = duration_ms;
        refreshed = none;
        next_attempt_at = none;
        worker_id = none;
      })
      log

pub record SyncRunQuery : Type 0 where
  pub league_id : Option String
  pub kind : Option RunKind
  pub status : Option SyncStatus
  pub limit : Option ℕ

abbrev kind_text : RunKind → String
kind_text league = "league"
kind_text players = "players"
kind_text forecast = "forecast"

abbrev same_kind : Option RunKind → RunKind → Bool
same_kind none k = true
same_kind (some q) k = str_eq (kind_text q) (kind_text k)

abbrev same_status : Option SyncStatus → SyncStatus → Bool
same_status none s = true
same_status (some success) success = true
same_status (some failed) failed = true
same_status (some success) failed = false
same_status (some failed) success = false

abbrev same_league : Option String → Option String → Bool
same_league none l = true
same_league (some q) none = false
same_league (some q) (some l) = str_eq q l

abbrev limited : Option ℕ → List SyncRunRecord → List SyncRunRecord
limited none runs = runs
limited (some n) runs = take n runs

-- `syncRuns`
unfoldable pub sync_runs : SyncRunQuery → List SyncRunRecord → List SyncRunRecord
sync_runs q log = limited q.limit (
    keep
      (λ (r : SyncRunRecord).
        same_league q.league_id r.league_id
        && (same_kind q.kind r.kind && same_status q.status r.status))
      log)

-- `entry.leagueId ?? entry.kind`
abbrev pub rank_key : SyncRunRecord → String
rank_key r = or_else r.league_id (kind_text r.kind)

-- The loop of `pruneSyncRuns` with its filter: a run goes if enough newer ones of its league are there
-- and it is older than the cutoff.
unfoldable pub prune_from : Stamp → ℕ → Assoc ℕ → List SyncRunRecord → ℕ × List SyncRunRecord
prune_from before keep_each ranks [] = (0, [])
prune_from before keep_each ranks (r ∷ log) =
    let rank = or_else (lookup (rank_key r) ranks) 0 + 1 in
    let (removed, rest) = prune_from before keep_each (insert (rank_key r) rank ranks) log in
    if ltb keep_each rank && ltb r.started_at before
    then (removed + 1, rest)
    else (removed, r ∷ rest)

-- `pruneSyncRuns`
unfoldable pub prune_sync_runs : Stamp → ℕ → List SyncRunRecord → ℕ × List SyncRunRecord
unfolding prune_from
prune_sync_runs before keep_each log = prune_from before keep_each [] log

prune_from-length :
    (before : Stamp) (keep_each : ℕ) (ranks : Assoc ℕ) (log : List SyncRunRecord)
    → (prune_from before keep_each ranks log).0 + length (prune_from before keep_each ranks log).1
      ≡ length log
unfolding prune_from
prune_from-length before keep_each ranks [] = refl
prune_from-length before keep_each ranks (r ∷ log) = ground (
  arith,
  prune_from-length before keep_each
      (insert (rank_key r) (or_else (lookup (rank_key r) ranks) 0 + 1) ranks) log,
)

abbrev pub is_recent : Stamp → SyncRunRecord → Bool
is_recent before r = not (ltb r.started_at before)

prune_from-recent :
    (before : Stamp) (keep_each : ℕ) (ranks : Assoc ℕ) (log : List SyncRunRecord)
    → keep (is_recent before) (prune_from before keep_each ranks log).1
      ≡ keep (is_recent before) log
unfolding prune_from
prune_from-recent before keep_each ranks [] = refl
prune_from-recent before keep_each ranks (r ∷ log) = ground (
  arith,
  prune_from-recent before keep_each
      (insert (rank_key r) (or_else (lookup (rank_key r) ranks) 0 + 1) ranks) log,
)

-- Pruning the log keeps every run that is not older than the cutoff, in its place, and it reports as
-- removed exactly as many runs as the log is shorter by.
pub prune_sync_runs-recent :
    (before : Stamp) (keep_each : ℕ) (log : List SyncRunRecord)
    → (keep (is_recent before) (prune_sync_runs before keep_each log).1
        ≡ keep (is_recent before) log)
      × ((prune_sync_runs before keep_each log).0 + length (prune_sync_runs before keep_each log).1
          ≡ length log)
unfolding prune_sync_runs
prune_sync_runs-recent before keep_each log =
    (prune_from-recent before keep_each [] log, prune_from-length before keep_each [] log)
