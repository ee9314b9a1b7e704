-- ===== src/Examples/Syncing.antt =====
-- The scheduler on concrete leagues.
use sleeper_ff.Prelude.{
  String, List, ◌+◌, ◌≤◌, ◌≡◌, refl, true, false, none, some, [], ◌∷◌, includes, arith, ◌∙◌, str_eq,
}
use sleeper_ff.Prelude.Assoc.{lookup, insert, remove}
use sleeper_ff.Records.{LeagueConnection, League, SyncLease, failed}
use sleeper_ff.Store.{StoreShape, empty_store}
use sleeper_ff.Store.Leases.{acquire, acquire_lease, release_lease}
use sleeper_ff.Store.Connections.{new_connection, league_connections_of, league_connection}
use sleeper_ff.Scheduler.Calendar.{CalendarEnv, current_nfl_week}
use sleeper_ff.Scheduler.Week.{
  resolve_sync_target, resolve_sync_target-bounds, first_week, final_week, target_for,
}
use sleeper_ff.Scheduler.Retention.{
  apply_retention, apply_retention-pruned, default_retention, garbage_of,
}
use sleeper_ff.Scheduler.Queue.{
  Pool, SyncJob, EnqueueOptions, empty_pool, enqueue, settle, resume, workers, leave, pump, without,
}
use sleeper_ff.Scheduler.Queue.Pooling.{
  IsPool, here, next, enqueues, settles, resumes, Reach-IsPool, enqueue-busy,
}
use sleeper_ff.Scheduler.Worker.{
  WorkerOptions, Moments, Synchronizer, other_error, attempt, attempt_with, attempt_of, retry_delay,
  worker_options, ended,
}
use sleeper_ff.Scheduler.Worker.Attempting.{attempt-releases}
use sleeper_ff.Scheduler.Worker.Failing.{attempt-failed, IsKept, documented_delay}
use sleeper_ff.Store.Leases.Handles.{acquire_lease-other, release_lease-other}

abbrev of_2025 : CalendarEnv
of_2025 = record { season = some 2025; week_one = some 0 }

abbrev league_2024 : League
league_2024 = record {
  id = "l";
  season = "2024";
  status = "complete";
  scoring = none;
  settings_leg = some 17;
  synchronized_at = 0;
  body = "";
}

resolve_sync_target-bounds_example :
    (first_week ≤ (resolve_sync_target (some league_2024) none 5 of_2025).week)
    × ((resolve_sync_target (some league_2024) none 5 of_2025).week ≤ final_week)
resolve_sync_target-bounds_example = resolve_sync_target-bounds (some league_2024) none 5 of_2025

abbrev connection : LeagueConnection
connection = new_connection "l" false true none 5

abbrev connected : StoreShape
connected = record empty_store {
  leagues = ("l", league_2024) ∷ [];
  league_connections = ("l", connection) ∷ [];
}

apply_retention-pruned_example :
    includes "l" (apply_retention default_retention 5 of_2025 connected).pruned
    ≡ garbage_of default_retention 5 "l" (league_connections_of connected)
apply_retention-pruned_example = apply_retention-pruned default_retention 5 of_2025 connected "l"

abbrev plain : EnqueueOptions
plain = record { reason = none; force = false; week = none }

-- Two leagues with one worker: the second waits until the first has settled.
abbrev two_queued : Pool
two_queued = enqueue 1 "m" plain 6 (enqueue 1 "l" plain 5 empty_pool)

Reach-IsPool_example : IsPool 1 (resume (settle "l" two_queued))
Reach-IsPool_example = Reach-IsPool 1 (
    next
      (next
        (next (next here (enqueues empty_pool "l" plain 5))
          (enqueues (enqueue 1 "l" plain 5 empty_pool) "m" plain 6))
        (settles two_queued "l"))
      (resumes (settle "l" two_queued)))

abbrev one_queued : Pool
one_queued = enqueue 1 "l" plain 5 empty_pool

enqueue-busy_example : workers (enqueue 1 "m" plain 6 one_queued) ≡ 1
unfolding enqueue pump lookup insert
enqueue-busy_example =
    enqueue-busy 1 "m" plain 6 (next here (enqueues empty_pool "l" plain 5)) refl (omega arith)

-- A league that is enqueued while the only worker has returned and is still held waits with no worker.
stranded : leave (enqueue 1 "m" plain 6 (resume (settle "l" one_queued))) ≡ record {
  jobs =
      (
        "m",
        record { league_id = "m"; reason = "manual"; force = false; week = none; queued_at = 6 },
      )
      ∷ [];
  queue = "m" ∷ [];
  running = [];
  idle = 0;
  leaving = 0;
}
unfolding enqueue pump lookup insert remove settle without resume leave
stranded = refl

abbrev options : WorkerOptions
options =
    worker_options
      (record {
        concurrency = none;
        sweep_interval_ms = none;
        jitter_ms = none;
        base_retry_ms = none;
        max_retry_ms = none;
        lease_ttl_ms = none;
      })
      false of_2025

-- A synchronizer that fails and writes nothing
abbrev failing : Synchronizer
failing id week force s = (other_error, s)

abbrev moments : Moments
moments = record { acquired = 10; started = 11; written = 12; finished = 20; jitter = 7 }

abbrev job : SyncJob
job = record { league_id = "l"; reason = "manual"; force = false; week = none; queued_at = 9 }

abbrev foreign : SyncLease
foreign = record { key = "league-sync:league:l"; owner = "b"; acquired_at = 0; expires_at = 99 }

abbrev leased : StoreShape
leased = record connected { leases = ("league-sync:league:l", foreign) ∷ [] }

fails : (attempt options "a" failing moments job connected).0 ≡ ended failed 60027
unfolding attempt acquire acquire_lease attempt_with attempt_of retry_delay lookup insert
    resolve_sync_target target_for current_nfl_week worker_options
fails = refl

-- A synchronizer that takes the lease of its own run, fails, and gives that back
abbrev own_key : String
own_key = "league-sync:publish:l"

abbrev leasing : Synchronizer
leasing id week force s =
    (other_error, release_lease own_key "w" (acquire_lease own_key "w" 600000 13 s).1)

leaves_lease :
    (key : String) (s : StoreShape)
    → str_eq own_key key ≡ false
    → lookup key (release_lease own_key "w" (acquire_lease own_key "w" 600000 13 s).1).leases
      ≡ lookup key s.leases
leaves_lease key s other =
    release_lease-other own_key "w" (acquire_lease own_key "w" 600000 13 s).1 key other
    ∙ acquire_lease-other own_key "w" 600000 13 s key other

leasing_fails : (attempt options "a" leasing moments job connected).0 ≡ ended failed 60027
unfolding attempt acquire acquire_lease release_lease attempt_with attempt_of retry_delay lookup
    insert remove resolve_sync_target target_for current_nfl_week worker_options
leasing_fails = refl

attempt-releases_example :
    lookup "league-sync:league:l" (attempt options "a" leasing moments job connected).1.leases
    ≡ none
attempt-releases_example =
    attempt-releases options "a" leasing moments job connected
      (λ week force t. leaves_lease "league-sync:league:l" t refl) leasing_fails

attempt-failed_example :
    IsKept connection 60027
      (league_connection "l" (attempt options "a" failing moments job connected).1)
    × (60027 ≡ 20 + (documented_delay options none 0 + 7))
unfolding lookup
attempt-failed_example =
    attempt-failed options "a" failing moments job connection (λ id week force t. refl) other_error
      (λ id week force t. refl) tt connected refl fails

abbrev no_jobs : List String → StoreShape → StoreShape
no_jobs ids s = s

abbrev foreign_sweep : SyncLease
foreign_sweep = record { key = "league-sync:sweep"; owner = "b"; acquired_at = 0; expires_at = 99 }

abbrev swept_by_b : StoreShape
swept_by_b = record connected { leases = ("league-sync:sweep", foreign_sweep) ∷ [] }
