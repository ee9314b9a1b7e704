-- ===== src/Scheduler/Sweep.antt =====
-- `performSweep` of apps/api/src/scheduler/worker.ts: one pass over every connected league, under the
-- lease of the sweep. The jobs that it queues are the queue's to run: what they leave of the store is
-- a parameter, and a job writes no other league, so the decisions are taken before them here.
use sleeper_ff.Prelude.{
  ℕ, ◌+◌, ◌<◌, ◌≡◌, refl, ◌≢◌, String, Bool, true, false, ◌&&◌, Option, none, some, List, [], ◌∷◌,
  arith, str_eq, length, includes, any, if◌then◌else◌,
}
use sleeper_ff.Prelude.Assoc.{lookup}
use sleeper_ff.Records.{Stamp, LeagueConnection, SyncLease}
use sleeper_ff.Store.{StoreShape}
use sleeper_ff.Store.Leases.{LeaseHandle, acquire, release}
use sleeper_ff.Store.Leases.Handles.{acquire-held}
use sleeper_ff.Store.Connections.{reconcile_league_connections, active_league_connections}
use sleeper_ff.Scheduler.Retention.{RetentionPolicy, apply_retention}
use sleeper_ff.Scheduler.Worker.{
  WorkerOptions, Eligibility, due, archived_league, demo_disabled, awaiting_retry, historical,
  eligibility, sweep_lease_key,
}

pub record SweepReport : Type 0 where
  pub at : Stamp
  pub reason : String
  pub considered : ℕ
  pub queued : List String
  pub skipped : List (String × Eligibility)
  pub archived : List String
  pub pruned : List String
  pub ran_sweep : Bool

abbrev pub is_due : Eligibility → Bool
is_due due = true
is_due archived_league = false
is_due demo_disabled = false
is_due awaiting_retry = false
is_due historical = false

module _ (o : WorkerOptions) (now : Stamp) (s : StoreShape) where
  -- The loop over the connections: which leagues are queued, and which are skipped and why.
  unfoldable pub queued_of : List LeagueConnection → List String
  queued_of [] = []
  queued_of (c ∷ cs) =
      if is_due (eligibility o now s c) then c.league_id ∷ queued_of cs else queued_of cs

  unfoldable pub skipped_of : List LeagueConnection → List (String × Eligibility)
  skipped_of [] = []
  skipped_of (c ∷ cs) =
      let e = eligibility o now s c in
      if is_due e then skipped_of cs else (c.league_id, e) ∷ skipped_of cs

  -- A league is queued exactly where a connection of it is due.
  pub includes-queued_of :
      (id : String) (cs : List LeagueConnection)
      → includes id (queued_of cs)
        ≡ any (λ c. str_eq c.league_id id && is_due (eligibility o now s c)) cs
  unfolding queued_of
  includes-queued_of id [] = refl
  includes-queued_of id (c ∷ cs) = ground (arith, includes-queued_of id cs)

  -- Every considered league is either queued or skipped.
  pub length-queued_of :
      (cs : List LeagueConnection) → length (queued_of cs) + length (skipped_of cs) ≡ length cs
  unfolding queued_of skipped_of
  length-queued_of [] = refl
  length-queued_of (c ∷ cs) = ground (arith, length-queued_of cs)

module _ (o : WorkerOptions) (policy : RetentionPolicy) (owner reason : String)
    (demo_ids : List String) (run_jobs : List String → StoreShape → StoreShape) (now : Stamp) where
  abbrev pub empty_report : SweepReport
  empty_report = record {
    at = now;
    reason = reason;
    considered = 0;
    queued = [];
    skipped = [];
    archived = [];
    pruned = [];
    ran_sweep = false;
  }

  unfoldable pub sweep_with : LeaseHandle → StoreShape → SweepReport × StoreShape
  unfolding queued_of skipped_of
  sweep_with handle s =
      let kept = apply_retention policy now o.env (reconcile_league_connections now demo_ids s) in
      let connections = active_league_connections kept.store in
      let queued = queued_of o now kept.store connections in
      (
        record {
          at = now;
          reason = reason;
          considered = length connections;
          queued = queued;
          skipped = skipped_of o now kept.store connections;
          archived = kept.archived;
          pruned = kept.pruned;
          ran_sweep = true;
        },
        release handle (run_jobs queued kept.store),
      )

  abbrev pub sweep_if : Option LeaseHandle → StoreShape → SweepReport × StoreShape
  sweep_if none s = (empty_report, s)
  sweep_if (some handle) s = sweep_with handle s

  -- `performSweep`
  unfoldable pub perform_sweep : StoreShape → SweepReport × StoreShape
  unfolding sweep_with
  perform_sweep s =
      let taken = acquire owner sweep_lease_key o.lease_ttl_ms now s in sweep_if taken.0 taken.1

  -- A sweep whose lease another worker holds does nothing: the store stays as it is, no league is
  -- queued, archived or pruned, and the report says that it did not run.
  pub perform_sweep-held :
      (s : StoreShape) (lease : SyncLease)
      → lookup sweep_lease_key s.leases ≡ some lease
      → now < lease.expires_at
      → lease.owner ≢ owner
      → perform_sweep s ≡ (empty_report, s)
  unfolding perform_sweep
  perform_sweep-held s lease e live other =
      rw (acquire-held owner sweep_lease_key o.lease_ttl_ms now s lease e live other) refl

  considered_if :
      (found : Option LeaseHandle) (t : StoreShape)
      → length (sweep_if found t).0.queued + length (sweep_if found t).0.skipped
        ≡ (sweep_if found t).0.considered
  unfolding sweep_with
  considered_if none t = refl
  considered_if (some handle) t =
      let kept = apply_retention policy now o.env (reconcile_league_connections now demo_ids t) in
      length-queued_of o now kept.store (active_league_connections kept.store)

  -- A sweep accounts for every league that it considered: each was queued or skipped.
  pub perform_sweep-considered :
      (s : StoreShape)
      → length (perform_sweep s).0.queued + length (perform_sweep s).0.skipped
        ≡ (perform_sweep s).0.considered
  unfolding perform_sweep
  perform_sweep-considered s =
      let taken = acquire owner sweep_lease_key o.lease_ttl_ms now s in
      considered_if taken.0 taken.1
