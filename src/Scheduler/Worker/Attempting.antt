-- ===== src/Scheduler/Worker/Attempting.antt =====
-- What one attempt of the worker at a league promises: it respects and returns the league's lease, a
-- failure keeps what was synchronized, and the next attempt is bounded.
use native.Mathlib.Nat.{pow-le-pow_right, mul-le-mul_left}
use sleeper_ff.Prelude.{
  ℕ, ◌+◌, ◌*◌, ◌^◌, ◌≤◌, ◌<◌, ◌≡◌, refl, ◌∙◌, sym, ap, ◌≢◌, min, String, Bool, Option, none, some,
  arith, eq_refl, subst,
}
use sleeper_ff.Prelude.Assoc.{lookup, lookup-insert}
use sleeper_ff.Records.{Stamp, SyncStatus, SyncLease, SyncAttempt, LeagueConnection}
use sleeper_ff.Store.{StoreShape}
use sleeper_ff.Store.Leases.{LeaseHandle, acquire, release, release_lease}
use sleeper_ff.Store.Leases.Exclusion.{owner_at}
use sleeper_ff.Store.Leases.Handles.{acquire-held, acquire-given, release-lookup}
use sleeper_ff.Store.Connections.{
  league_connection, update_league_connection, record_league_sync_attempt,
}
use sleeper_ff.Scheduler.Queue.{SyncJob}
use sleeper_ff.Scheduler.Worker.{
  WorkerOptions, Moments, ended, lease_held, Synchronizer, retry_delay, attempt, attempt_with,
  attempt_if, league_lease_key,
}

-- Without guidance from upstream, each further failure delays the next attempt at least as long, by
-- the base delay or the cap at first and never by more than the cap, the random offset apart.
pub retry_delay_lem :
    (o : WorkerOptions) (before more jitter : ℕ)
    → (min o.max_retry_ms o.base_retry_ms + jitter ≤ retry_delay o none before jitter)
      × (retry_delay o none before jitter ≤ retry_delay o none (more + before) jitter)
      × (retry_delay o none (more + before) jitter ≤ o.max_retry_ms + jitter)
unfolding retry_delay
retry_delay_lem o before more jitter =
    let two : 0 < 2 = omega arith in
    let above : before ≤ more + before = omega arith in
    let none_less : 0 ≤ before = omega arith in
    let positive : 2 ^ 0 ≤ 2 ^ before = pow-le-pow_right two none_less in
    let grows : 2 ^ before ≤ 2 ^ (more + before) = pow-le-pow_right two above in
    let first : o.base_retry_ms * 2 ^ 0 ≤ o.base_retry_ms * 2 ^ before =
      mul-le-mul_left _ positive in
    let later : o.base_retry_ms * 2 ^ before ≤ o.base_retry_ms * 2 ^ (more + before) =
      mul-le-mul_left _ grows in
    (omega (arith, first), omega (arith, later), omega arith)

-- A league whose lease another worker holds is skipped: the attempt changes nothing.
pub attempt-held :
    (o : WorkerOptions) (owner : String) (sync : Synchronizer) (m : Moments) (job : SyncJob)
    (s : StoreShape) (lease : SyncLease)
    → lookup (league_lease_key job.league_id) s.leases ≡ some lease
    → m.acquired < lease.expires_at
    → lease.owner ≢ owner
    → attempt o owner sync m job s ≡ (lease_held, s)
unfolding attempt
attempt-held o owner sync m job s lease e live other =
    rw
      (acquire-held owner (league_lease_key job.league_id) o.lease_ttl_ms m.acquired s lease e live
        other)
      refl

module _ (id season : String) (week : ℕ) (at : Stamp) (s : StoreShape) where
  pub update-leases : (update_league_connection id season week at s).leases ≡ s.leases
  unfolding update_league_connection
  update-leases = ground arith

  pub update-lookup :
      (c : LeagueConnection)
      → league_connection id s ≡ some c
      → league_connection id (update_league_connection id season week at s)
        ≡ some (record c { season = some season; week = some week; updated_at = at })
  unfolding update_league_connection
  update-lookup c e =
      let moved : LeagueConnection = record c {
        season = some season;
        week = some week;
        updated_at = at;
      } in
      ground (arith, lookup-insert id id moved s.league_connections, eq_refl id)

record-leases :
    (id : String) (a : SyncAttempt) (s : StoreShape)
    → (record_league_sync_attempt id a s).leases ≡ s.leases
unfolding record_league_sync_attempt
record-leases id a s = refl

pub release-connections :
    (h : LeaseHandle) (s : StoreShape) → (release h s).league_connections ≡ s.league_connections
unfolding release release_lease
release-connections h s = ground arith

module _ (o : WorkerOptions) (owner : String) (sync : Synchronizer) (m : Moments)
    (job : SyncJob) where
  attempt_with-releases :
      (h : LeaseHandle) (t : StoreShape)
      → ((week : ℕ) (force : Bool) (t : StoreShape)
          → lookup h.key (sync job.league_id week force t).1.leases ≡ lookup h.key t.leases)
      → owner_at (lookup h.key t.leases) ≡ some h.owner
      → lookup h.key (attempt_with o owner sync m job h t).1.leases ≡ none
  unfolding attempt_with
  attempt_with-releases h t keeps e = release-lookup h _ (
      ap owner_at (
        ap (lookup h.key) (record-leases job.league_id _ _)
        ∙ keeps _ job.force _
        ∙ ap (lookup h.key) (update-leases job.league_id _ _ m.written t))
      ∙ e)

  attempt_if-releases :
      (found : Option LeaseHandle) (t : StoreShape) (key : String) {status : SyncStatus}
      {at : Stamp}
      → ((week : ℕ) (force : Bool) (t : StoreShape)
          → lookup key (sync job.league_id week force t).1.leases ≡ lookup key t.leases)
      → ((h : LeaseHandle)
          → found ≡ some h
          → (h.key ≡ key) × (owner_at (lookup h.key t.leases) ≡ some h.owner))
      → (attempt_if o owner sync m job found t).0 ≡ ended status at
      → lookup key (attempt_if o owner sync m job found t).1.leases ≡ none
  attempt_if-releases none t key keeps facts e = cc
  attempt_if-releases (some h) t key keeps facts e =
      let same = (facts h refl).0 in
      rw (← same) (
        attempt_with-releases h t
          (λ week force u.
            subst (λ k. lookup k (sync job.league_id week force u).1.leases ≡ lookup k u.leases)
              (sym same) (keeps week force u))
          (facts h refl).1)

-- However the synchronization ends, the attempt gives the league's lease back, where the synchronizer
-- leaves the entry of that one lease alone, whatever others it takes and gives back: no attempt that ran
-- leaves its lease behind.
pub attempt-releases :
    (o : WorkerOptions) (owner : String) (sync : Synchronizer) (m : Moments) (job : SyncJob)
    (s : StoreShape) {status : SyncStatus} {at : Stamp}
    → ((week : ℕ) (force : Bool) (t : StoreShape)
        → lookup (league_lease_key job.league_id) (sync job.league_id week force t).1.leases
          ≡ lookup (league_lease_key job.league_id) t.leases)
    → (attempt o owner sync m job s).0 ≡ ended status at
    → lookup (league_lease_key job.league_id) (attempt o owner sync m job s).1.leases ≡ none
unfolding attempt
attempt-releases o owner sync m job s keeps e =
    let key = league_lease_key job.league_id in
    let taken = acquire owner key o.lease_ttl_ms m.acquired s in
    attempt_if-releases o owner sync m job taken.0 taken.1 key keeps
      (λ h found.
        let (k, w, at_key, _) = acquire-given owner key o.lease_ttl_ms m.acquired s h found in
        (k, ap (λ k'. owner_at (lookup k' taken.1.leases)) k ∙ at_key ∙ (ap some (sym w))))
      e
