-- ===== src/Scheduler/Worker/Failing.antt =====
-- What a failed attempt of the worker keeps of its league.
use sleeper_ff.Prelude.{
  ℕ, ◌+◌, ◌≤◌, ◌≡◌, refl, ◌∙◌, ap, String, Bool, Option, none, some, arith, or_else, min, ◌*◌, ◌^◌,
  subst, sym,
}
use sleeper_ff.Prelude.Assoc.{Assoc, lookup}
use sleeper_ff.Records.{Stamp, SyncStatus, failed, SyncAttempt, LeagueConnection}
use sleeper_ff.Store.{StoreShape}
use sleeper_ff.Store.Leases.{LeaseHandle, acquire}
use sleeper_ff.Store.Leases.Handles.{acquire-given}
use sleeper_ff.Store.Connections.{
  league_connection, update_league_connection, record_league_sync_attempt, attempted,
}
use sleeper_ff.Store.Connections.Attempts.{record-lookup, IsStillAt}
use sleeper_ff.Scheduler.Week.{SyncTarget, resolve_sync_target}
use sleeper_ff.Store.Sync.{resource_freshness}
use sleeper_ff.Scheduler.Queue.{SyncJob}
use sleeper_ff.Scheduler.Worker.{
  WorkerOptions, Moments, ended, Synchronizer, Outcome, synced, sleeper_error, other_error,
  retry_delay, attempt, attempt_of, attempt_with, attempt_if, season_text, league_lease_key,
  retry_after_of,
}
use sleeper_ff.Scheduler.Worker.Attempting.{update-lookup, release-connections}

-- What a failure leaves of the connection `c`: the record of its last success, its status and its
-- link, one more failure, and the next attempt at `at`.
abbrev pub IsKept : LeagueConnection → Stamp → Option LeagueConnection → Type 0
IsKept c at none = ⊥
IsKept c at (some d) = IsStillAt 1 c d × (d.next_attempt_at ≡ some at)

abbrev moved_to : String → ℕ → Stamp → LeagueConnection → LeagueConnection
moved_to season week at c = record c { season = some season; week = some week; updated_at = at }

-- When docs/league-sync.md has the next attempt made: upstream's guidance is honoured exactly, and only
-- without any does the delay double from the base with each failure, up to the cap.
abbrev pub documented_delay : WorkerOptions → Option ℕ → ℕ → ℕ
documented_delay o (some guided) failures = guided
documented_delay o none failures = min o.max_retry_ms (o.base_retry_ms * 2 ^ failures)

-- Guidance that the cap does not cut
abbrev pub IsWithin : ℕ → Option ℕ → Type 0
IsWithin cap none = Unit
IsWithin cap (some guided) = guided ≤ cap

retry_delay-documented :
    (o : WorkerOptions) (guided : Option ℕ) (before jitter : ℕ)
    → IsWithin o.max_retry_ms guided
    → retry_delay o guided before jitter ≡ documented_delay o guided before + jitter
unfolding retry_delay
retry_delay-documented o none before jitter within = refl
retry_delay-documented o (some guided) before jitter within = omega (arith, within)

failed-kept :
    (o : WorkerOptions) (m : Moments) (target : SyncTarget) (week : ℕ) (season : String)
    (connection : Option LeagueConnection) (c : LeagueConnection) (freshness : Assoc Stamp)
    (out : Outcome) (a : SyncAttempt)
    → connection ≡ some c
    → attempt_of o m target week connection freshness out ≡ a
    → a.status ≡ failed
    → IsWithin o.max_retry_ms (retry_after_of out)
    → IsStillAt 1 c (attempted a (moved_to season week m.written c))
      × (a.next_attempt_at ≡ some (or_else a.next_attempt_at m.finished))
      × (or_else a.next_attempt_at m.finished
          ≡ m.finished
            + (documented_delay o (retry_after_of out) c.consecutive_failures + m.jitter))
unfolding attempt_of attempted
failed-kept o m target week season connection c freshness (synced refreshed) a e₀ e f within =
    ground arith
failed-kept o m target week season connection c freshness (sleeper_error category guided) a e₀ e f
      within =
    let delay = retry_delay-documented o guided c.consecutive_failures m.jitter within in
    ground (arith, delay)
failed-kept o m target week season connection c freshness other_error a e₀ e f within =
    let delay = retry_delay-documented o none c.consecutive_failures m.jitter tt in
    ground (arith, delay)

ended-injective : {x y : SyncStatus} {i j : Stamp} → ended x i ≡ ended y j → (x ≡ y) × (i ≡ j)
ended-injective e = (cc, cc)

module _ (o : WorkerOptions) (owner : String) (sync : Synchronizer) (m : Moments) (job : SyncJob)
    (c : LeagueConnection)
    (keeps : (id : String) (week : ℕ) (force : Bool) (t : StoreShape)
      → (sync id week force t).1.league_connections ≡ t.league_connections)
    (out : Outcome)
    (ends : (id : String) (week : ℕ) (force : Bool) (t : StoreShape)
      → (sync id week force t).0 ≡ out)
    (within : IsWithin o.max_retry_ms (retry_after_of out)) where
  -- The instant of the next attempt
  abbrev next_at : Stamp
  next_at = m.finished + (documented_delay o (retry_after_of out) c.consecutive_failures + m.jitter)

  attempt_with-failed :
      (h : LeaseHandle) (t : StoreShape) {at : Stamp}
      → league_connection job.league_id t ≡ some c
      → (attempt_with o owner sync m job h t).0 ≡ ended failed at
      → IsKept c at (league_connection job.league_id (attempt_with o owner sync m job h t).1)
        × (at ≡ next_at)
  unfolding attempt_with attempted
  attempt_with-failed h t {at} e f =
      let connection = league_connection job.league_id t in
      let target =
        resolve_sync_target (lookup job.league_id t.leagues) connection m.started o.env in
      let week = or_else job.week target.week in
      let season = season_text target.season in
      let s₁ = update_league_connection job.league_id season week m.written t in
      let ran = sync job.league_id week job.force s₁ in
      let fresh = resource_freshness job.league_id ran.1 in
      let a = attempt_of o m target week connection fresh ran.0 in
      let before : league_connection job.league_id ran.1 ≡ some (moved_to season week m.written c) =
        ap (lookup job.league_id) (keeps job.league_id week job.force s₁)
        ∙ update-lookup job.league_id season week m.written t c e in
      let stored = record-lookup job.league_id a ran.1 (moved_to season week m.written c) before in
      let freed =
        ap (lookup job.league_id)
          (release-connections h (record_league_sync_attempt job.league_id a ran.1)) in
      let (fell, next) = ended-injective f in
      let bounded =
        subst (λ x. IsWithin o.max_retry_ms (retry_after_of x))
          (sym (ends job.league_id week job.force s₁)) within in
      let kept =
        failed-kept o m target week season connection c fresh ran.0 a e refl fell bounded in
      let documented =
        kept.2
        ∙ ap
            (λ x.
              m.finished
              + (documented_delay o (retry_after_of x) c.consecutive_failures + m.jitter))
            (ends job.league_id week job.force s₁) in
      rw (freed ∙ stored, ← next) ((kept.0, kept.1), documented)

  attempt_if-failed :
      (found : Option LeaseHandle) (t : StoreShape) {at : Stamp}
      → ((h : LeaseHandle) → found ≡ some h → league_connection job.league_id t ≡ some c)
      → (attempt_if o owner sync m job found t).0 ≡ ended failed at
      → IsKept c at (league_connection job.league_id (attempt_if o owner sync m job found t).1)
        × (at ≡ next_at)
  attempt_if-failed none t facts f = cc
  attempt_if-failed (some h) t facts f = attempt_with-failed h t (facts h refl) f

  -- A failed attempt at a connected league keeps the record of the last success, the status and the
  -- link of its connection, and counts one more failure. However the synchronizer ends, with guidance
  -- that the cap does not cut or with none, the next attempt is set for exactly the guided delay after
  -- the end, or without guidance the base delay doubled for each failure before, up to the cap, the
  -- random offset added. This holds where the synchronizer leaves the
  -- connections alone.
  pub attempt-failed :
      (s : StoreShape) {at : Stamp}
      → league_connection job.league_id s ≡ some c
      → (attempt o owner sync m job s).0 ≡ ended failed at
      → IsKept c at (league_connection job.league_id (attempt o owner sync m job s).1)
        × (at ≡ next_at)
  unfolding attempt
  attempt-failed s e f =
      let key = league_lease_key job.league_id in
      let taken = acquire owner key o.lease_ttl_ms m.acquired s in
      attempt_if-failed taken.0 taken.1
        (λ h found.
          ap (lookup job.league_id) (acquire-given owner key o.lease_ttl_ms m.acquired s h found).3
          ∙ e)
        f
