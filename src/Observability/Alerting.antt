-- ===== src/Observability/Alerting.antt =====
-- What the health report and the alerts promise.
use sleeper_ff.Prelude.{
  ℕ, ◌+◌, ◌≤◌, ◌≡◌, ◌↔◌, false, List, [], ◌∷◌, arith, eq_refl, ltb, if◌then◌else◌, length, keep,
  All,
}
use sleeper_ff.Prelude.Assoc.{lookup, lookup-insert}
use sleeper_ff.Records.{Stamp, LeagueConnection}
use sleeper_ff.Store.{StoreShape}
use sleeper_ff.Observability.Health.{
  scoring_status, worker_status, sleeper_state, dependency_status, ForecastStatus,
}
use sleeper_ff.Observability.Health.Leagues.{
  sync_status_of, tally, tallied, Tally, no_tally, is_stale, league_sync_status,
}
use sleeper_ff.Observability.Health.Grading.{
  DependencyState, ready, unavailable, rank, worst, DependencyThresholds,
}
use sleeper_ff.Observability.Alerts.{OperationalAlert, Sink, deliver, alert_key, is_repeat}

-- How many connections are stale.
abbrev pub stale_count : DependencyThresholds → Stamp → List LeagueConnection → ℕ
stale_count t now cs =
    length (keep (λ (c : LeagueConnection). is_stale now t.league_stale_ms c.last_synced_at) cs)

tally-stale :
    (t : DependencyThresholds) (now : Stamp) (cs : List LeagueConnection) (k : Tally)
    → (tally t now cs k).stale ≡ k.stale + stale_count t now cs
unfolding tally tallied
tally-stale t now [] k = omega arith
tally-stale t now (c ∷ cs) k = ground (arith, tally-stale t now cs (tallied t now c k))

-- None is stale where none is counted.
fresh-All :
    (t : DependencyThresholds) (now : Stamp) (cs : List LeagueConnection)
    → stale_count t now cs ≡ 0
    → All (λ (c : LeagueConnection). is_stale now t.league_stale_ms c.last_synced_at ≡ false) cs
fresh-All t now [] h = tt
fresh-All t now (c ∷ cs) h = (ground arith, fresh-All t now cs (ground arith))

-- The league synchronization is reported as ready only where each observed league synchronized
-- within the stale threshold.
pub sync_status-ready :
    (t : DependencyThresholds) (now : Stamp) (cs : List LeagueConnection)
    → (sync_status_of t now cs).state ≡ ready
    → All (λ (c : LeagueConnection). is_stale now t.league_stale_ms c.last_synced_at ≡ false) cs
unfolding sync_status_of
sync_status-ready t now [] h = tt
sync_status-ready t now (c ∷ cs) h =
    fresh-All t now (c ∷ cs) (ground (arith, tally-stale t now (c ∷ cs) no_tally))

-- With at least one observed league, the synchronization is reported as unavailable exactly where
-- every league is stale, and the number of stale leagues is the number of those that are.
pub sync_status-stale :
    (t : DependencyThresholds) (now : Stamp) (c : LeagueConnection) (cs : List LeagueConnection)
    → ((sync_status_of t now (c ∷ cs)).stale_leagues ≡ stale_count t now (c ∷ cs))
      × (((sync_status_of t now (c ∷ cs)).state ≡ unavailable)
          ↔ (stale_count t now (c ∷ cs) ≡ length (c ∷ cs)))
unfolding sync_status_of
sync_status-stale t now c cs =
    let e = tally-stale t now (c ∷ cs) no_tally in
    (omega (arith, e), ((λ h. ground (arith, e)), (λ h. ground (arith, e))))

below-All :
    (n m : ℕ) (ss : List DependencyState)
    → n ≤ m
    → All (λ s. rank s ≤ n) ss
    → All (λ s. rank s ≤ m) ss
below-All n m [] le h = tt
below-All n m (s ∷ ss) le h = (omega (arith, h.0), below-All n m ss le h.1)

worst-rank : (ss : List DependencyState) → All (λ s. rank s ≤ rank (worst ss)) ss
unfolding worst
worst-rank [] = tt
worst-rank (s ∷ ss) = (
  ground arith,
  below-All (rank (worst ss)) (rank (worst (s ∷ ss))) ss (ground arith) (worst-rank ss),
)

-- The whole is never reported as better than one of its five parts.
pub dependency_status-worst :
    (t : DependencyThresholds) (now : Stamp) (forecast : ForecastStatus) (calls failures : ℕ)
    (s : StoreShape)
    → All
        (λ p. rank p ≤ rank (dependency_status t now forecast calls failures s).state)
        ((dependency_status t now forecast calls failures s).scoring.state
          ∷ forecast.state
          ∷ (dependency_status t now forecast calls failures s).league_sync.state
          ∷ (dependency_status t now forecast calls failures s).worker.state
          ∷ (dependency_status t now forecast calls failures s).sleeper
          ∷ [])
unfolding dependency_status
dependency_status-worst t now forecast calls failures s = worst-rank (
    (scoring_status t now s).state
    ∷ forecast.state
    ∷ (league_sync_status t now s).state
    ∷ (worker_status t now s).state
    ∷ sleeper_state calls failures
    ∷ [])

-- An alert that was delivered is not delivered again within the repeat period, and delivery is
-- possible again after it.
pub deliver-repeat :
    (repeat_after at later : ℕ) (a : OperationalAlert) (sink : Sink)
    → at ≤ later
    → is_repeat repeat_after at (lookup (alert_key a) sink.last_delivered) ≡ false
    → (deliver repeat_after later a (deliver repeat_after at a sink)).delivered
      ≡ (if ltb later (at + repeat_after) then a ∷ sink.delivered else a ∷ a ∷ sink.delivered)
unfolding deliver
deliver-repeat repeat_after at later a sink le h =
    ground (
      arith,
      lookup-insert (alert_key a) (alert_key a) at sink.last_delivered,
      eq_refl (alert_key a),
    )
