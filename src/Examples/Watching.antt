-- ===== src/Examples/Watching.antt =====
-- Health, alerts and shutdown on concrete inputs.
use sleeper_ff.Prelude.{◌≡◌, arith, true, false, none, some, List, [], ◌∷◌}
use sleeper_ff.Records.{LeagueConnection}
use sleeper_ff.Store.Connections.{new_connection}
use sleeper_ff.Observability.Health.{ForecastStatus}
use sleeper_ff.Observability.Health.Grading.{ready}
use sleeper_ff.Observability.Alerts.{OperationalAlert, worker_inactive, critical, Sink}
use sleeper_ff.Shutdown.{Step, run, duration, run_in_time}

abbrev synced : LeagueConnection
synced = record (new_connection "l" false true none 5) { last_synced_at = some 100 }

abbrev feed : ForecastStatus
feed = record { state = ready; has_reason = false }

abbrev alert : OperationalAlert
alert = record { id = worker_inactive; severity = critical; fired_at = 5 }

abbrev empty_sink : Sink
empty_sink = record { last_delivered = []; delivered = [] }

abbrev steps : List Step
steps =
    record { name = "http"; takes_ms = 5; throws = true }
    ∷ record { name = "store"; takes_ms = 7; throws = false }
    ∷ []

run_in_time_example :
    ((run 100 steps).finished ≡ "http" ∷ "store" ∷ []) × ((run 100 steps).code ≡ 1)
unfolding duration
run_in_time_example = run_in_time 100 steps (omega arith)
