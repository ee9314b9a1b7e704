-- ===== src/Examples/Refreshing.antt =====
-- The player directory and one league's synchronization on concrete inputs.
use sleeper_ff.Prelude.{
  ◌≡◌, refl, arith, String, Bool, true, false, Option, none, some, List, [], ◌∷◌, ◌*◌,
}
use sleeper_ff.Prelude.Assoc.{lookup}
use sleeper_ff.Records.{
  Stamp, ScoringConfiguration, unavailable, Roster, Matchup, League, LeaseGuard,
}
use sleeper_ff.Store.{StoreShape, empty_store}
use sleeper_ff.Store.Leases.{acquire_lease}
use sleeper_ff.Store.Directory.{player_metadata_of}
use sleeper_ff.SleeperClient.{SleeperApiError, Outcome, returned, threw, server}
use sleeper_ff.Players.{start_refresh, start_under_lease, skipped, perform_refresh, store_answer}
use sleeper_ff.Players.Normalizing.{RawDirectory}
use sleeper_ff.Players.Refreshing.{refresh_cooldown}
use sleeper_ff.Players.Keeping.{refresh_failure_keeps}
use sleeper_ff.LeagueSync.{perform, after_league}
use sleeper_ff.LeagueSync.Requests.{
  publish_key, Job, Upstream, Keys, Fetched, SyncResult, Failure, api, keys_of, fetch_all, is_stale,
}
use sleeper_ff.LeagueSync.Fetching.{fetch_all_stale, IsFetched}
use sleeper_ff.LeagueSync.Atomic.{Same, failed_run_keeps}

abbrev down : SleeperApiError
down = record { status = 503; category = server; retryable = true; retry_after_ms = some 60000 }

abbrev no_players : Outcome RawDirectory
no_players = threw down

abbrev untouched : StoreShape → StoreShape
untouched s = s

refresh_cooldown_example :
    (start_refresh 1000 "b" (start_refresh 0 "a" empty_store).1
      ≡ (skipped, (start_refresh 0 "a" empty_store).1))
    × (start_refresh 1000 "b" (perform_refresh 0 "a" no_players untouched empty_store).1
        ≡ (skipped, (perform_refresh 0 "a" no_players untouched empty_store).1))
unfolding start_refresh start_under_lease acquire_lease player_metadata_of lookup
refresh_cooldown_example =
    refresh_cooldown 0 1000 "a" "b" no_players untouched empty_store {previous = none} refl
      (omega arith)

refresh_failure_keeps_example :
    ((perform_refresh 0 "a" no_players untouched empty_store).1.players ≡ empty_store.players)
    × ((perform_refresh 0 "a" no_players untouched empty_store).1.freshness ≡ empty_store.freshness)
unfolding start_refresh start_under_lease acquire_lease player_metadata_of lookup perform_refresh
    store_answer
refresh_failure_keeps_example =
    refresh_failure_keeps 0 "a" no_players untouched empty_store (λ x. (refl, refl)) refl

abbrev snapshot_id : ScoringConfiguration → String
snapshot_id scoring = scoring.body

abbrev snapshot_body : List Roster → List Matchup → String
snapshot_body rosters matchups = ""

abbrev unavailable_body : Option ScoringConfiguration → Stamp → String
unavailable_body scoring at = ""

abbrev report : Option Failure → String
report failure = ""

abbrev no_scoring : ScoringConfiguration
no_scoring = record { kind = unavailable; synchronized_at = none; body = "" }

abbrev quiet : StoreShape → Bool × StoreShape
quiet s = (false, s)

abbrev job : Job
job = record { league_id = "l"; run_id = "l:t"; week_text = "3"; at_text = "t"; force = false }

abbrev found : League
found = record {
  id = "l";
  season = "2025";
  status = "in_season";
  scoring = none;
  settings_leg = some 3;
  synchronized_at = 100;
  body = "";
}

abbrev answers : Upstream
answers = record {
  league = returned found;
  users = returned [];
  rosters = returned [];
  matchups = returned [];
  transactions = returned [];
  draft_picks = returned [];
  arrived = λ names. names;
}

abbrev without_rosters : Upstream
without_rosters = record answers { rosters = threw down }

abbrev guard : LeaseGuard
guard = record { key = publish_key "l"; owner = "a"; now = 200 }

-- The lease is held, and the users were synchronized just now.
abbrev held : StoreShape
held = record empty_store {
  leases =
      (
        publish_key "l",
        record { key = publish_key "l"; owner = "a"; acquired_at = 0; expires_at = 600000 },
      )
      ∷ [];
  freshness = ("users:l", 90) ∷ [];
}

abbrev keys : Keys
keys = keys_of "l" "2025" "3"

abbrev fetched : Fetched
fetched = record {
  users = none;
  rosters = some [];
  matchups = some [];
  transactions = some [];
  draft_picks = some [];
  names = "rosters" ∷ "matchups" ∷ "transactions" ∷ "draftPicks" ∷ [];
}

fetch_all_stale_example :
    IsFetched false (6 * 60 * 60000) 100 (some 90) answers.users fetched.users
    × IsFetched false (5 * 60000) 100 none answers.rosters fetched.rosters
    × IsFetched false (2 * 60000) 100 none answers.matchups fetched.matchups
    × IsFetched false (2 * 60000) 100 none answers.transactions fetched.transactions
    × IsFetched false (5 * 60000) 100 none answers.draft_picks fetched.draft_picks
unfolding fetch_all is_stale lookup
fetch_all_stale_example = fetch_all_stale keys 100 false answers held {f = fetched} refl

failed_run_keeps_example :
    Same "rosters:l"
      (perform snapshot_id snapshot_body unavailable_body report no_scoring quiet job 100 guard
        without_rosters held).1
      held
unfolding perform after_league fetch_all is_stale lookup
failed_run_keeps_example =
    failed_run_keeps snapshot_id snapshot_body unavailable_body report no_scoring quiet "rosters:l"
      job 100 guard without_rosters held {failure = api down}
      (λ x. (refl, refl, refl, refl, refl, refl, refl)) refl

abbrev result : SyncResult
result = record {
  league_id = "l";
  synchronized_at = 100;
  refreshed = "league" ∷ "rosters" ∷ "matchups" ∷ "transactions" ∷ "draftPicks" ∷ [];
  snapshot_id = some "l:2025:3:t";
  scoring = none;
}

-- The refresh of the player directory itself, which takes its own lease and gives it back
abbrev refreshing : StoreShape → Bool × StoreShape
refreshing s = perform_refresh 100 "p" no_players untouched s
