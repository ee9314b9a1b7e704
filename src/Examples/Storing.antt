-- ===== src/Examples/Storing.antt =====
-- Leases, synchronization writes and league connections on concrete stores.
use sleeper_ff.Prelude.{
  ◌≡◌, ◌≢◌, refl, arith, String, true, false, none, some, [], ◌∷◌, any, includes, str_eq, eq_iff, ℕ,
}
use sleeper_ff.Prelude.Assoc.{lookup, insert, remove_if, upsert}
use sleeper_ff.Records.{
  ApplicationUser, LeagueConnection, LeaseGuard, SyncWrite, SyncLease, TradedDraftPick, Roster,
  Matchup, Transaction, SyncAttempt, ScoringConfiguration, failed,
}
use sleeper_ff.Store.{StoreShape, empty_store}
use sleeper_ff.Store.Leases.{acquire_lease}
use sleeper_ff.Store.Leases.Exclusion.{
  World, here, next, acquire, start, after_acquire, mutual_exclusion,
}
use sleeper_ff.Store.Connections.{
  new_connection, reconcile_league_connections, linked_league_ids, record_league_sync_attempt,
  attempted,
}
use sleeper_ff.Store.Connections.Reconciling.{reconcile_exact, linked_at}
use sleeper_ff.Store.Connections.Attempts.{failures_keep_progress, IsStillAt}
use sleeper_ff.Store.Sync.{apply_sync, publish, write_league}
use sleeper_ff.Store.Sync.Publishing.{stale_writer_refused, publish_replaces_picks}
use sleeper_ff.Store.Sync.Histories.{publish_again}
use sleeper_ff.Store.Sync.Pruning.{
  prune_league_removes, prune_league_keeps, pruned, holdings, no_holdings,
}

-- One owner takes the lease `k`, and another asks for it in vain.
abbrev asked : World
asked = after_acquire "b" "k" 10 (after_acquire "a" "k" 10 start)

mutual_exclusion_example : ◌≡◌ {A = String} "a" "a"
unfolding acquire_lease lookup insert
mutual_exclusion_example =
    mutual_exclusion {w = asked} "k" "a" "a" 10 10
      (next (next here (acquire start "a" "k" 10))
        (acquire (after_acquire "a" "k" 10 start) "b" "k" 10))
      refl (omega arith) refl (omega arith)

abbrev guard : LeaseGuard
guard = record { key = "k"; owner = "a"; now = 0 }

abbrev no_write : SyncWrite
no_write = record {
  lease_guard = some guard;
  league = none;
  users = none;
  players = none;
  rosters = none;
  matchups = none;
  transactions = none;
  draft_picks = none;
  replace_draft_picks_for_league = none;
  weekly_snapshot = none;
  freshness = none;
  roster_observations = none;
}

abbrev held_by_b : SyncLease
held_by_b = record { key = "k"; owner = "b"; acquired_at = 5; expires_at = 15 }

abbrev taken_by_b : StoreShape
taken_by_b = record empty_store { leases = ("k", held_by_b) ∷ [] }

abbrev no_id : ScoringConfiguration → String
no_id c = "id"

taken : acquire_lease "k" "b" 10 5 empty_store ≡ (some held_by_b, taken_by_b)
unfolding acquire_lease lookup insert
taken = refl

stale_writer_refused_example : apply_sync no_id no_write taken_by_b ≡ none
stale_writer_refused_example =
    stale_writer_refused no_id no_write guard empty_store taken_by_b "b" 10 5 refl taken
      (λ e. ground (arith, eq_iff "a" "b"))

abbrev pick : String → String → TradedDraftPick
pick id league = record { id = id; league_id = league; body = "" }

abbrev picks : SyncWrite
picks = record no_write {
  draft_picks = some (pick "p" "l" ∷ []);
  replace_draft_picks_for_league = some "l";
}

abbrev two_leagues : StoreShape
two_leagues = record empty_store { draft_picks = ("o", pick "o" "l") ∷ ("q", pick "q" "m") ∷ [] }

stored : lookup "p" (publish no_id picks two_leagues).draft_picks ≡ some (pick "p" "l")
unfolding publish write_league lookup remove_if upsert insert
stored = refl

l_blank : ◌≢◌ {A = String} "l" ""
l_blank e = ground (arith, eq_iff "l" "")

publish_replaces_picks_example :
    any (λ (v : TradedDraftPick). str_eq v.id "p") (pick "p" "l" ∷ []) ≡ true
publish_replaces_picks_example =
    publish_replaces_picks no_id picks two_leagues "l" "p" (pick "p" "l" ∷ []) (pick "p" "l") refl
      l_blank refl stored refl

abbrev observations : SyncWrite
observations = record no_write {
  roster_observations = some (
      record {
        id = "x";
        league_id = "l";
        roster_id = 1;
        season = "2025";
        week = 1;
        observed_at = 5;
        body = "";
      }
      ∷ []);
}

publish_again_example :
    ((publish no_id observations (publish no_id observations empty_store)).roster_history
      ≡ (publish no_id observations empty_store).roster_history)
    × ((publish no_id observations (publish no_id observations empty_store)).weekly_snapshots
        ≡ (publish no_id observations empty_store).weekly_snapshots)
publish_again_example = publish_again no_id observations empty_store

abbrev roster : Roster
roster = record { id = "r"; league_id = "m"; owner_id = none; co_owner_ids = []; body = "" }

abbrev matchup : Matchup
matchup = record { id = "x"; league_id = "m"; season = "2025"; week = 1; body = "" }

abbrev transaction : Transaction
transaction = record { id = "t"; league_id = "m"; week = 1; body = "" }

abbrev filled : StoreShape
filled = record empty_store {
  rosters = ("r", roster) ∷ ("s", record roster { league_id = "l" }) ∷ [];
  matchups = ("x", matchup) ∷ [];
  transactions = ("t", transaction) ∷ [];
}

prune_league_removes_example :
    (lookup "l" (pruned "l" filled).leagues ≡ none)
    × (lookup "l" (pruned "l" filled).league_connections ≡ none)
    × (lookup "l" (pruned "l" filled).snapshots ≡ none)
    × (lookup "l" (pruned "l" filled).scoring_snapshots ≡ none)
    × (holdings "l" (pruned "l" filled) ≡ no_holdings)
prune_league_removes_example = prune_league_removes "l" filled

l_m : ◌≢◌ {A = String} "l" "m"
l_m e = ground (arith, eq_iff "l" "m")

prune_league_keeps_example :
    (lookup "m" (pruned "l" filled).leagues ≡ lookup "m" filled.leagues)
    × (lookup "m" (pruned "l" filled).league_connections ≡ lookup "m" filled.league_connections)
    × (lookup "m" (pruned "l" filled).snapshots ≡ lookup "m" filled.snapshots)
    × (lookup "m" (pruned "l" filled).scoring_snapshots ≡ lookup "m" filled.scoring_snapshots)
    × (holdings "m" (pruned "l" filled) ≡ holdings "m" filled)
prune_league_keeps_example = prune_league_keeps "l" filled "m" l_m

abbrev user : ApplicationUser
user = record {
  id = "u";
  login = "ann";
  password_hash = "";
  sleeper_user_id = none;
  sleeper_username = none;
  sleeper_league_ids = "l" ∷ [];
  sleeper_linked_at = none;
  created_at = 0;
}

abbrev linking : StoreShape
linking = record empty_store { application_users = ("u", user) ∷ [] }

reconcile_exact_example :
    linked_at "l" (reconcile_league_connections 5 [] linking).league_connections
    ≡ includes "l" (linked_league_ids linking)
reconcile_exact_example = reconcile_exact 5 [] linking "l" tt

abbrev connection : LeagueConnection
connection = new_connection "l" false true none 5

abbrev failure : ℕ → SyncAttempt
failure n = record {
  status = failed;
  at = 9;
  duration_ms = 1;
  category = none;
  refreshed = none;
  season = none;
  week = none;
  resource_freshness = none;
  next_attempt_at = some 20;
  consecutive_failures = some n;
}

abbrev connected : StoreShape
connected = record empty_store { league_connections = ("l", connection) ∷ [] }

failures_keep_progress_example :
    IsStillAt 2 connection (attempted (failure 2) (attempted (failure 1) connection))
unfolding attempted record_league_sync_attempt lookup insert
failures_keep_progress_example =
    failures_keep_progress "l" (failure 1 ∷ failure 2 ∷ []) connected connection
      (attempted (failure 2) (attempted (failure 1) connection)) (refl, refl, (refl, refl, tt)) refl
      refl
