-- ===== src/Store/Connections.antt =====
-- The connected leagues of store.ts: connecting, archiving, reconciling with the accounts, recording
-- an attempt, and removing a league's data.
pub mod Reconciling
pub mod Attempts
use mathlib.Core.List.{flat_map}
use sleeper_ff.Prelude.{
  ℕ, ◌+◌, ◌-◌, String, Bool, true, false, not, ◌&&◌, Option, none, some, List, [], ◌∷◌, str_eq,
  if◌then◌else◌, or_else, or_option, is_some, length, keep, includes, any, map, ◌==◌,
}
use sleeper_ff.Prelude.Assoc.{Assoc, lookup, insert, remove, remove_if, map_values, values}
use sleeper_ff.Prelude.Text.{split}
use sleeper_ff.Records.{
  Stamp, ApplicationUser, LeagueConnection, ConnectionStatus, active, archived, SyncAttempt,
  SyncStatus, success, failed, League, StoredSyncRun, WeeklySnapshot, RosterObservation,
  RecommendationRecord, RecommendationOutcome, Roster, Matchup, Transaction, TradedDraftPick,
}
use sleeper_ff.Store.{StoreShape}

abbrev pub is_active : ConnectionStatus → Bool
is_active active = true
is_active archived = false

abbrev pub is_failed : SyncStatus → Bool
is_failed failed = true
is_failed success = false

-- A connection as it is first stored.
abbrev pub new_connection : String → Bool → Bool → Option String → Stamp → LeagueConnection
new_connection league_id demo linked season at = record {
  league_id = league_id;
  demo = demo;
  status = active;
  linked = linked;
  season = season;
  week = none;
  created_at = at;
  updated_at = at;
  archived_at = none;
  archived_reason = none;
  last_attempted_at = none;
  last_synced_at = none;
  last_status = none;
  last_category = none;
  last_duration_ms = none;
  last_refreshed = none;
  resource_freshness = none;
  consecutive_failures = 0;
  next_attempt_at = none;
}

-- `connection.status === 'archived' && connection.archivedReason === 'unlinked'`
abbrev pub is_revivable : LeagueConnection → Bool
is_revivable c =
    not (is_active c.status)
    && elim c.archived_reason [ none ↦ false | some reason ↦ str_eq reason "unlinked" ]

abbrev revived : LeagueConnection → LeagueConnection
revived c = record c { status = active; archived_at = none; archived_reason = none }

-- A season that is given, and not as the empty text, or the one held
abbrev pub given_or : Option String → Option String → Option String
given_or none held = held
given_or (some season) held = if str_eq season "" then held else some season

pub record ConnectOptions : Type 0 where
  pub demo : Option Bool
  pub season : Option String
  pub week : Option ℕ

unfoldable existing_or_new : String → Stamp → Option LeagueConnection → LeagueConnection
existing_or_new league_id at none = revived (new_connection league_id false true none at)
existing_or_new league_id at (some c) =
    let linked : LeagueConnection = record c { linked = true; updated_at = at } in
    if is_revivable linked then revived linked else linked

-- `connectLeague`
unfoldable pub connect_league :
    String → ConnectOptions → Stamp → StoreShape → LeagueConnection × StoreShape
unfolding existing_or_new
connect_league league_id o at s =
    let c = existing_or_new league_id at (lookup league_id s.league_connections) in
    let connection : LeagueConnection = record c {
      demo = or_else o.demo c.demo;
      season = given_or o.season c.season;
      week = or_option o.week c.week;
    } in
    (connection, record s { league_connections = insert league_id connection s.league_connections })

abbrev change_connection : String → (LeagueConnection → LeagueConnection) → StoreShape → StoreShape
change_connection league_id f s = elim (lookup league_id s.league_connections) [
  | none ↦ s
  | some c ↦ record s { league_connections = insert league_id (f c) s.league_connections }
]

-- `updateLeagueConnection` with the patch `{ season, week }`, the one that its caller passes.
unfoldable pub update_league_connection : String → String → ℕ → Stamp → StoreShape → StoreShape
update_league_connection league_id season week at s =
    change_connection league_id
      (λ c. record c { season = some season; week = some week; updated_at = at }) s

abbrev pub archived_for : String → Stamp → LeagueConnection → LeagueConnection
archived_for reason at c = record c {
  status = archived;
  archived_at = some at;
  archived_reason = some reason;
  updated_at = at;
  next_attempt_at = none;
}

-- `archiveLeagueConnection`
unfoldable pub archive_league_connection : String → String → Stamp → StoreShape → StoreShape
archive_league_connection league_id reason at s =
    change_connection league_id (λ c. if is_active c.status then archived_for reason at c else c) s

-- `[...new Set(ids)]`
unfoldable pub unique : List String → List String → List String
unique seen [] = []
unique seen (x ∷ xs) = if includes x seen then unique seen xs else x ∷ unique (x ∷ seen) xs

-- `linkedLeagueIds`
unfoldable pub linked_league_ids : StoreShape → List String
unfolding unique
linked_league_ids s =
    unique []
      (flat_map (λ (u : ApplicationUser). u.sleeper_league_ids) (values s.application_users))

abbrev pub season_of : Option League → Option String
season_of none = none
season_of (some league) = some league.season

abbrev pub relinked : Bool → Stamp → LeagueConnection → LeagueConnection
relinked demo at c =
    let linked : LeagueConnection = record c { linked = true; demo = demo; updated_at = at } in
    if is_revivable c then revived linked else linked

-- One round of the loop over the linked leagues.
unfoldable pub link_one :
    Stamp → List String → Assoc League → String → Assoc LeagueConnection → Assoc LeagueConnection
link_one at demo_ids leagues league_id cs =
    let demo = includes league_id demo_ids in
    elim (lookup league_id cs) [
      | none ↦
          insert league_id
            (new_connection league_id demo true (season_of (lookup league_id leagues)) at) cs
      | some c ↦ insert league_id (relinked demo at c) cs
    ]

unfoldable pub link_all :
    Stamp
    → List String
    → Assoc League
    → List String
    → Assoc LeagueConnection
    → Assoc LeagueConnection
link_all at demo_ids leagues [] cs = cs
link_all at demo_ids leagues (id ∷ ids) cs =
    link_all at demo_ids leagues ids (link_one at demo_ids leagues id cs)

unfoldable pub unlinked : Stamp → List String → LeagueConnection → LeagueConnection
unlinked at linked c =
    if includes c.league_id linked
    then c
    else (let off : LeagueConnection = record c { linked = false; updated_at = at } in
        if is_active c.status
        then record off {
          status = archived;
          archived_at = some at;
          archived_reason = some "unlinked";
          next_attempt_at = none;
        }
        else off)

-- `reconcileLeagueConnections`
unfoldable pub reconcile_league_connections : Stamp → List String → StoreShape → StoreShape
unfolding link_one link_all unlinked
reconcile_league_connections at demo_ids s =
    let linked = linked_league_ids s in
    record s {
      league_connections =
          map_values (unlinked at linked)
            (link_all at demo_ids s.leagues linked s.league_connections);
    }

-- `leagueConnections`, `leagueConnection`, `activeLeagueConnections`
abbrev pub league_connections_of : StoreShape → List LeagueConnection
league_connections_of s = values s.league_connections

abbrev pub league_connection : String → StoreShape → Option LeagueConnection
league_connection league_id s = lookup league_id s.league_connections

unfoldable pub active_league_connections : StoreShape → List LeagueConnection
active_league_connections s = keep (λ c. is_active c.status) (league_connections_of s)

-- What `attempt` says of a connection. A failure leaves `last_synced_at` and `last_refreshed` alone.
unfoldable pub attempted : SyncAttempt → LeagueConnection → LeagueConnection
attempted a c = record c {
  updated_at = a.at;
  last_attempted_at = some a.at;
  last_status = some a.status;
  last_duration_ms = some a.duration_ms;
  last_category = if is_failed a.status then some (or_else a.category "internal") else none;
  next_attempt_at = a.next_attempt_at;
  consecutive_failures =
      or_else a.consecutive_failures (if is_failed a.status then c.consecutive_failures + 1 else 0);
  season = given_or a.season c.season;
  week = or_option a.week c.week;
  resource_freshness = or_option a.resource_freshness c.resource_freshness;
  last_synced_at = if is_failed a.status then c.last_synced_at else some a.at;
  last_refreshed = if is_failed a.status then c.last_refreshed else some (or_else a.refreshed []);
}

-- `recordLeagueSyncAttempt`
unfoldable pub record_league_sync_attempt : String → SyncAttempt → StoreShape → StoreShape
unfolding attempted
record_league_sync_attempt league_id a s =
    let c =
      or_else (lookup league_id s.league_connections)
        (new_connection league_id false false none a.at) in
    record s { league_connections = insert league_id (attempted a c) s.league_connections }
