-- ===== src/Store/Contexts.antt =====
-- What store.ts reads for the engines: each context is taken from one reading of the document, so it
-- is a function of one `StoreShape`.
use sleeper_ff.Prelude.{
  ℕ, ◌+◌, ◌*◌, String, Bool, false, ◌&&◌, ◌||◌, Option, none, some, List, str_eq, leb, ◌==◌,
  if◌then◌else◌, keep, any, includes,
}
use sleeper_ff.Prelude.Assoc.{Assoc, lookup, values}
use sleeper_ff.Prelude.Text.{colon}
use sleeper_ff.Records.{
  Stamp, League, Roster, NflPlayer, User, Matchup, Transaction, TradedDraftPick,
}
use sleeper_ff.Store.{StoreShape}
use sleeper_ff.Store.Sync.{resource_freshness}

-- `league`, `rosters`, `allPlayers`, `allLeagues`, `resourceSyncedAt`
unfoldable pub league : String → StoreShape → Option League
league id s = lookup id s.leagues

unfoldable pub rosters : String → StoreShape → List Roster
rosters league_id s = keep (λ (r : Roster). str_eq r.league_id league_id) (values s.rosters)

unfoldable pub all_players : StoreShape → List NflPlayer
all_players s = values s.players

unfoldable pub all_leagues : StoreShape → List League
all_leagues s = values s.leagues

unfoldable pub resource_synced_at : String → StoreShape → Option Stamp
resource_synced_at key s = lookup key s.freshness

abbrev is_owner : String → Option String → Bool
is_owner id none = false
is_owner id (some owner) = str_eq owner id

-- Whether a user owns, alone or with others, one of the rosters.
unfoldable pub owns_one : String → List Roster → Bool
owns_one id rs = any (λ (r : Roster). is_owner id r.owner_id || includes id r.co_owner_ids) rs

-- `pickAge >= -5 min && pickAge <= 10 min`, without a subtraction
abbrev is_fresh_pick : Stamp → Option Stamp → Bool
is_fresh_pick now none = false
is_fresh_pick now (some at) = leb at (now + 5 * 60000) && leb now (at + 10 * 60000)

-- The traded picks of a league, where they were synchronized within the last ten minutes.
unfoldable pub traded_picks : String → Stamp → StoreShape → Option (List TradedDraftPick)
traded_picks league_id now s =
    if is_fresh_pick now (lookup (colon "draftPicks" league_id) s.freshness)
    then some (keep (λ (p : TradedDraftPick). str_eq p.league_id league_id) (values s.draft_picks))
    else none

abbrev same_season : String → Option League → Bool
same_season season none = false
same_season season (some l) = str_eq season l.season

abbrev of_week : String → ℕ → (Matchup → Bool) → StoreShape → List Matchup
of_week league_id week is_season s =
    keep (λ (m : Matchup). (str_eq m.league_id league_id && is_season m) && (m.week == week))
      (values s.matchups)

pub record DashboardContext : Type 0 where
  pub league : Option League
  pub rosters : List Roster
  pub players : List NflPlayer
  pub users : List User
  pub matchups : List Matchup
  pub transactions : List Transaction
  pub traded_picks : Option (List TradedDraftPick)
  pub freshness : Assoc Stamp

-- `dashboardContext`
unfoldable pub dashboard_context : String → ℕ → Stamp → StoreShape → DashboardContext
dashboard_context league_id week now s =
    let found = lookup league_id s.leagues in
    let own = rosters league_id s in
    record {
      league = found;
      rosters = own;
      players = values s.players;
      users = keep (λ (u : User). owns_one u.id own) (values s.users);
      matchups = of_week league_id week (λ m. same_season m.season found) s;
      transactions =
          keep (λ (t : Transaction). str_eq t.league_id league_id && (t.week == week))
            (values s.transactions);
      traded_picks = traded_picks league_id now s;
      freshness = resource_freshness league_id s;
    }

pub record WaiverContext : Type 0 where
  pub league : Option League
  pub rosters : List Roster
  pub players : List NflPlayer

-- `waiverContext`
unfoldable pub waiver_context : String → StoreShape → WaiverContext
waiver_context league_id s = record {
  league = lookup league_id s.leagues;
  rosters = rosters league_id s;
  players = values s.players;
}

pub record LineupContext : Type 0 where
  pub league : Option League
  pub rosters : List Roster
  pub players : List NflPlayer
  pub users : List User
  pub matchups : List Matchup

-- `lineupContext`
unfoldable pub lineup_context : String → String → ℕ → StoreShape → LineupContext
lineup_context league_id season week s = record {
  league = lookup league_id s.leagues;
  rosters = rosters league_id s;
  players = values s.players;
  users = values s.users;
  matchups = of_week league_id week (λ m. str_eq m.season season) s;
}

pub record TradeContext : Type 0 where
  pub league : Option League
  pub rosters : List Roster
  pub players : List NflPlayer
  pub users : List User
  pub traded_picks : Option (List TradedDraftPick)

-- `tradeContext`
unfoldable pub trade_context : String → Stamp → StoreShape → TradeContext
trade_context league_id now s = record {
  league = lookup league_id s.leagues;
  rosters = rosters league_id s;
  players = values s.players;
  users = values s.users;
  traded_picks = traded_picks league_id now s;
}
