-- ===== src/LeagueSync/Requests.antt =====
-- What a run of apps/api/src/sync.ts asks the upstream for: what is stale, or all of it.
use sleeper_ff.Prelude.{
  ℕ, ◌+◌, ◌*◌, String, Bool, true, false, ◌||◌, Option, none, some, List, [], ◌∷◌, ◌++◌, leb,
  if◌then◌else◌,
}
use sleeper_ff.Prelude.Assoc.{Assoc, lookup}
use sleeper_ff.Prelude.Text.{colon}
use sleeper_ff.Records.{
  Stamp, League, User, Roster, Matchup, Transaction, TradedDraftPick, ScoringConfiguration,
}
use sleeper_ff.Store.{StoreShape}
use sleeper_ff.SleeperClient.{SleeperApiError, Outcome, returned, threw}

-- `REFRESH_AFTER_MS`
abbrev pub users_ms : ℕ
users_ms = 6 * 60 * 60000

abbrev pub rosters_ms : ℕ
rosters_ms = 5 * 60000

abbrev pub matchups_ms : ℕ
matchups_ms = 2 * 60000

abbrev pub transactions_ms : ℕ
transactions_ms = 2 * 60000

abbrev pub draft_picks_ms : ℕ
draft_picks_ms = 5 * 60000

-- An error of the client, or any other
pub data Failure : Type 0 where
  api : SleeperApiError → Failure
  internal : Failure

pub record SyncResult : Type 0 where
  pub league_id : String
  pub synchronized_at : Stamp
  pub refreshed : List String
  pub snapshot_id : Option String
  pub scoring : Option ScoringConfiguration

pub data Finished : Type 0 where
  done : SyncResult → Finished
  broken : Failure → Finished

-- What the upstream answers to each of the requests, and the order in which the answers to those of the
-- `Promise.all` arrive
pub record Upstream : Type 0 where
  pub league : Outcome League
  pub users : Outcome (List User)
  pub rosters : Outcome (List Roster)
  pub matchups : Outcome (List Matchup)
  pub transactions : Outcome (List Transaction)
  pub draft_picks : Outcome (List TradedDraftPick)
  pub arrived : List String → List String

-- `stale`
unfoldable pub is_stale : Stamp → Option Stamp → ℕ → Bool → Bool
is_stale now none ttl force = true
is_stale now (some at) ttl force = force || leb (at + ttl) now

infixl 5 ◌>>=◌
abbrev pub ◌>>=◌ {ℓ κ} : {A : Type ℓ} {B : Type κ} → Outcome A → (A → Outcome B) → Outcome B
returned a >>= f = f a
threw e >>= f = threw e

-- `obtain`: nothing where the stored value is fresh
abbrev pub obtain {ℓ} : {V : Type ℓ} → Bool → Outcome V → Outcome (Option V)
obtain false answer = returned none
obtain true answer = answer >>= λ value. returned (some value)

pub record Keys : Type 0 where
  pub league : String
  pub users : String
  pub rosters : String
  pub matchups : String
  pub transactions : String
  pub draft_picks : String

-- `week` is written out in `week_text`.
abbrev pub keys_of : String → String → String → Keys
keys_of league_id season week_text = record {
  league = colon "league" league_id;
  users = colon "users" league_id;
  rosters = colon "rosters" league_id;
  matchups = colon "matchups" (colon league_id (colon season week_text));
  transactions = colon "transactions" (colon league_id (colon season week_text));
  draft_picks = colon "draftPicks" league_id;
}

-- What was fetched, and the names of that in the order of arrival
pub record Fetched : Type 0 where
  pub users : Option (List User)
  pub rosters : Option (List Roster)
  pub matchups : Option (List Matchup)
  pub transactions : Option (List Transaction)
  pub draft_picks : Option (List TradedDraftPick)
  pub names : List String

abbrev pub is_due : StoreShape → Stamp → Bool → String → ℕ → Bool
is_due s now force key ttl = is_stale now (lookup key s.freshness) ttl force

-- An entry for what was fetched
abbrev pub entry {ℓ κ} : {V : Type ℓ} {A : Type κ} → A → Option V → List A
entry a none = []
entry a (some v) = a ∷ []

abbrev pub names_of {ℓ₁ ℓ₂ ℓ₃ ℓ₄ ℓ₅} :
    {A : Type ℓ₁} {B : Type ℓ₂} {C : Type ℓ₃} {D : Type ℓ₄} {E : Type ℓ₅}
    → Option A
    → Option B
    → Option C
    → Option D
    → Option E
    → List String
names_of us rs ms ts ps =
    entry "users" us
    ++ entry "rosters" rs
    ++ entry "matchups" ms
    ++ entry "transactions" ts
    ++ entry "draftPicks" ps

-- The requests of the `Promise.all`
unfoldable pub fetch_all : Keys → Stamp → Bool → Upstream → StoreShape → Outcome Fetched
fetch_all keys now force up s = obtain (is_due s now force keys.users users_ms) up.users >>= λ us.
    obtain (is_due s now force keys.rosters rosters_ms) up.rosters >>= λ rs.
    obtain (is_due s now force keys.matchups matchups_ms) up.matchups >>= λ ms.
    obtain (is_due s now force keys.transactions transactions_ms) up.transactions >>= λ ts.
    obtain (is_due s now force keys.draft_picks draft_picks_ms) up.draft_picks >>= λ ps.
    returned record {
      users = us;
      rosters = rs;
      matchups = ms;
      transactions = ts;
      draft_picks = ps;
      names = up.arrived (names_of us rs ms ts ps);
    }

-- `write.freshness`
unfoldable pub freshness_of : Keys → Stamp → Fetched → Assoc Stamp
freshness_of keys at f =
    (keys.league, at) ∷ entry (keys.users, at) f.users
    ++ entry (keys.rosters, at) f.rosters
    ++ entry (keys.matchups, at) f.matchups
    ++ entry (keys.transactions, at) f.transactions
    ++ entry (keys.draft_picks, at) f.draft_picks

-- `refreshed`
unfoldable pub refreshed_of : Fetched → Bool → List String
refreshed_of f players = "league" ∷ f.names ++ (if players then "players" ∷ [] else [])

-- `replaceDraftPicksForLeague`
abbrev pub replaced {ℓ} : {V : Type ℓ} → String → Option V → Option String
replaced league_id none = none
replaced league_id (some picks) = some league_id

-- What one run is about: the league, the run's id, the ids and keys made of the league, the season
-- and the week, and whether everything is to be fetched
pub record Job : Type 0 where
  pub league_id : String
  pub run_id : String
  pub week_text : String
  pub at_text : String
  pub force : Bool

abbrev pub publish_key : String → String
publish_key league_id = colon "league-sync" (colon "publish" league_id)
