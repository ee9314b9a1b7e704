-- ===== src/Scheduler/Retention.antt =====
-- `applyRetention` of apps/api/src/scheduler/worker.ts: archiving the leagues whose season is over,
-- and removing the data of archived leagues that no account links.
use sleeper_ff.Prelude.{
  ℕ, ◌+◌, ◌*◌, ◌≡◌, refl, ◌∙◌, String, Bool, true, false, not, ◌&&◌, ◌||◌, Option, none, some, List,
  [], ◌∷◌, ◌++◌, str_eq, ltb, if◌then◌else◌, or_else, any, includes, arith,
}
use sleeper_ff.Prelude.Assoc.{lookup, lookup-remove}
use sleeper_ff.Records.{Stamp, LeagueConnection}
use sleeper_ff.Store.{StoreShape}
use sleeper_ff.Store.Connections.{is_active, archive_league_connection, league_connections_of}
use sleeper_ff.Store.Sync.{prune_league}
use sleeper_ff.Scheduler.Calendar.{CalendarEnv}
use sleeper_ff.Scheduler.Week.{league_is_historical}

pub record RetentionPolicy : Type 0 where
  pub archive_after_ms : ℕ
  pub prune_after_ms : ℕ

-- `DEFAULT_RETENTION`
abbrev pub default_retention : RetentionPolicy
default_retention = record {
  archive_after_ms = 30 * 24 * 3600000;
  prune_after_ms = 180 * 24 * 3600000;
}

pub record Retained : Type 0 where
  pub store : StoreShape
  pub archived : List String
  pub pruned : List String

-- `now - since < window`, for instants in either order
abbrev within : Stamp → ℕ → Stamp → Bool
within now window since = ltb now (since + window)

abbrev within_archive : Stamp → ℕ → Option Stamp → Bool
within_archive now window none = true
within_archive now window (some since) = within now window since

module _ (policy : RetentionPolicy) (now : Stamp) (env : CalendarEnv) where
  abbrev archive : LeagueConnection → Retained → Retained
  archive c r = record r {
    store = archive_league_connection c.league_id "inactive-season" now r.store;
    archived = r.archived ++ c.league_id ∷ [];
  }

  abbrev prune : LeagueConnection → Retained → Retained
  prune c r = record r {
    store = (prune_league c.league_id r.store).1;
    pruned = r.pruned ++ c.league_id ∷ [];
  }

  -- One turn of the loop. A connection without `archivedAt` is kept, as one within the window is.
  unfoldable pub retain : LeagueConnection → Retained → Retained
  retain c r =
      if is_active c.status
      then (if not (league_is_historical (lookup c.league_id r.store.leagues) now env)
          then r
          else if within now policy.archive_after_ms (or_else c.last_synced_at c.created_at)
          then r
          else archive c r)
      else if c.linked
      then r
      else if within_archive now policy.prune_after_ms c.archived_at
      then r
      else prune c r

  unfoldable pub retain_all : List LeagueConnection → Retained → Retained
  unfolding retain
  retain_all [] r = r
  retain_all (c ∷ cs) r = retain_all cs (retain c r)

  -- `applyRetention`
  unfoldable pub apply_retention : StoreShape → Retained
  unfolding retain_all
  apply_retention s =
      retain_all (league_connections_of s) (record { store = s; archived = []; pruned = [] })

-- What pruning asks of a connection, apart from the loop: it is archived, no account links it, and
-- it was archived at least the window ago.
abbrev old_enough : RetentionPolicy → Stamp → Option Stamp → Bool
old_enough policy now none = false
old_enough policy now (some at) = not (ltb now (at + policy.prune_after_ms))

abbrev pub is_garbage : RetentionPolicy → Stamp → LeagueConnection → Bool
is_garbage policy now c =
    (not (is_active c.status) && not c.linked) && old_enough policy now c.archived_at

-- Whether a connection of the league among `cs` may be pruned.
abbrev pub garbage_of : RetentionPolicy → Stamp → String → List LeagueConnection → Bool
garbage_of policy now id cs = any (λ c. str_eq c.league_id id && is_garbage policy now c) cs

includes_end :
    (id x : String) (xs : List String)
    → includes id (xs ++ x ∷ []) ≡ (includes id xs || str_eq x id)
includes_end id x [] = ground arith
includes_end id x (y ∷ xs) = ground (arith, includes_end id x xs)

archive-leagues :
    (id reason : String) (at : Stamp) (s : StoreShape)
    → (archive_league_connection id reason at s).leagues ≡ s.leagues
unfolding archive_league_connection
archive-leagues id reason at s = ground arith

module _ (policy : RetentionPolicy) (now : Stamp) (env : CalendarEnv) where
  retain-pruned :
      (id : String) (c : LeagueConnection) (r : Retained)
      → includes id (retain policy now env c r).pruned
        ≡ (includes id r.pruned || (str_eq c.league_id id && is_garbage policy now c))
  unfolding retain
  retain-pruned id c r = ground (arith, includes_end id c.league_id r.pruned)

  retain-leagues :
      (id : String) (c : LeagueConnection) (r : Retained)
      → includes id (retain policy now env c r).pruned ≡ false
      → lookup id (retain policy now env c r).store.leagues ≡ lookup id r.store.leagues
  unfolding retain prune_league
  retain-leagues id c r h = ground (
    arith,
    includes_end id c.league_id r.pruned,
    lookup-remove c.league_id id r.store.leagues,
    archive-leagues c.league_id "inactive-season" now r.store,
  )

  retain_all-pruned :
      (id : String) (cs : List LeagueConnection) (r : Retained)
      → includes id (retain_all policy now env cs r).pruned
        ≡ (includes id r.pruned || garbage_of policy now id cs)
  unfolding retain_all
  retain_all-pruned id [] r = ground arith
  retain_all-pruned id (c ∷ cs) r =
      ground (arith, retain_all-pruned id cs (retain policy now env c r), retain-pruned id c r)

  retain_all-leagues :
      (id : String) (cs : List LeagueConnection) (r : Retained)
      → includes id (retain_all policy now env cs r).pruned ≡ false
      → lookup id (retain_all policy now env cs r).store.leagues ≡ lookup id r.store.leagues
  unfolding retain_all
  retain_all-leagues id [] r h = refl
  retain_all-leagues id (c ∷ cs) r h =
      retain_all-leagues id cs (retain policy now env c r) h
      ∙ retain-leagues id c r
          (ground (arith, retain_all-pruned id cs (retain policy now env c r), h))

  -- Retention reports as pruned exactly the leagues with a connection that is archived, linked by no
  -- account, and archived at least the retention window ago.
  pub apply_retention-pruned :
      (s : StoreShape) (id : String)
      → includes id (apply_retention policy now env s).pruned
        ≡ garbage_of policy now id (league_connections_of s)
  unfolding apply_retention
  apply_retention-pruned s id = retain_all-pruned id (league_connections_of s) _

  -- The stored data of a league that retention does not prune stays: its record is the one before.
  pub apply_retention-leagues :
      (s : StoreShape) (id : String)
      → garbage_of policy now id (league_connections_of s) ≡ false
      → lookup id (apply_retention policy now env s).store.leagues ≡ lookup id s.leagues
  unfolding apply_retention
  apply_retention-leagues s id h =
      retain_all-leagues id (league_connections_of s) _ (apply_retention-pruned s id ∙ h)
