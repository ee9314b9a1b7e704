-- ===== src/Store/Sync.antt =====
-- `applySync` and `pruneLeague` of store.ts: the authoritative write that a synchronization makes, and
-- the removal of everything that one league left behind.
pub mod Publishing
pub mod Histories
pub mod Pruning
use sleeper_ff.Prelude.{
  ℕ, ◌+◌, ◌-◌, String, Bool, true, false, not, ◌&&◌, ◌||◌, Option, none, some, List, [], ◌∷◌, ◌++◌,
  str_eq, ltb, if◌then◌else◌, or_else, is_some, length, keep, any, map,
}
use sleeper_ff.Prelude.Assoc.{Assoc, lookup, insert, remove, remove_if, upsert, values}
use sleeper_ff.Prelude.Text.{split}
use sleeper_ff.Records.{
  Stamp, SyncWrite, LeaseGuard, SyncLease, League, ScoringConfiguration,
  LeagueScoringSnapshotRecord, Roster, Matchup, Transaction, TradedDraftPick, WeeklySnapshot,
  RosterObservation, RecommendationRecord, RecommendationOutcome, StoredSyncRun, User, NflPlayer,
}
use sleeper_ff.Store.{StoreShape}
use sleeper_ff.Store.Leases.{owned_by}

-- `lease.owner` is the guard's and its deadline lies after the guard's instant.
abbrev pub holds : LeaseGuard → Option SyncLease → Bool
holds g none = false
holds g (some lease) = str_eq lease.owner g.owner && ltb g.now lease.expires_at

abbrev pub guard_passes : Option LeaseGuard → StoreShape → Bool
guard_passes none s = true
guard_passes (some g) s = holds g (lookup g.key s.leases)

module _ (snapshot_id : ScoringConfiguration → String) where
  -- The observation is appended to its league's history, unless that has one of its id.
  unfoldable pub observe : League → Option ScoringConfiguration → StoreShape → StoreShape
  observe league none s = s
  observe league (some scoring) s =
      let id = snapshot_id scoring in
      let history = or_else (lookup league.id s.scoring_snapshots) [] in
      let next =
        if any (λ (v : LeagueScoringSnapshotRecord). str_eq v.id id) history
        then history
        else history ++ record { id = id; league_id = league.id; scoring = scoring } ∷ [] in
      record s { scoring_snapshots = insert league.id next s.scoring_snapshots }

  unfoldable pub write_league : Option League → StoreShape → StoreShape
  unfolding observe
  write_league none s = s
  write_league (some league) s =
      observe league league.scoring (record s { leagues = insert league.id league s.leagues })

-- Traded picks are replaced: the league's old ones go, where the write has picks and names a league,
-- and not by the empty text.
abbrev pub cleared :
    Option String → Option (List TradedDraftPick) → Assoc TradedDraftPick → Assoc TradedDraftPick
cleared none picks m = m
cleared (some league_id) none m = m
cleared (some league_id) (some picks) m =
    if str_eq league_id "" then m else remove_if (λ p. str_eq p.league_id league_id) m

abbrev pub upsert_some {ℓ} : {V : Type ℓ} → (V → String) → Option (List V) → Assoc V → Assoc V
upsert_some id values m = upsert id (or_else values []) m

-- Append-only, and once for each id.
abbrev pub append_new : Option WeeklySnapshot → List WeeklySnapshot → List WeeklySnapshot
append_new none old = old
append_new (some w) old =
    if any (λ (v : WeeklySnapshot). str_eq v.id w.id) old then old else old ++ w ∷ []

unfoldable pub append_observations :
    List RosterObservation → List RosterObservation → List RosterObservation
append_observations [] old = old
append_observations (o ∷ os) old =
    append_observations os
      (if any (λ (v : RosterObservation). str_eq v.id o.id) old then old else old ++ o ∷ [])

-- `Object.assign(target, entries)`
unfoldable pub assign {ℓ} : {V : Type ℓ} → Assoc V → Assoc V → Assoc V
assign target [] = target
assign target ((k, v) ∷ entries) = assign (insert k v target) entries

-- The write itself, once its lease is known to be held.
unfoldable pub publish : (ScoringConfiguration → String) → SyncWrite → StoreShape → StoreShape
unfolding write_league append_observations assign
publish snapshot_id w s =
    let s₁ = write_league snapshot_id w.league s in
    record s₁ {
      users = upsert_some (λ v. v.id) w.users s₁.users;
      players = upsert_some (λ v. v.id) w.players s₁.players;
      rosters = upsert_some (λ v. v.id) w.rosters s₁.rosters;
      matchups = upsert_some (λ v. v.id) w.matchups s₁.matchups;
      transactions = upsert_some (λ v. v.id) w.transactions s₁.transactions;
      draft_picks =
          upsert_some (λ v. v.id) w.draft_picks
            (cleared w.replace_draft_picks_for_league w.draft_picks s₁.draft_picks);
      weekly_snapshots = append_new w.weekly_snapshot s₁.weekly_snapshots;
      roster_history = append_observations (or_else w.roster_observations []) s₁.roster_history;
      freshness = assign s₁.freshness (or_else w.freshness []);
    }

-- `applySync`: `none` is the error that the lease was lost, which leaves the document as it was.
unfoldable pub apply_sync :
    (ScoringConfiguration → String) → SyncWrite → StoreShape → Option StoreShape
apply_sync snapshot_id w s =
    if guard_passes w.lease_guard s then some (publish snapshot_id w s) else none

-- `key.split(':')[1] === leagueId`
abbrev second_is : String → List String → Bool
second_is id (a ∷ b ∷ r) = str_eq b id
second_is id _ = false

unfoldable pub freshness_of : String → String → Bool
freshness_of league_id key = second_is league_id (split b':' key)

unfoldable pub remove_keys {ℓ} : {V : Type ℓ} → (String → Bool) → Assoc V → Assoc V
remove_keys p [] = []
remove_keys p ((k, v) ∷ m) = let rest = remove_keys p m in if p k then rest else (k, v) ∷ rest

abbrev is_league : String → Option String → Bool
is_league league_id none = false
is_league league_id (some id) = str_eq id league_id

-- The ids of the recommendations of a league.
unfoldable pub advice_of : String → StoreShape → List String
advice_of league_id s =
    map (λ (r : RecommendationRecord). r.id)
      (keep (λ (r : RecommendationRecord). str_eq r.league_id league_id) (values s.recommendations))

unfoldable pub remove_all {ℓ} : {V : Type ℓ} → List String → Assoc V → Assoc V
remove_all [] m = m
remove_all (k ∷ ks) m = remove_all ks (remove k m)

-- `pruneLeague`: the document without the league, and how many records that removed.
unfoldable pub prune_league : String → StoreShape → ℕ × StoreShape
unfolding advice_of remove_all remove_keys
prune_league league_id s =
    let rosters = remove_if (λ (v : Roster). str_eq v.league_id league_id) s.rosters in
    let matchups = remove_if (λ (v : Matchup). str_eq v.league_id league_id) s.matchups in
    let transactions =
      remove_if (λ (v : Transaction). str_eq v.league_id league_id) s.transactions in
    let picks = remove_if (λ (v : TradedDraftPick). str_eq v.league_id league_id) s.draft_picks in
    let history =
      keep (λ (v : RosterObservation). not (str_eq v.league_id league_id)) s.roster_history in
    let advice = advice_of league_id s in
    let removed =
      (length s.rosters - length rosters)
      + (length s.matchups - length matchups)
      + (length s.transactions - length transactions)
      + (length s.draft_picks - length picks)
      + (length s.roster_history - length history)
      + length advice
      + length (or_else (lookup league_id s.scoring_snapshots) []) in
    (
      removed,
      record s {
        leagues = remove league_id s.leagues;
        snapshots = remove league_id s.snapshots;
        league_connections = remove league_id s.league_connections;
        rosters = rosters;
        matchups = matchups;
        transactions = transactions;
        draft_picks = picks;
        weekly_snapshots =
            keep (λ (v : WeeklySnapshot). not (str_eq v.league_id league_id)) s.weekly_snapshots;
        roster_history = history;
        recommendations = remove_all advice s.recommendations;
        recommendation_outcomes =
            keep
              (λ (v : RecommendationOutcome).
                not (any (λ id. str_eq id v.recommendation_id) advice))
              s.recommendation_outcomes;
        scoring_snapshots = remove league_id s.scoring_snapshots;
        freshness = remove_keys (freshness_of league_id) s.freshness;
        sync_log = keep (λ (v : StoredSyncRun). not (is_league league_id v.league_id)) s.sync_log;
      },
    )

-- `resourceFreshness`
unfoldable pub resource_freshness : String → StoreShape → Assoc Stamp
resource_freshness league_id s =
    keep (λ e. freshness_of league_id e.0 || str_eq e.0 "players:nfl") s.freshness
