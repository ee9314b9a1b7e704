-- ===== src/Store/Sync/Pruning.antt =====
-- What `pruneLeague` of store.ts removes, and what it leaves of other leagues.
use sleeper_ff.Prelude.{
  ◌≡◌, refl, ◌≢◌, String, Bool, not, none, List, [], ◌∷◌, arith, str_eq, eq_iff, eq_refl, keep,
}
use sleeper_ff.Prelude.Assoc.{Assoc, lookup, lookup-remove, remove_if, values}
use sleeper_ff.Records.{
  Roster, Matchup, Transaction, TradedDraftPick, WeeklySnapshot, RosterObservation,
}
use sleeper_ff.Store.{StoreShape}
use sleeper_ff.Store.Sync.{prune_league}

module _ {ℓ} {V : Type ℓ} (owner : V → String) (league : String) where
  -- The records of one league
  abbrev pub of_league : List V → List V
  of_league = keep (λ v. str_eq (owner v) league)

  abbrev pub belongs : V → Bool
  belongs v = str_eq (owner v) league

  values-remove_if-own : (entries : Assoc V) → of_league (values (remove_if belongs entries)) ≡ []
  unfolding remove_if
  values-remove_if-own [] = refl
  values-remove_if-own ((key, v) ∷ entries) = ground (arith, values-remove_if-own entries)

  keep-own : (vs : List V) → of_league (keep (λ v. not (belongs v)) vs) ≡ []
  keep-own [] = refl
  keep-own (v ∷ vs) = ground (arith, keep-own vs)

module _ {ℓ} {V : Type ℓ} (owner : V → String) (league other : String)
    (apart : league ≢ other) where
  values-remove_if-other :
      (entries : Assoc V)
      → of_league owner other (values (remove_if (belongs owner league) entries))
        ≡ of_league owner other (values entries)
  unfolding remove_if
  values-remove_if-other [] = refl
  values-remove_if-other ((key, v) ∷ entries) = ground (
    arith,
    values-remove_if-other entries,
    eq_iff (owner v) league,
    eq_iff (owner v) other,
    apart,
  )

  keep-other :
      (vs : List V)
      → of_league owner other (keep (λ v. not (belongs owner league v)) vs)
        ≡ of_league owner other vs
  keep-other [] = refl
  keep-other (v ∷ vs) =
      ground (arith, keep-other vs, eq_iff (owner v) league, eq_iff (owner v) other, apart)

-- What is stored of a league: its rosters, matchups, transactions, traded picks, weekly snapshots and
-- roster observations
pub record Holdings : Type 0 where
  pub rosters : List Roster
  pub matchups : List Matchup
  pub transactions : List Transaction
  pub draft_picks : List TradedDraftPick
  pub weekly_snapshots : List WeeklySnapshot
  pub roster_history : List RosterObservation

abbrev pub holdings : String → StoreShape → Holdings
holdings league s = record {
  rosters = of_league (λ (v : Roster). v.league_id) league (values s.rosters);
  matchups = of_league (λ (v : Matchup). v.league_id) league (values s.matchups);
  transactions = of_league (λ (v : Transaction). v.league_id) league (values s.transactions);
  draft_picks = of_league (λ (v : TradedDraftPick). v.league_id) league (values s.draft_picks);
  weekly_snapshots = of_league (λ (v : WeeklySnapshot). v.league_id) league s.weekly_snapshots;
  roster_history = of_league (λ (v : RosterObservation). v.league_id) league s.roster_history;
}

abbrev pub no_holdings : Holdings
no_holdings = record {
  rosters = [];
  matchups = [];
  transactions = [];
  draft_picks = [];
  weekly_snapshots = [];
  roster_history = [];
}

module _ (league : String) (s : StoreShape) where
  abbrev pub pruned : StoreShape
  pruned = (prune_league league s).1

  -- After a league is pruned, neither the league, its connection, its snapshot nor its scoring history
  -- is stored, and no roster, matchup, transaction, traded pick, weekly snapshot or roster observation
  -- that is stored, under whatever key, belongs to it.
  pub prune_league_removes :
      (lookup league pruned.leagues ≡ none)
      × (lookup league pruned.league_connections ≡ none)
      × (lookup league pruned.snapshots ≡ none)
      × (lookup league pruned.scoring_snapshots ≡ none)
      × (holdings league pruned ≡ no_holdings)
  unfolding prune_league
  prune_league_removes =
      let rs = values-remove_if-own (λ (v : Roster). v.league_id) league s.rosters in
      let ms = values-remove_if-own (λ (v : Matchup). v.league_id) league s.matchups in
      let ts = values-remove_if-own (λ (v : Transaction). v.league_id) league s.transactions in
      let ps = values-remove_if-own (λ (v : TradedDraftPick). v.league_id) league s.draft_picks in
      let ws = keep-own (λ (v : WeeklySnapshot). v.league_id) league s.weekly_snapshots in
      let os = keep-own (λ (v : RosterObservation). v.league_id) league s.roster_history in
      (
        ground (arith, lookup-remove league league s.leagues, eq_refl league),
        ground (arith, lookup-remove league league s.league_connections, eq_refl league),
        ground (arith, lookup-remove league league s.snapshots, eq_refl league),
        ground (arith, lookup-remove league league s.scoring_snapshots, eq_refl league),
        rw (rs, ms, ts, ps, ws, os) refl,
      )

  -- Pruning a league leaves the others alone: another league's record, connection, snapshot and scoring
  -- history are as they were, and so are its rosters, matchups, transactions, traded picks, weekly
  -- snapshots and roster observations, in their order.
  pub prune_league_keeps :
      (other : String)
      → league ≢ other
      → (lookup other pruned.leagues ≡ lookup other s.leagues)
        × (lookup other pruned.league_connections ≡ lookup other s.league_connections)
        × (lookup other pruned.snapshots ≡ lookup other s.snapshots)
        × (lookup other pruned.scoring_snapshots ≡ lookup other s.scoring_snapshots)
        × (holdings other pruned ≡ holdings other s)
  unfolding prune_league
  prune_league_keeps other apart =
      let rs = values-remove_if-other (λ (v : Roster). v.league_id) league other apart s.rosters in
      let ms =
        values-remove_if-other (λ (v : Matchup). v.league_id) league other apart s.matchups in
      let ts =
        values-remove_if-other (λ (v : Transaction). v.league_id) league other apart
          s.transactions in
      let ps =
        values-remove_if-other (λ (v : TradedDraftPick). v.league_id) league other apart
          s.draft_picks in
      let ws =
        keep-other (λ (v : WeeklySnapshot). v.league_id) league other apart s.weekly_snapshots in
      let os =
        keep-other (λ (v : RosterObservation). v.league_id) league other apart s.roster_history in
      (
        ground (arith, lookup-remove league other s.leagues, eq_iff league other),
        ground (arith, lookup-remove league other s.league_connections, eq_iff league other),
        ground (arith, lookup-remove league other s.snapshots, eq_iff league other),
        ground (arith, lookup-remove league other s.scoring_snapshots, eq_iff league other),
        rw (rs, ms, ts, ps, ws, os) refl,
      )
