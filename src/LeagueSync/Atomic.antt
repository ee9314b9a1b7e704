-- ===== src/LeagueSync/Atomic.antt =====
-- Never half a synchronization: a run of apps/api/src/sync.ts that fails leaves the published data.
use sleeper_ff.Prelude.{
  ◌≡◌, refl, sym, ◌∙◌, String, Bool, Bool-cases, inl, inr, Option, none, some, Option-cases, List,
  str_eq, subst,
}
use sleeper_ff.Prelude.Assoc.{lookup, upsert}
use sleeper_ff.Records.{Stamp, League, ScoringConfiguration, LeaseGuard, Roster, Matchup, SyncWrite}
use sleeper_ff.Store.{StoreShape}
use sleeper_ff.Store.Sync.{
  apply_sync, guard_passes, write_league, publish as publish_write, assign, append_observations,
  observe,
}
use sleeper_ff.SleeperClient.{Outcome, returned, threw}
use sleeper_ff.LeagueSync.{
  scoring_write, fail_with, keep_league, without_scoring, publish, after_league, commit, perform,
  write_of, season_id, keys_for,
}
use sleeper_ff.LeagueSync.Requests.{
  Failure, Finished, Job, Keys, done, Fetched, broken, Upstream, api, internal, fetch_all,
}

-- The league's published data, and one resource's freshness, are the same.
abbrev pub Same : String → StoreShape → StoreShape → Type 0
Same key s t =
    (s.users ≡ t.users)
    × (s.rosters ≡ t.rosters)
    × (s.matchups ≡ t.matchups)
    × (s.transactions ≡ t.transactions)
    × (s.draft_picks ≡ t.draft_picks)
    × (s.weekly_snapshots ≡ t.weekly_snapshots)
    × (lookup key s.freshness ≡ lookup key t.freshness)

Same-refl : (key : String) (s : StoreShape) → Same key s s
Same-refl key s = (refl, refl, refl, refl, refl, refl, refl)

write_league-Same :
    (snapshot_id : ScoringConfiguration → String) (key : String) (o : Option League)
    (s : StoreShape)
    → Same key (write_league snapshot_id o s) s
unfolding write_league observe
write_league-Same snapshot_id key none s = Same-refl key s
write_league-Same snapshot_id key (some l) s = elim (Option-cases l.scoring) [
  | inl missing ↦ rw missing (Same-refl key s)
  | inr (scoring, there) ↦ rw there (Same-refl key s)
]

Same-trans : (key : String) (s t u : StoreShape) → Same key s t → Same key t u → Same key s u
Same-trans key s t u (a₀, a₁, a₂, a₃, a₄, a₅, a₆) (b₀, b₁, b₂, b₃, b₄, b₅, b₆) =
    (a₀ ∙ b₀, a₁ ∙ b₁, a₂ ∙ b₂, a₃ ∙ b₃, a₄ ∙ b₄, a₅ ∙ b₅, a₆ ∙ b₆)

abbrev IsBroken : Finished → Type 0
IsBroken (done r) = ⊥
IsBroken (broken e) = Unit

module _ (snapshot_id : ScoringConfiguration → String)
    (snapshot_body : List Roster → List Matchup → String)
    (unavailable_body : Option ScoringConfiguration → Stamp → String)
    (report : Option Failure → String) (no_scoring : ScoringConfiguration)
    (refresh : StoreShape → Bool × StoreShape) where
  scoring_write-Same :
      (key : String) (guard : LeaseGuard) (league : League) (s : StoreShape) {s' : StoreShape}
      → apply_sync snapshot_id
          (scoring_write snapshot_id snapshot_body unavailable_body report no_scoring refresh guard
            league)
          s
        ≡ some s'
      → Same key s' s
  unfolding apply_sync publish_write upsert assign append_observations
  scoring_write-Same key guard league s {s'} e =
      let w =
        scoring_write snapshot_id snapshot_body unavailable_body report no_scoring refresh guard
          league in
      elim (Bool-cases (guard_passes (some guard) s)) [
        | inr lost ↦ cc (rw lost at e)
        | inl held ↦
            let same : publish_write snapshot_id w s ≡ s' = cc (rw held at e) in
            subst (λ t. Same key t s) same (write_league-Same snapshot_id key (some league) s)
      ]

  fail_with-Same :
      (key : String) (job : Job) (at : Stamp) (failure : Failure) (guard : LeaseGuard)
      (league : League) (s : StoreShape) (o : Option StoreShape)
      → apply_sync snapshot_id
          (scoring_write snapshot_id snapshot_body unavailable_body report no_scoring refresh guard
            league)
          s
        ≡ o
      → Same key
          (fail_with snapshot_id snapshot_body unavailable_body report no_scoring refresh job at
            failure s o).1
          s
  fail_with-Same key job at failure guard league s none e = Same-refl key s
  fail_with-Same key job at failure guard league s (some s') e =
      scoring_write-Same key guard league s e

  keep_league-Same :
      (key : String) (job : Job) (at : Stamp) (guard : LeaseGuard) (failure : Failure)
      (s : StoreShape) (o : Option League)
      → Same key
          (keep_league snapshot_id snapshot_body unavailable_body report no_scoring refresh job at
            guard failure s o).1
          s
  keep_league-Same key job at guard failure s none = Same-refl key s
  keep_league-Same key job at guard failure s (some previous) =
      fail_with-Same key job at failure guard
        (without_scoring snapshot_id snapshot_body unavailable_body report no_scoring refresh
          previous at)
        s _ refl

  commit-Same :
      (key : String) (job : Job) (at : Stamp) (league : League) (f : Fetched) (players : Bool)
      (w : SyncWrite) (s : StoreShape) (o : Option StoreShape)
      → IsBroken
          (commit snapshot_id snapshot_body unavailable_body report no_scoring refresh job at league
            f players w s o).0
      → Same key
          (commit snapshot_id snapshot_body unavailable_body report no_scoring refresh job at league
            f players w s o).1
          s
  commit-Same key job at league f players w s none b = Same-refl key s
  commit-Same key job at league f players w s (some s') b = absurd b

  publish-Same :
      (key : String) (job : Job) (at : Stamp) (guard : LeaseGuard) (league : League) (keys : Keys)
      (players : Bool) (s : StoreShape) (o : Outcome Fetched)
      → IsBroken
          (publish snapshot_id snapshot_body unavailable_body report no_scoring refresh job at guard
            league keys players s o).0
      → Same key
          (publish snapshot_id snapshot_body unavailable_body report no_scoring refresh job at guard
            league keys players s o).1
          s
  publish-Same key job at guard league keys players s (threw e) b = Same-refl key s
  publish-Same key job at guard league keys players s (returned f) b =
      let w =
        write_of snapshot_id snapshot_body unavailable_body report no_scoring refresh guard league
          keys
          (season_id snapshot_id snapshot_body unavailable_body report no_scoring refresh job
            league)
          at f s in
      commit-Same key job at league f players w s (apply_sync snapshot_id w s) b

  after_league-Same :
      (key : String) (job : Job) (at : Stamp) (guard : LeaseGuard) (up : Upstream) (s : StoreShape)
      (o : Outcome League)
      → ((x : StoreShape) → Same key (refresh x).1 x)
      → IsBroken
          (after_league snapshot_id snapshot_body unavailable_body report no_scoring refresh job at
            guard up s o).0
      → Same key
          (after_league snapshot_id snapshot_body unavailable_body report no_scoring refresh job at
            guard up s o).1
          s
  unfolding after_league
  after_league-Same key job at guard up s (threw e) keeps b =
      keep_league-Same key job at guard (api e) s (lookup job.league_id s.leagues)
  after_league-Same key job at guard up s (returned league) keeps b =
      elim (Bool-cases (str_eq league.id job.league_id)) [
        | inr other ↦
            rw other (keep_league-Same key job at guard internal s (lookup job.league_id s.leagues))
        | inl same ↦
            let keys =
              keys_for snapshot_id snapshot_body unavailable_body report no_scoring refresh job
                league in
            let answers = fetch_all keys at job.force up s in
            let published =
              publish snapshot_id snapshot_body unavailable_body report no_scoring refresh job at
                guard league keys (refresh s).0 (refresh s).1 answers in
            rw same (
              Same-trans key published.1 (refresh s).1 s
                (publish-Same key job at guard league keys (refresh s).0 (refresh s).1 answers
                  (rw same at b))
                (keeps s))
      ]

-- A run that fails, on whatever path (the league or another resource cannot be fetched, the league is
-- another one, the lease was lost), leaves the league's users, rosters, matchups, transactions, traded
-- picks and weekly snapshots as they were, and the freshness of each resource whose freshness, like
-- those, the refresh of the player directory does not change.
pub failed_run_keeps :
    (snapshot_id : ScoringConfiguration → String)
    (snapshot_body : List Roster → List Matchup → String)
    (unavailable_body : Option ScoringConfiguration → Stamp → String)
    (report : Option Failure → String) (no_scoring : ScoringConfiguration)
    (refresh : StoreShape → Bool × StoreShape) (key : String) (job : Job) (at : Stamp)
    (guard : LeaseGuard) (up : Upstream) (s : StoreShape) {failure : Failure}
    → ((x : StoreShape) → Same key (refresh x).1 x)
    → (perform snapshot_id snapshot_body unavailable_body report no_scoring refresh job at guard up
        s).0
      ≡ broken failure
    → Same key
        (perform snapshot_id snapshot_body unavailable_body report no_scoring refresh job at guard
          up s).1
        s
unfolding perform
failed_run_keeps snapshot_id snapshot_body unavailable_body report no_scoring refresh key job at
      guard up s keeps e =
    after_league-Same snapshot_id snapshot_body unavailable_body report no_scoring refresh key job
      at guard up s up.league keeps (subst IsBroken (sym e) tt)
