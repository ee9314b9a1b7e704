-- ===== src/Store/Advice.antt =====
-- The outcomes of recommendations in store.ts, the pruning of old advice, and the scoring snapshots that
-- advice cites.
use sleeper_ff.Prelude.{
  ℕ, ◌+◌, String, Bool, not, ◌&&◌, ◌||◌, Option, none, some, List, [], ◌∷◌, ◌++◌, str_eq, ltb, leb,
  ◌==◌, if◌then◌else◌, or_else, is_some, keep, any, find,
}
use sleeper_ff.Prelude.Assoc.{lookup, remove, values}
use sleeper_ff.Records.{
  Stamp, RecommendationRecord, RecommendationOutcome, LeagueScoringSnapshotRecord,
}
use sleeper_ff.Store.{StoreShape}

-- `recordRecommendationOutcome`: `none` is the error of an outcome without its recommendation, or of
-- one that was followed and has no points.
unfoldable pub record_recommendation_outcome :
    RecommendationOutcome → StoreShape → Option StoreShape
record_recommendation_outcome o s =
    if not (is_some (lookup o.recommendation_id s.recommendations))
    then none
    else if o.is_followed && not o.has_actual_points
    then none
    else if any
        (λ (v : RecommendationOutcome).
          str_eq v.recommendation_id o.recommendation_id && (v.observed_at == o.observed_at))
        s.recommendation_outcomes
    then some s
    else some (record s { recommendation_outcomes = s.recommendation_outcomes ++ o ∷ [] })

-- The stable sort by `observedAt`, newest first
unfoldable pub place_newest :
    RecommendationOutcome → List RecommendationOutcome → List RecommendationOutcome
place_newest a [] = a ∷ []
place_newest a (b ∷ bs) =
    if ltb a.observed_at b.observed_at then b ∷ place_newest a bs else a ∷ b ∷ bs

unfoldable pub sort_newest : List RecommendationOutcome → List RecommendationOutcome
sort_newest [] = []
sort_newest (a ∷ rest) = place_newest a (sort_newest rest)

-- `recommendationOutcomes`
unfoldable pub recommendation_outcomes_of : String → StoreShape → List RecommendationOutcome
recommendation_outcomes_of id s =
    sort_newest (
      keep (λ (o : RecommendationOutcome). str_eq o.recommendation_id id) s.recommendation_outcomes)

-- Whether a recommendation stays: it is recent, or an outcome of it is.
abbrev pub is_kept : Stamp → RecommendationRecord → List RecommendationOutcome → Bool
is_kept cutoff r os =
    leb cutoff r.generated_at
    || any
        (λ (o : RecommendationOutcome). str_eq o.recommendation_id r.id && leb cutoff o.observed_at)
        os

unfoldable pub prune_each : Stamp → List RecommendationRecord → ℕ × StoreShape → ℕ × StoreShape
prune_each cutoff [] (removed, s) = (removed, s)
prune_each cutoff (r ∷ rs) (removed, s) =
    let without : StoreShape = record s {
      recommendations = remove r.id s.recommendations;
      recommendation_outcomes =
          keep (λ (o : RecommendationOutcome). not (str_eq o.recommendation_id r.id))
            s.recommendation_outcomes;
    } in
    let next =
      if is_kept cutoff r s.recommendation_outcomes then (removed, s) else (removed + 1, without) in
    prune_each cutoff rs next

-- `pruneRecommendations`
unfoldable pub prune_recommendations : Stamp → StoreShape → ℕ × StoreShape
prune_recommendations cutoff s = prune_each cutoff (values s.recommendations) (0, s)

unfoldable pub reversed :
    List LeagueScoringSnapshotRecord
    → List LeagueScoringSnapshotRecord
    → List LeagueScoringSnapshotRecord
reversed [] done = done
reversed (x ∷ xs) done = reversed xs (x ∷ done)

-- `scoringSnapshots`, newest first
unfoldable pub scoring_snapshots_of : String → StoreShape → List LeagueScoringSnapshotRecord
scoring_snapshots_of league_id s = reversed (or_else (lookup league_id s.scoring_snapshots) []) []

-- `scoringSnapshot`
unfoldable pub scoring_snapshot : String → String → StoreShape → Option LeagueScoringSnapshotRecord
scoring_snapshot league_id id s =
    find (λ (v : LeagueScoringSnapshotRecord). str_eq v.id id)
      (or_else (lookup league_id s.scoring_snapshots) [])
