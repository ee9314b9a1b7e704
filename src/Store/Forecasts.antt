-- ===== src/Store/Forecasts.antt =====
-- The forecast snapshots of store.ts, as the list that the document keeps: appended once for an id, read
-- newest first, and pruned unless a recommendation cites them.
use sleeper_ff.Prelude.{
  ℕ, ◌+◌, String, Bool, true, not, ◌&&◌, ◌||◌, Option, none, some, List, [], ◌∷◌, ◌++◌, str_eq, ltb,
  ◌==◌, if◌then◌else◌, or_else, keep, any, find, length, includes,
}
use sleeper_ff.Prelude.Assoc.{Assoc, lookup, insert}
use sleeper_ff.Records.{Stamp}

pub record ForecastSnapshotRecord : Type 0 where
  pub id : String
  pub source : String
  pub season : String
  pub week : ℕ
  pub source_updated_at : Stamp
  pub ingested_at : Stamp
  pub body : String

-- `saveForecastSnapshot`
unfoldable pub save_forecast_snapshot :
    ForecastSnapshotRecord → List ForecastSnapshotRecord → List ForecastSnapshotRecord
save_forecast_snapshot r stored =
    if any (λ (v : ForecastSnapshotRecord). str_eq v.id r.id) stored
    then stored
    else stored ++ r ∷ []

-- `forecastSnapshot`
unfoldable pub forecast_snapshot :
    String → List ForecastSnapshotRecord → Option ForecastSnapshotRecord
forecast_snapshot id stored = find (λ (v : ForecastSnapshotRecord). str_eq v.id id) stored

-- `byRecency(a, b) < 0`: `a` comes before `b`.
abbrev pub by_recency : ForecastSnapshotRecord → ForecastSnapshotRecord → Bool
by_recency a b =
    ltb b.source_updated_at a.source_updated_at
    || ((a.source_updated_at == b.source_updated_at) && ltb b.ingested_at a.ingested_at)

-- The stable sort by it: an element goes before the first that it does not come after.
unfoldable pub place_recent :
    ForecastSnapshotRecord → List ForecastSnapshotRecord → List ForecastSnapshotRecord
place_recent a [] = a ∷ []
place_recent a (b ∷ bs) = if by_recency b a then b ∷ place_recent a bs else a ∷ b ∷ bs

unfoldable pub sort_recent : List ForecastSnapshotRecord → List ForecastSnapshotRecord
sort_recent [] = []
sort_recent (a ∷ as_before) = place_recent a (sort_recent as_before)

abbrev same_source : Option String → String → Bool
same_source none s = true
same_source (some q) s = str_eq s q

abbrev head : List ForecastSnapshotRecord → Option ForecastSnapshotRecord
head [] = none
head (a ∷ rest) = some a

-- `latestForecastSnapshot`
unfoldable pub latest_forecast_snapshot :
    String → ℕ → Option String → List ForecastSnapshotRecord → Option ForecastSnapshotRecord
latest_forecast_snapshot season week source stored = head (
    sort_recent (
      keep
        (λ (v : ForecastSnapshotRecord).
          (str_eq v.season season && (v.week == week)) && same_source source v.source)
        stored))

module _ (key : ForecastSnapshotRecord → String) (cited : List String) (before : Stamp)
    (keep_per_week : ℕ) where
  -- The ids to drop, of snapshots that come newest first; `key` is their source, season and week.
  unfoldable pub dropped : Assoc ℕ → List ForecastSnapshotRecord → List String
  dropped ranks [] = []
  dropped ranks (v ∷ rest) =
      let rank = or_else (lookup (key v) ranks) 0 + 1 in
      let more = dropped (insert (key v) rank ranks) rest in
      if (ltb keep_per_week rank && ltb v.ingested_at before) && not (includes v.id cited)
      then v.id ∷ more
      else more

  -- `pruneForecastSnapshots`
  unfoldable pub prune_forecast_snapshots :
      List ForecastSnapshotRecord → ℕ × List ForecastSnapshotRecord
  prune_forecast_snapshots stored =
      let drop = dropped [] (sort_recent stored) in
      (length drop, keep (λ (v : ForecastSnapshotRecord). not (includes v.id drop)) stored)
