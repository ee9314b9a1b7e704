-- ===== src/LeagueSync/Publishing.antt =====
-- What a run of apps/api/src/sync.ts that succeeds has published.
use sleeper_ff.Prelude.{◌≡◌, String, Bool, Option, List, [], ◌∷◌, ◌++◌, if◌then◌else◌}
use sleeper_ff.Records.{Stamp, League, ScoringConfiguration, LeaseGuard, Roster, Matchup}
use sleeper_ff.Store.{StoreShape}
use sleeper_ff.Store.Sync.{publish as publish_write}
use sleeper_ff.SleeperClient.{returned}
use sleeper_ff.LeagueSync.{publish}
use sleeper_ff.LeagueSync.Requests.{Failure, fetch_all, Upstream, Fetched, Job, SyncResult, keys_of}
use sleeper_ff.LeagueSync.Writing.{IsPublished}

module _ (snapshot_id : ScoringConfiguration → String)
    (snapshot_body : List Roster → List Matchup → String)
    (unavailable_body : Option ScoringConfiguration → Stamp → String)
    (report : Option Failure → String) (no_scoring : ScoringConfiguration)
    (refresh : StoreShape → Bool × StoreShape) where
  -- What a run that succeeds rests on, and what it leaves
  abbrev pub IsPublication :
      Job → Stamp → LeaseGuard → Upstream → StoreShape → League → SyncResult → StoreShape → Type 0
  IsPublication job at guard up s league r t =
      let keys = keys_of job.league_id league.season job.week_text in
      (f : Fetched) × (fetch_all keys at job.force up s ≡ returned f)
      × IsPublished keys at guard league f (refresh s).1 t
      × (r.refreshed ≡ "league" ∷ f.names ++ (if (refresh s).0 then "players" ∷ [] else []))
