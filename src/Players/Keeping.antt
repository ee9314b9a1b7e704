-- ===== src/Players/Keeping.antt =====
-- The directory of apps/api/src/players.ts is replaced as a whole, or kept.
use sleeper_ff.Prelude.{◌≡◌, refl, ap, ◌∙◌, arith, String, true, false, Option, some, List, []}
use sleeper_ff.Prelude.Assoc.{lookup, upsert, lookup-insert}
use sleeper_ff.Records.{Stamp, NflPlayer, PlayerMetadataState}
use sleeper_ff.Store.{StoreShape}
use sleeper_ff.Store.Leases.{acquire_lease, release_lease}
use sleeper_ff.Store.Directory.{save_player_directory}
use sleeper_ff.SleeperClient.{Outcome, returned, threw}
use sleeper_ff.Players.{
  start_refresh, start_under_lease, started, skipped, lease_key, perform_refresh, store_answer,
  Start, normalize_answer, finish_refresh, while_fetching,
}
use sleeper_ff.Players.Normalizing.{RawDirectory}

start_refresh-kept :
    (now : Stamp) (owner : String) (s : StoreShape)
    → ((start_refresh now owner s).1.players ≡ s.players)
      × ((start_refresh now owner s).1.freshness ≡ s.freshness)
unfolding start_refresh acquire_lease start_under_lease release_lease save_player_directory
start_refresh-kept now owner s = ground arith

store_answer-kept :
    (now : Stamp) (previous : Option PlayerMetadataState) (o : Outcome (List NflPlayer))
    (x : StoreShape)
    → (store_answer now previous o x).0 ≡ false
    → ((store_answer now previous o x).1.players ≡ x.players)
      × ((store_answer now previous o x).1.freshness ≡ x.freshness)
unfolding store_answer save_player_directory
store_answer-kept now previous (returned players) x h = cc
store_answer-kept now previous (threw e) x h = (refl, refl)

release_lease-kept :
    (key owner : String) (x : StoreShape)
    → ((release_lease key owner x).players ≡ x.players)
      × ((release_lease key owner x).freshness ≡ x.freshness)
unfolding release_lease
release_lease-kept key owner x = ground arith

finish_refresh-kept :
    (now : Stamp) (owner : String) (answer : Outcome RawDirectory) (d : Start) (x : StoreShape)
    → (finish_refresh now owner answer d x).0 ≡ false
    → ((finish_refresh now owner answer d x).1.players ≡ x.players)
      × ((finish_refresh now owner answer d x).1.freshness ≡ x.freshness)
finish_refresh-kept now owner answer skipped x h = (refl, refl)
finish_refresh-kept now owner answer (started previous) x h =
    let stored = store_answer now previous (normalize_answer now answer) x in
    let kept = store_answer-kept now previous (normalize_answer now answer) x h in
    let released = release_lease-kept lease_key owner stored.1 in
    (released.0 ∙ kept.0, released.1 ∙ kept.1)

while_fetching-kept :
    (others : StoreShape → StoreShape)
    → ((x : StoreShape) → ((others x).players ≡ x.players) × ((others x).freshness ≡ x.freshness))
    → (d : Start) (x : StoreShape)
    → ((while_fetching others d x).players ≡ x.players)
      × ((while_fetching others d x).freshness ≡ x.freshness)
while_fetching-kept others keeps skipped x = (refl, refl)
while_fetching-kept others keeps (started previous) x = keeps x

-- A refresh that does not report a new directory (it was too early, another process holds the lease,
-- the request failed, or what it answered is invalid) keeps the players and their freshness as they
-- were, where nothing else changes these in the meantime.
pub refresh_failure_keeps :
    (now : Stamp) (owner : String) (answer : Outcome RawDirectory)
    (others : StoreShape → StoreShape) (s : StoreShape)
    → ((x : StoreShape) → ((others x).players ≡ x.players) × ((others x).freshness ≡ x.freshness))
    → (perform_refresh now owner answer others s).0 ≡ false
    → ((perform_refresh now owner answer others s).1.players ≡ s.players)
      × ((perform_refresh now owner answer others s).1.freshness ≡ s.freshness)
unfolding perform_refresh
refresh_failure_keeps now owner answer others s keeps h =
    let begun = start_refresh now owner s in
    let first = start_refresh-kept now owner s in
    let between = while_fetching-kept others keeps begun.0 begun.1 in
    let last =
      finish_refresh-kept now owner answer begun.0 (while_fetching others begun.0 begun.1) h in
    (last.0 ∙ between.0 ∙ first.0, last.1 ∙ between.1 ∙ first.1)

store_answer-published :
    (now : Stamp) (previous : Option PlayerMetadataState) (o : Outcome (List NflPlayer))
    (x : StoreShape)
    → (store_answer now previous o x).0 ≡ true
    → (players : List NflPlayer) × (o ≡ returned players)
      × ((store_answer now previous o x).1.players ≡ upsert (λ p. p.id) players [])
      × (lookup "players:nfl" (store_answer now previous o x).1.freshness ≡ some now)
unfolding store_answer save_player_directory
store_answer-published now previous (returned players) x h =
    (players, refl, refl, lookup-insert "players:nfl" "players:nfl" now x.freshness ∙ refl)
store_answer-published now previous (threw e) x h = cc

finish_refresh-published :
    (now : Stamp) (owner : String) (answer : Outcome RawDirectory) (d : Start) (x : StoreShape)
    → (finish_refresh now owner answer d x).0 ≡ true
    → (players : List NflPlayer) × (normalize_answer now answer ≡ returned players)
      × ((finish_refresh now owner answer d x).1.players ≡ upsert (λ p. p.id) players [])
      × (lookup "players:nfl" (finish_refresh now owner answer d x).1.freshness ≡ some now)
finish_refresh-published now owner answer skipped x h = cc
finish_refresh-published now owner answer (started previous) x h =
    let stored = store_answer now previous (normalize_answer now answer) x in
    let (players, valid, published, fresh) =
      store_answer-published now previous (normalize_answer now answer) x h in
    let released = release_lease-kept lease_key owner stored.1 in
    (players, valid, released.0 ∙ published, ap (lookup "players:nfl") released.1 ∙ fresh)

-- A refresh that reports a new directory has replaced the players as a whole by those of a valid
-- answer, with the time of the refresh as their freshness, in one write.
pub refresh_success_publishes :
    (now : Stamp) (owner : String) (answer : Outcome RawDirectory)
    (others : StoreShape → StoreShape) (s : StoreShape)
    → (perform_refresh now owner answer others s).0 ≡ true
    → (players : List NflPlayer) × (normalize_answer now answer ≡ returned players)
      × ((perform_refresh now owner answer others s).1.players ≡ upsert (λ p. p.id) players [])
      × (lookup "players:nfl" (perform_refresh now owner answer others s).1.freshness ≡ some now)
unfolding perform_refresh
refresh_success_publishes now owner answer others s h =
    finish_refresh-published now owner answer (start_refresh now owner s).0 _ h
