-- ===== src/Players/Refreshing.antt =====
-- The cooldown of the refresh of apps/api/src/players.ts: no fetch soon after another.
use sleeper_ff.Prelude.{
  ◌+◌, ◌<◌, ◌≤◌, ◌≡◌, refl, ap, sym, ◌∙◌, arith, String, false, Option, none, some, List, ◌*◌,
  subst,
}
use sleeper_ff.Prelude.Assoc.{lookup}
use sleeper_ff.Records.{Stamp, NflPlayer, PlayerMetadataState}
use sleeper_ff.Store.{StoreShape}
use sleeper_ff.Store.Leases.{acquire_lease, release_lease}
use sleeper_ff.Store.Directory.{player_metadata_of, save_player_directory, metadata_or}
use sleeper_ff.SleeperClient.{Outcome, returned, threw}
use sleeper_ff.Players.{
  start_refresh, is_due, start_under_lease, started, attempted, skipped, refresh_incomplete,
  SyncLease, lease_key, perform_refresh, store_answer, start_with, Start, normalize_answer,
  finish_refresh, while_fetching,
}
use sleeper_ff.Players.Normalizing.{player_retry_ms, RawDirectory}

-- While the next attempt lies ahead, a refresh is skipped.
skips :
    (now : Stamp) (owner : String) (s : StoreShape)
    → is_due now (player_metadata_of s) ≡ false
    → start_refresh now owner s ≡ (skipped, s)
unfolding start_refresh
skips now owner s h = ground arith

start_under_lease-metadata :
    (now : Stamp) (owner : String) (s : StoreShape) {previous : Option PlayerMetadataState}
    → (start_under_lease now owner s).0 ≡ started previous
    → (start_under_lease now owner s).1.player_metadata
      ≡ some (attempted now previous player_retry_ms refresh_incomplete)
unfolding start_under_lease save_player_directory
start_under_lease-metadata now owner s h = ground arith

start_with-metadata :
    (now : Stamp) (owner : String) (o : Option SyncLease) (s : StoreShape)
    {previous : Option PlayerMetadataState}
    → (start_with now owner o s).0 ≡ started previous
    → (start_with now owner o s).1.player_metadata
      ≡ some (attempted now previous player_retry_ms refresh_incomplete)
start_with-metadata now owner none s h = cc
start_with-metadata now owner (some lease) s h = start_under_lease-metadata now owner s h

start_refresh-metadata :
    (now : Stamp) (owner : String) (s : StoreShape) {previous : Option PlayerMetadataState}
    → (start_refresh now owner s).0 ≡ started previous
    → (start_refresh now owner s).1.player_metadata
      ≡ some (attempted now previous player_retry_ms refresh_incomplete)
unfolding start_refresh
start_refresh-metadata now owner s {previous} h =
    let asked = acquire_lease lease_key owner (5 * 60000) now s in
    ground (arith, start_with-metadata now owner asked.0 asked.1 {previous = previous})

next_of-skips :
    (later : Stamp) (other : String) (s : StoreShape) {metadata : PlayerMetadataState}
    → s.player_metadata ≡ some metadata
    → later < metadata.next_attempt_at
    → start_refresh later other s ≡ (skipped, s)
unfolding player_metadata_of
next_of-skips later other s {metadata} e h = skips later other s (
    ap (λ o. is_due later (metadata_or o (lookup "players:nfl" s.freshness))) e
    ∙ not_due later metadata h)
  where
    not_due :
        (later : Stamp) (metadata : PlayerMetadataState)
        → later < metadata.next_attempt_at
        → is_due later (some metadata) ≡ false
    not_due later metadata h = ground arith

store_answer-metadata :
    (now : Stamp) (previous : Option PlayerMetadataState) (o : Outcome (List NflPlayer))
    (s : StoreShape)
    → (metadata : PlayerMetadataState) × ((store_answer now previous o s).1.player_metadata
        ≡ some metadata)
      × (now + player_retry_ms ≤ metadata.next_attempt_at)
unfolding store_answer save_player_directory
store_answer-metadata now previous (returned players) s = (_, refl, omega arith)
store_answer-metadata now previous (threw e) s = (_, refl, omega arith)

release_lease-metadata :
    (key owner : String) (s : StoreShape)
    → (release_lease key owner s).player_metadata ≡ s.player_metadata
unfolding release_lease
release_lease-metadata key owner s = ground arith

perform_refresh_lem :
    (now : Stamp) (owner : String) (answer : Outcome RawDirectory)
    (others : StoreShape → StoreShape) (s : StoreShape) {start : Start}
    → (start_refresh now owner s).0 ≡ start
    → perform_refresh now owner answer others s
      ≡ finish_refresh now owner answer start
          (while_fetching others start (start_refresh now owner s).1)
unfolding perform_refresh
perform_refresh_lem now owner answer others s e =
    ap
      (λ d.
        finish_refresh now owner answer d (while_fetching others d (start_refresh now owner s).1))
      e

-- A refresh that goes on to fetch leaves a cooldown of `PLAYER_RETRY_MS` from its start: within it, no
-- refresh fetches again and none changes the document, by whatever owner, neither while the request
-- is under way nor after its answer is stored.
pub refresh_cooldown :
    (now later : Stamp) (owner other : String) (answer : Outcome RawDirectory)
    (others : StoreShape → StoreShape) (s : StoreShape) {previous : Option PlayerMetadataState}
    → (start_refresh now owner s).0 ≡ started previous
    → later < now + player_retry_ms
    → (start_refresh later other (start_refresh now owner s).1
        ≡ (skipped, (start_refresh now owner s).1))
      × (start_refresh later other (perform_refresh now owner answer others s).1
          ≡ (skipped, (perform_refresh now owner answer others s).1))
refresh_cooldown now later owner other answer others s {previous} e h =
    let fetched =
      store_answer now previous (normalize_answer now answer)
        (others (start_refresh now owner s).1) in
    let (metadata, stored, late) =
      store_answer-metadata now previous (normalize_answer now answer)
        (others (start_refresh now owner s).1) in
    (
      next_of-skips later other (start_refresh now owner s).1 (start_refresh-metadata now owner s e)
          h,
      subst (λ p. start_refresh later other p.1 ≡ (skipped, p.1))
          (sym (perform_refresh_lem now owner answer others s e))
          (next_of-skips later other (release_lease lease_key owner fetched.1)
            (release_lease-metadata lease_key owner fetched.1 ∙ stored) (omega arith)),
    )
