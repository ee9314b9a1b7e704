-- ===== src/Players.antt =====
-- apps/api/src/players.ts: the directory of NFL players, refreshed once a day by one process at a
-- time. A JSON value that the upstream sent is modelled as far as the file looks into it. `random`
-- owners and the clock are arguments; the joining of callers in one process is not modelled.
pub mod Normalizing
pub mod Refreshing
pub mod Keeping
pub mod Leasing
use Prim.Native.Char.{code}
use Prim.Native.String.{◌++◌ as concat}
use sleeper_ff.Prelude.{
  ℕ, suc, ◌+◌, ◌*◌, max, String, Bool, true, false, not, ◌&&◌, ◌||◌, Option, none, some, List, [],
  ◌∷◌, ltb, leb, ◌==◌, str_eq, if◌then◌else◌, or_else, or_option, ◌>>=◌, includes, all, map, any,
  zero,
}
use sleeper_ff.Prelude.Assoc.{Assoc, lookup}
use sleeper_ff.Prelude.Text.{trim}
use sleeper_ff.Records.{
  Stamp, NflPlayer, PlayerMetadataState, RefreshError, refresh_incomplete, failed_with, SyncLease,
}
use sleeper_ff.Store.{StoreShape}
use sleeper_ff.Store.Leases.{acquire_lease, release_lease}
use sleeper_ff.Store.Directory.{player_metadata_of, save_player_directory}
use sleeper_ff.SleeperClient.{SleeperApiError, Outcome, returned, threw, validation}
use sleeper_ff.Players.Normalizing.{
  RawDirectory, normalize_players, player_refresh_ms, player_retry_ms,
}

-- What `client.players()` gives, normalized
abbrev pub normalize_answer : Stamp → Outcome RawDirectory → Outcome (List NflPlayer)
normalize_answer at (returned raw) = normalize_players at raw
normalize_answer at (threw e) = threw e

abbrev pub is_due : Stamp → Option PlayerMetadataState → Bool
is_due now none = true
is_due now (some metadata) = not (ltb now metadata.next_attempt_at)

abbrev pub synchronized_of : Option PlayerMetadataState → Option Stamp
synchronized_of none = none
synchronized_of (some metadata) = metadata.synchronized_at

abbrev pub attempted : Stamp → Option PlayerMetadataState → ℕ → RefreshError → PlayerMetadataState
attempted now previous delay error = record {
  synchronized_at = synchronized_of previous;
  last_attempted_at = now;
  next_attempt_at = now + delay;
  last_error = some error;
}

pub data Start : Type 0 where
  skipped : Start
  started : Option PlayerMetadataState → Start

abbrev pub lease_key : String
lease_key = "players:nfl"

-- Under the lease: the second look at the metadata, and the cooldown that is stored before the fetch
unfoldable pub start_under_lease : Stamp → String → StoreShape → Start × StoreShape
start_under_lease now owner s =
    let previous = player_metadata_of s in
    if not (is_due now previous) then (skipped, release_lease lease_key owner s) else (
      started previous,
      save_player_directory (attempted now previous player_retry_ms refresh_incomplete) none s,
    )

abbrev pub start_with : Stamp → String → Option SyncLease → StoreShape → Start × StoreShape
start_with now owner none s = (skipped, s)
start_with now owner (some lease) s = start_under_lease now owner s

-- `performRefresh` up to the request
unfoldable pub start_refresh : Stamp → String → StoreShape → Start × StoreShape
unfolding start_under_lease
start_refresh now owner s =
    let asked = acquire_lease lease_key owner (5 * 60000) now s in
    if not (is_due now (player_metadata_of s))
    then (skipped, s)
    else start_with now owner asked.0 asked.1

-- What the answer makes of the document
unfoldable pub store_answer :
    Stamp → Option PlayerMetadataState → Outcome (List NflPlayer) → StoreShape → Bool × StoreShape
store_answer now previous (returned players) s = (
  true,
  save_player_directory
      (record {
        synchronized_at = some now;
        last_attempted_at = now;
        next_attempt_at = now + player_refresh_ms;
        last_error = none;
      })
      (some players) s,
)
store_answer now previous (threw e) s = (
  false,
  save_player_directory
      (attempted now previous (max player_retry_ms (or_else e.retry_after_ms 0))
        (failed_with e.category))
      none s,
)

abbrev pub finish_refresh :
    Stamp → String → Outcome RawDirectory → Start → StoreShape → Bool × StoreShape
finish_refresh now owner answer skipped s = (false, s)
finish_refresh now owner answer (started previous) s =
    let (done, s') = store_answer now previous (normalize_answer now answer) s in
    (done, release_lease lease_key owner s')

abbrev pub while_fetching : (StoreShape → StoreShape) → Start → StoreShape → StoreShape
while_fetching others skipped s = s
while_fetching others (started previous) s = others s

-- `performRefresh`; `others` is what else happens to the document while the request is under way.
unfoldable pub perform_refresh :
    Stamp
    → String
    → Outcome RawDirectory
    → (StoreShape → StoreShape)
    → StoreShape
    → Bool × StoreShape
perform_refresh now owner answer others s =
    let begun = start_refresh now owner s in
    finish_refresh now owner answer begun.0 (while_fetching others begun.0 begun.1)
