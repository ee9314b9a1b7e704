-- ===== src/Store/Directory.antt =====
-- The player directory of store.ts: `playerDirectory` and `savePlayerDirectory`.
use sleeper_ff.Prelude.{Option, none, some, List, []}
use sleeper_ff.Prelude.Assoc.{Assoc, lookup, insert, upsert}
use sleeper_ff.Records.{Stamp, NflPlayer, PlayerMetadataState}
use sleeper_ff.Store.{StoreShape}

-- What an older document's freshness says, where it has no metadata
abbrev pub legacy_metadata : Option Stamp → Option PlayerMetadataState
legacy_metadata none = none
legacy_metadata (some at) = some record {
  synchronized_at = some at;
  last_attempted_at = at;
  next_attempt_at = at;
  last_error = none;
}

abbrev pub metadata_or : Option PlayerMetadataState → Option Stamp → Option PlayerMetadataState
metadata_or none legacy_at = legacy_metadata legacy_at
metadata_or (some metadata) legacy_at = some metadata

-- `playerDirectory().metadata`; its `players` are the document's.
unfoldable pub player_metadata_of : StoreShape → Option PlayerMetadataState
player_metadata_of s = metadata_or s.player_metadata (lookup "players:nfl" s.freshness)

abbrev pub stamp_freshness : Option Stamp → Assoc Stamp → Assoc Stamp
stamp_freshness none m = m
stamp_freshness (some at) m = insert "players:nfl" at m

-- `savePlayerDirectory`. The program gives players only with a time of synchronization.
unfoldable pub save_player_directory :
    PlayerMetadataState → Option (List NflPlayer) → StoreShape → StoreShape
save_player_directory metadata none s = record s { player_metadata = some metadata }
save_player_directory metadata (some players) s = record s {
  players = upsert (λ p. p.id) players [];
  freshness = stamp_freshness metadata.synchronized_at s.freshness;
  player_metadata = some metadata;
}
