-- ===== src/Records.antt =====
-- apps/api/src/storage/records.ts and packages/domain/src/index.ts: the records that the store keeps.
-- A timestamp is the number of milliseconds that `Date.parse` reads from the ISO text which the
-- program wrote. `body` stands for the fields of a record that the modelled code moves and never reads.
use sleeper_ff.Prelude.{ℕ, String, Bool, Option, List}
use sleeper_ff.Prelude.Assoc.{Assoc}
use sleeper_ff.SleeperClient.{SleeperErrorCategory}

abbrev pub Stamp : Type 0
Stamp = ℕ

pub record ApplicationUser : Type 0 where
  pub id : String
  pub login : String
  pub password_hash : String
  pub sleeper_user_id : Option String
  pub sleeper_username : Option String
  pub sleeper_league_ids : List String
  pub sleeper_linked_at : Option Stamp
  pub created_at : Stamp

pub data SessionRevocation : Type 0 where
  logout logout_all rotated expired reuse_detected user_removed : SessionRevocation

pub record ApplicationSession : Type 0 where
  pub id_hash : String
  pub user_id : String
  pub family_id : String
  pub csrf_hashes : List String
  pub created_at : Stamp
  pub expires_at : Stamp
  pub absolute_expires_at : Stamp
  pub last_rotated_at : Stamp
  pub last_seen_at : Stamp
  pub superseded_at : Option Stamp
  pub revoked_at : Option Stamp
  pub revoked_reason : Option SessionRevocation

pub record SleeperAccountLink : Type 0 where
  pub user_id : String
  pub sleeper_user_id : String
  pub sleeper_username : String
  pub league_ids : List String
  pub linked_at : Stamp

pub data SyncStatus : Type 0 where
  success failed : SyncStatus

pub data ConnectionStatus : Type 0 where
  active archived : ConnectionStatus

pub record LeagueConnection : Type 0 where
  pub league_id : String
  pub demo : Bool
  pub status : ConnectionStatus
  pub linked : Bool
  pub season : Option String
  pub week : Option ℕ
  pub created_at : Stamp
  pub updated_at : Stamp
  pub archived_at : Option Stamp
  pub archived_reason : Option String
  pub last_attempted_at : Option Stamp
  pub last_synced_at : Option Stamp
  pub last_status : Option SyncStatus
  pub last_category : Option String
  pub last_duration_ms : Option ℕ
  pub last_refreshed : Option (List String)
  pub resource_freshness : Option (Assoc Stamp)
  pub consecutive_failures : ℕ
  pub next_attempt_at : Option Stamp

pub record SyncAttempt : Type 0 where
  pub status : SyncStatus
  pub at : Stamp
  pub duration_ms : ℕ
  pub category : Option String
  pub refreshed : Option (List String)
  pub season : Option String
  pub week : Option ℕ
  pub resource_freshness : Option (Assoc Stamp)
  pub next_attempt_at : Option Stamp
  pub consecutive_failures : Option ℕ

pub record SyncLease : Type 0 where
  pub key : String
  pub owner : String
  pub acquired_at : Stamp
  pub expires_at : Stamp

pub data ScoringKind : Type 0 where
  complete_live partial_reference unavailable : ScoringKind

pub record ScoringConfiguration : Type 0 where
  pub kind : ScoringKind
  pub synchronized_at : Option Stamp
  pub body : String

pub record League : Type 0 where
  pub id : String
  pub season : String
  pub status : String
  pub scoring : Option ScoringConfiguration
  -- `settings?.leg`, Sleeper's current week
  pub settings_leg : Option ℕ
  pub synchronized_at : Stamp
  pub body : String

pub record User : Type 0 where
  pub id : String
  pub body : String

pub record NflPlayer : Type 0 where
  pub id : String
  pub first_name : Option String
  pub last_name : Option String
  pub full_name : String
  pub team : Option String
  pub position : Option String
  pub fantasy_positions : List String
  pub status : Option String
  pub injury_status : Option String
  pub synchronized_at : Stamp

pub record Roster : Type 0 where
  pub id : String
  pub league_id : String
  pub owner_id : Option String
  pub co_owner_ids : List String
  pub body : String

pub record Matchup : Type 0 where
  pub id : String
  pub league_id : String
  pub season : String
  pub week : ℕ
  pub body : String

pub record Transaction : Type 0 where
  pub id : String
  pub league_id : String
  pub week : ℕ
  pub body : String

pub record TradedDraftPick : Type 0 where
  pub id : String
  pub league_id : String
  pub body : String

pub record WeeklySnapshot : Type 0 where
  pub id : String
  pub league_id : String
  pub body : String

pub record RosterObservation : Type 0 where
  pub id : String
  pub league_id : String
  pub roster_id : ℕ
  pub season : String
  pub week : ℕ
  pub observed_at : Stamp
  pub body : String

pub record LeagueScoringSnapshotRecord : Type 0 where
  pub id : String
  pub league_id : String
  pub scoring : ScoringConfiguration

pub record RecommendationRecord : Type 0 where
  pub id : String
  pub league_id : String
  pub generated_at : Stamp
  pub body : String

pub record RecommendationOutcome : Type 0 where
  pub id : String
  pub recommendation_id : String
  pub observed_at : Stamp
  -- `resolution === 'followed'`, and whether `actualPoints` is there
  pub is_followed : Bool
  pub has_actual_points : Bool
  pub body : String

pub record StoredSyncRun : Type 0 where
  pub id : Option String
  pub league_id : Option String
  pub synced_at : Stamp
  pub status : SyncStatus
  pub body : String

pub record LeaseGuard : Type 0 where
  pub key : String
  pub owner : String
  pub now : Stamp

pub record SyncWrite : Type 0 where
  pub lease_guard : Option LeaseGuard
  pub league : Option League
  pub users : Option (List User)
  pub players : Option (List NflPlayer)
  pub rosters : Option (List Roster)
  pub matchups : Option (List Matchup)
  pub transactions : Option (List Transaction)
  pub draft_picks : Option (List TradedDraftPick)
  pub replace_draft_picks_for_league : Option String
  pub weekly_snapshot : Option WeeklySnapshot
  pub freshness : Option (Assoc Stamp)
  pub roster_observations : Option (List RosterObservation)

-- Why the player directory is not the newest: a refresh that has not ended, or the category of the
-- error that ended it.
pub data RefreshError : Type 0 where
  refresh_incomplete : RefreshError
  failed_with : SleeperErrorCategory → RefreshError

pub record PlayerMetadataState : Type 0 where
  pub synchronized_at : Option Stamp
  pub last_attempted_at : Stamp
  pub next_attempt_at : Stamp
  pub last_error : Option RefreshError
