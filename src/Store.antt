-- ===== src/Store.antt =====
-- apps/api/src/store.ts: the JSON document that the local adapter keeps. Every method is one queued
-- write of the whole document, so a method is a function on `StoreShape`; the file itself (read,
-- temporary file, rename) is not modelled. The parts of the document that no modelled method
-- touches are left out.
pub mod Leases
pub mod Sessions
pub mod Connections
pub mod Sync
pub mod Accounts
pub mod Aliases
pub mod Runs
pub mod Contexts
pub mod Forecasts
pub mod Rosters
pub mod Advice
pub mod Directory
use sleeper_ff.Prelude.{ℕ, String, Option, none, some, List, []}
use sleeper_ff.Prelude.Assoc.{Assoc}
use sleeper_ff.Records.{
  Stamp, League, User, NflPlayer, PlayerMetadataState, Roster, Matchup, Transaction,
  TradedDraftPick, WeeklySnapshot, ApplicationUser, ApplicationSession, StoredSyncRun,
  LeagueConnection, SyncLease, LeagueScoringSnapshotRecord, RosterObservation, RecommendationRecord,
  RecommendationOutcome,
}

pub record StoreShape : Type 0 where
  -- the dashboard snapshots, as stored
  pub snapshots : Assoc String
  pub leagues : Assoc League
  pub users : Assoc User
  pub players : Assoc NflPlayer
  pub player_metadata : Option PlayerMetadataState
  pub rosters : Assoc Roster
  pub matchups : Assoc Matchup
  pub transactions : Assoc Transaction
  pub draft_picks : Assoc TradedDraftPick
  pub weekly_snapshots : List WeeklySnapshot
  pub freshness : Assoc Stamp
  pub application_users : Assoc ApplicationUser
  pub sessions : Assoc ApplicationSession
  pub sync_log : List StoredSyncRun
  pub league_connections : Assoc LeagueConnection
  pub leases : Assoc SyncLease
  pub scoring_snapshots : Assoc (List LeagueScoringSnapshotRecord)
  pub roster_history : List RosterObservation
  pub recommendations : Assoc RecommendationRecord
  pub recommendation_outcomes : List RecommendationOutcome

abbrev pub empty_store : StoreShape
empty_store = record {
  snapshots = [];
  leagues = [];
  users = [];
  players = [];
  player_metadata = none;
  rosters = [];
  matchups = [];
  transactions = [];
  draft_picks = [];
  weekly_snapshots = [];
  freshness = [];
  application_users = [];
  sessions = [];
  sync_log = [];
  league_connections = [];
  leases = [];
  scoring_snapshots = [];
  roster_history = [];
  recommendations = [];
  recommendation_outcomes = [];
}
