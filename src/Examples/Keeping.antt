-- ===== src/Examples/Keeping.antt =====
-- Linked accounts and the synchronization log on concrete inputs.
use sleeper_ff.Prelude.{◌≡◌, refl, none, some, List, [], ◌∷◌, str_eq, if◌then◌else◌}
use sleeper_ff.Prelude.Assoc.{lookup, insert}
use sleeper_ff.Records.{ApplicationUser, SleeperAccountLink, success}
use sleeper_ff.Store.{StoreShape, empty_store}
use sleeper_ff.Store.Connections.{unique}
use sleeper_ff.Store.Accounts.{
  sleeper_account, link_sleeper_account, linked_user, sleeper_account-link_sleeper_account,
}
use sleeper_ff.Store.Runs.{SyncRunRecord, league}

abbrev user : ApplicationUser
user = record {
  id = "u";
  login = "ann";
  password_hash = "";
  sleeper_user_id = none;
  sleeper_username = none;
  sleeper_league_ids = [];
  sleeper_linked_at = none;
  created_at = 0;
}

abbrev store : StoreShape
store = record empty_store { application_users = ("u", user) ∷ [] }

abbrev link : SleeperAccountLink
link = record {
  user_id = "u";
  sleeper_user_id = "s";
  sleeper_username = "ann";
  league_ids = "l" ∷ "l" ∷ [];
  linked_at = 5;
}

abbrev linked : StoreShape
linked = record store { application_users = ("u", linked_user link user) ∷ [] }

sleeper_account-link_sleeper_account_example : sleeper_account "u" linked ≡ (
    if str_eq link.sleeper_user_id ""
    then none
    else some (record link { league_ids = unique [] link.league_ids }))
unfolding link_sleeper_account lookup insert
sleeper_account-link_sleeper_account_example =
    sleeper_account-link_sleeper_account link store linked refl

abbrev run_at_5 : SyncRunRecord
run_at_5 = record {
  id = "r";
  league_id = some "l";
  kind = league;
  status = success;
  category = none;
  season = none;
  week = none;
  started_at = 5;
  finished_at = 6;
  duration_ms = 1;
  refreshed = none;
  next_attempt_at = none;
  worker_id = none;
}

abbrev log : List SyncRunRecord
log = record run_at_5 { started_at = 9 } ∷ run_at_5 ∷ []
