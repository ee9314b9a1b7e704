-- ===== src/Store/Accounts.antt =====
-- The Sleeper account of an application account, in store.ts: linking, unlinking, and who links a
-- league.
use sleeper_ff.Prelude.{
  ◌≡◌, String, Option, none, some, List, [], or_else, map, keep, includes, arith, eq_refl, str_eq,
  if◌then◌else◌, Option-cases, inl, inr,
}
use sleeper_ff.Prelude.Assoc.{lookup, insert, values, lookup-insert}
use sleeper_ff.Records.{ApplicationUser, SleeperAccountLink}
use sleeper_ff.Store.{StoreShape}
use sleeper_ff.Store.Connections.{unique}

abbrev account_of : String → ApplicationUser → Option String → Option SleeperAccountLink
account_of user_id user none = none
account_of user_id user (some sleeper_user_id) =
    if str_eq sleeper_user_id ""
    then none
    else some (record {
      user_id = user_id;
      sleeper_user_id = sleeper_user_id;
      sleeper_username = or_else user.sleeper_username "";
      league_ids = user.sleeper_league_ids;
      linked_at = or_else user.sleeper_linked_at user.created_at;
    })

abbrev account_if : String → Option ApplicationUser → Option SleeperAccountLink
account_if user_id none = none
account_if user_id (some user) = account_of user_id user user.sleeper_user_id

-- `sleeperAccount`
unfoldable pub sleeper_account : String → StoreShape → Option SleeperAccountLink
sleeper_account user_id s = account_if user_id (lookup user_id s.application_users)

abbrev pub linked_user : SleeperAccountLink → ApplicationUser → ApplicationUser
linked_user link user = record user {
  sleeper_user_id = some link.sleeper_user_id;
  sleeper_username = some link.sleeper_username;
  sleeper_league_ids = unique [] link.league_ids;
  sleeper_linked_at = some link.linked_at;
}

abbrev put_user : String → ApplicationUser → StoreShape → StoreShape
put_user id user s = record s { application_users = insert id user s.application_users }

-- `linkSleeperAccount`: `none` is the error that there is no such account.
unfoldable pub link_sleeper_account : SleeperAccountLink → StoreShape → Option StoreShape
link_sleeper_account link s = elim (lookup link.user_id s.application_users) [
  | none ↦ none
  | some user ↦ some (put_user link.user_id (linked_user link user) s)
]

abbrev unlinked_user : ApplicationUser → ApplicationUser
unlinked_user user = record user {
  sleeper_user_id = none;
  sleeper_username = none;
  sleeper_league_ids = [];
  sleeper_linked_at = none;
}

-- `unlinkSleeperAccount`
unfoldable pub unlink_sleeper_account : String → StoreShape → StoreShape
unlink_sleeper_account user_id s = elim (lookup user_id s.application_users) [
  | none ↦ s
  | some user ↦ put_user user_id (unlinked_user user) s
]

-- `accountsLinkingLeague`
unfoldable pub accounts_linking_league : String → StoreShape → List String
accounts_linking_league league_id s =
    map (λ (u : ApplicationUser). u.id)
      (keep (λ (u : ApplicationUser). includes league_id u.sleeper_league_ids)
        (values s.application_users))

module _ (id : String) (user : ApplicationUser) (s : StoreShape) where
  put_user-lookup : lookup id (put_user id user s).application_users ≡ some user
  put_user-lookup = ground (arith, lookup-insert id id user s.application_users, eq_refl id)

-- What is linked is read back, with each league once, except where it names no Sleeper account at all:
-- an empty id reads as no link.
pub sleeper_account-link_sleeper_account :
    (link : SleeperAccountLink) (s s' : StoreShape)
    → link_sleeper_account link s ≡ some s'
    → sleeper_account link.user_id s' ≡ (
        if str_eq link.sleeper_user_id ""
        then none
        else some (record link { league_ids = unique [] link.league_ids }))
unfolding sleeper_account link_sleeper_account
sleeper_account-link_sleeper_account link s s' e =
    elim (Option-cases (lookup link.user_id s.application_users)) [
      | inl unknown ↦ absurd (ground arith)
      | inr (user, found) ↦ ground (arith, put_user-lookup link.user_id (linked_user link user) s)
    ]

-- An account that was unlinked reads as none, whatever it was before.
pub sleeper_account-unlink_sleeper_account :
    (user_id : String) (s : StoreShape)
    → sleeper_account user_id (unlink_sleeper_account user_id s) ≡ none
unfolding sleeper_account unlink_sleeper_account
sleeper_account-unlink_sleeper_account user_id s =
    elim (Option-cases (lookup user_id s.application_users)) [
      | inl unknown ↦ ground arith
      | inr (user, found) ↦ ground (arith, put_user-lookup user_id (unlinked_user user) s)
    ]
