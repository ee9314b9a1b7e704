-- ===== src/Store/Connections/Attempts.antt =====
-- What `recordLeagueSyncAttempt` of store.ts keeps of a league that fails to synchronize.
use sleeper_ff.Prelude.{
  ℕ, ◌+◌, ◌≡◌, String, some, List, [], ◌∷◌, arith, eq_refl, length, subst, sym,
}
use sleeper_ff.Prelude.Assoc.{lookup-insert}
use sleeper_ff.Records.{SyncAttempt, LeagueConnection, failed}
use sleeper_ff.Store.{StoreShape}
use sleeper_ff.Store.Connections.{attempted, record_league_sync_attempt, league_connection}

-- The attempts of a league, one after the other.
abbrev pub record_all : String → List SyncAttempt → StoreShape → StoreShape
record_all league [] s = s
record_all league (a ∷ rest) s = record_all league rest (record_league_sync_attempt league a s)

pub record-lookup :
    (league : String) (a : SyncAttempt) (s : StoreShape) (c : LeagueConnection)
    → league_connection league s ≡ some c
    → league_connection league (record_league_sync_attempt league a s) ≡ some (attempted a c)
unfolding record_league_sync_attempt
record-lookup league a s c e = rw e (
    ground
      (arith, lookup-insert league league (attempted a c) s.league_connections, eq_refl league))

-- What a run of failures does not change, and the count that it does.
abbrev pub IsStillAt : ℕ → LeagueConnection → LeagueConnection → Type 0
IsStillAt n c d =
    ((d.last_synced_at ≡ c.last_synced_at) × (d.last_refreshed ≡ c.last_refreshed))
    × (d.status ≡ c.status)
    × (d.linked ≡ c.linked)
    × (d.consecutive_failures ≡ n + c.consecutive_failures)

-- Failed attempts as the worker records them, one after the other: each counts one failure more than
-- the connection had, from `n` on.
abbrev pub FailsFrom : ℕ → List SyncAttempt → Type 0
FailsFrom n [] = Unit
FailsFrom n (a ∷ rest) =
    (a.status ≡ failed) × (a.consecutive_failures ≡ some (n + 1)) × FailsFrom (n + 1) rest

-- However many attempts of a league fail in a row, each recorded with one failure more than were stored,
-- as the worker does, the time of its last success and what that refreshed stay, and so do its status
-- and its link to an account: a failing league is never deactivated. The count of consecutive failures
-- grows by the number of the attempts.
pub failures_keep_progress :
    (league : String) (attempts : List SyncAttempt) (s : StoreShape) (c d : LeagueConnection)
    → FailsFrom c.consecutive_failures attempts
    → league_connection league s ≡ some c
    → league_connection league (record_all league attempts s) ≡ some d
    → IsStillAt (length attempts) c d
unfolding attempted
failures_keep_progress league [] s c d h e e' = ground arith
failures_keep_progress league (a ∷ rest) s c d h e e' =
    let (fell, counted, others) = h in
    let more : (attempted a c).consecutive_failures ≡ c.consecutive_failures + 1 = ground arith in
    let ih =
      failures_keep_progress league rest (record_league_sync_attempt league a s) (attempted a c) d
        (subst (λ n. FailsFrom n rest) (sym more) others) (record-lookup league a s c e) e' in
    ground (arith, fell, more, ih)
