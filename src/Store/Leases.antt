-- ===== src/Store/Leases.antt =====
-- The leases of store.ts (`acquireLease`, `releaseLease`, `lease`), and `StoreSyncLock` of
-- apps/api/src/scheduler/lock.ts, which hands them out.
pub mod Exclusion
pub mod Handles
use sleeper_ff.Prelude.{
  ℕ, ◌+◌, String, Bool, false, true, not, ◌&&◌, Option, none, some, str_eq, ltb, if◌then◌else◌,
  is_some, or_else,
}
use sleeper_ff.Prelude.Assoc.{lookup, insert, remove}
use sleeper_ff.Records.{SyncLease, Stamp}
use sleeper_ff.Store.{StoreShape}

-- `held && Date.parse(held.expiresAt) > now.getTime()`
abbrev pub live : Stamp → Option SyncLease → Bool
live now none = false
live now (some held) = ltb now held.expires_at

abbrev pub owned_by : String → Option SyncLease → Bool
owned_by owner none = false
owned_by owner (some held) = str_eq held.owner owner

-- A renewal by the owner of a live lease keeps the time at which it was acquired.
abbrev pub acquired : Stamp → Option SyncLease → Stamp
acquired now none = now
acquired now (some held) = if ltb now held.expires_at then held.acquired_at else now

unfoldable pub acquire_lease :
    String → String → ℕ → Stamp → StoreShape → Option SyncLease × StoreShape
acquire_lease key owner ttl_ms now s =
    let held = lookup key s.leases in
    if live now held && not (owned_by owner held)
    then (none, s)
    else (let lease : SyncLease = record {
      key = key;
      owner = owner;
      acquired_at = acquired now held;
      expires_at = now + ttl_ms;
    } in
        (some lease, record s { leases = insert key lease s.leases }))

unfoldable pub release_lease : String → String → StoreShape → StoreShape
release_lease key owner s =
    if owned_by owner (lookup key s.leases) then record s { leases = remove key s.leases } else s

-- `lease(key)`
unfoldable pub lease_at : String → StoreShape → Option SyncLease
lease_at key s = lookup key s.leases

-- A lease in the hands of its holder. `expiresAt` is the handle's own copy of the deadline.
pub record LeaseHandle : Type 0 where
  pub key : String
  pub owner : String
  pub ttl_ms : ℕ
  pub expires_at : Stamp

abbrev pub handle_of : String → String → ℕ → Option SyncLease → Option LeaseHandle
handle_of key owner ttl_ms none = none
handle_of key owner ttl_ms (some lease) =
    some (record { key = key; owner = owner; ttl_ms = ttl_ms; expires_at = lease.expires_at })

-- `StoreSyncLock.acquire` for the lock's owner at the lock's clock.
unfoldable pub acquire : String → String → ℕ → Stamp → StoreShape → Option LeaseHandle × StoreShape
unfolding acquire_lease
acquire owner key ttl_ms now s =
    let (lease, s') = acquire_lease key owner ttl_ms now s in (handle_of key owner ttl_ms lease, s')

abbrev extended : LeaseHandle → Option SyncLease → LeaseHandle
extended h none = h
extended h (some lease) = record h { expires_at = lease.expires_at }

-- `handle.renew(renewMs)`: whether the lease is still held, with the handle brought up to date.
unfoldable pub renew : LeaseHandle → Option ℕ → Stamp → StoreShape → Bool × LeaseHandle × StoreShape
unfolding acquire_lease
renew h renew_ms now s =
    let (lease, s') = acquire_lease h.key h.owner (or_else renew_ms h.ttl_ms) now s in
    (is_some lease, extended h lease, s')

-- `handle.release()`
unfoldable pub release : LeaseHandle → StoreShape → StoreShape
unfolding release_lease
release h s = release_lease h.key h.owner s
