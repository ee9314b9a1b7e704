-- ===== src/Store/Leases/Handles.antt =====
-- Acquiring and releasing through the lock of apps/api/src/scheduler/lock.ts.
use sleeper_ff.Prelude.{
  ℕ, ◌+◌, ◌<◌, ◌≡◌, not, ◌&&◌, refl, ◌≢◌, String, true, none, some, arith, eq_iff, eq_refl, str_eq,
  false, Bool-cases, inl, inr, ◌∙◌,
}
use sleeper_ff.Prelude.Assoc.{lookup, lookup-insert, lookup-remove}
use sleeper_ff.Records.{SyncLease, Stamp}
use sleeper_ff.Store.{StoreShape}
use sleeper_ff.Store.Leases.{
  LeaseHandle, acquire, acquire_lease, release, release_lease, acquired, live, owned_by,
}
use sleeper_ff.Store.Leases.Exclusion.{owner_at, owned_by_iff}

module _ (owner key : String) (ttl now : ℕ) (s : StoreShape) where
  -- A live lease of another owner is refused, and the store stays as it is.
  pub acquire-held :
      (lease : SyncLease)
      → lookup key s.leases ≡ some lease
      → now < lease.expires_at
      → lease.owner ≢ owner
      → acquire owner key ttl now s ≡ (none, s)
  unfolding acquire acquire_lease
  acquire-held lease e l other =
      let blocked : (live now (some lease) && not (owned_by owner (some lease))) ≡ true =
        ground (arith, eq_iff lease.owner owner) in
      rw (e, blocked) refl

  given : SyncLease
  given = record {
    key = key;
    owner = owner;
    acquired_at = acquired now (lookup key s.leases);
    expires_at = now + ttl;
  }

  -- A handle is one of its owner for its key, and the store then has the owner's lease.
  pub acquire-given :
      (h : LeaseHandle)
      → (acquire owner key ttl now s).0 ≡ some h
      → (h.key ≡ key)
        × (h.owner ≡ owner)
        × (owner_at (lookup key (acquire owner key ttl now s).1.leases) ≡ some owner)
        × ((acquire owner key ttl now s).1.league_connections ≡ s.league_connections)
  unfolding acquire acquire_lease given
  acquire-given h e =
      let stored = lookup-insert key key given s.leases in
      ((ground arith), (ground arith), (ground (arith, stored, eq_refl key)), (ground arith))

-- A lease in its owner's hands is gone once it is released.
pub release-lookup :
    (h : LeaseHandle) (t : StoreShape)
    → owner_at (lookup h.key t.leases) ≡ some h.owner
    → lookup h.key (release h t).leases ≡ none
unfolding release release_lease
release-lookup h t e =
    let mine : owned_by h.owner (lookup h.key t.leases) ≡ true =
      (owned_by_iff h.owner (lookup h.key t.leases)).1 e in
    rw mine (ground (arith, lookup-remove h.key h.key t.leases, eq_refl h.key))

-- Asking for a lease, and giving it up, leaves every other one alone.
pub acquire_lease-other :
    (key owner : String) (ttl : ℕ) (now : Stamp) (s : StoreShape) (k : String)
    → str_eq key k ≡ false
    → lookup k (acquire_lease key owner ttl now s).1.leases ≡ lookup k s.leases
unfolding acquire_lease
acquire_lease-other key owner ttl now s k other =
    let held = lookup key s.leases in
    let lease : SyncLease = record {
      key = key;
      owner = owner;
      acquired_at = acquired now held;
      expires_at = now + ttl;
    } in
    elim (Bool-cases (live now held && not (owned_by owner held))) [
      | inl taken ↦ rw taken refl
      | inr free ↦ rw free (lookup-insert key k lease s.leases ∙ (rw other refl))
    ]

pub release_lease-other :
    (key owner : String) (s : StoreShape) (k : String)
    → str_eq key k ≡ false
    → lookup k (release_lease key owner s).leases ≡ lookup k s.leases
unfolding release_lease
release_lease-other key owner s k other = elim (Bool-cases (owned_by owner (lookup key s.leases))) [
  | inl mine ↦ rw mine (lookup-remove key k s.leases ∙ (rw other refl))
  | inr foreign ↦ rw foreign refl
]
