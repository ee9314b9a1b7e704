-- ===== src/Players/Leasing.antt =====
-- The lease of the refresh of apps/api/src/players.ts is given back on every path.
use sleeper_ff.Prelude.{
  ◌+◌, ◌≡◌, refl, ap, sym, ◌∙◌, String, Bool, true, Bool-cases, inl, inr, Option, none, some, List,
  str_eq, eq_refl, ◌*◌, Option-cases, false,
}
use sleeper_ff.Prelude.Assoc.{lookup, lookup-insert, lookup-remove}
use sleeper_ff.Records.{Stamp, NflPlayer, PlayerMetadataState}
use sleeper_ff.Store.{StoreShape}
use sleeper_ff.Store.Leases.{acquire_lease, release_lease, owned_by}
use sleeper_ff.Store.Directory.{player_metadata_of, save_player_directory}
use sleeper_ff.SleeperClient.{Outcome, returned, threw}
use sleeper_ff.Players.{
  start_refresh, is_due, start_under_lease, started, skipped, SyncLease, lease_key, perform_refresh,
  store_answer, Start, normalize_answer, finish_refresh, while_fetching, start_with,
}
use sleeper_ff.Players.Normalizing.{RawDirectory}
use sleeper_ff.Store.Leases.Handles.{acquire_lease-other, release_lease-other}

abbrev owned_or_free : String → Option SyncLease → Bool
owned_or_free owner none = true
owned_or_free owner (some lease) = str_eq lease.owner owner

release_lease-free :
    (owner : String) (s : StoreShape)
    → owned_or_free owner (lookup lease_key s.leases) ≡ true
    → lookup lease_key (release_lease lease_key owner s).leases ≡ none
unfolding release_lease
release_lease-free owner s h = elim (Option-cases (lookup lease_key s.leases)) [
  | inl free ↦ rw (free) free
  | inr (lease, held) ↦
      let mine : owned_by owner (lookup lease_key s.leases) ≡ true =
        ap (owned_by owner) held ∙ ap (owned_or_free owner) (sym held) ∙ h in
      rw mine (lookup-remove lease_key lease_key s.leases)
]

-- What the lease is when the request begins, or is given up
abbrev IsHandled : String → Start → Option SyncLease → Type 0
IsHandled owner skipped o = o ≡ none
IsHandled owner (started previous) o = owned_or_free owner o ≡ true

start_under_lease-IsHandled :
    (now : Stamp) (owner : String) (s : StoreShape)
    → owned_or_free owner (lookup lease_key s.leases) ≡ true
    → IsHandled owner
        (start_under_lease now owner s).0
        (lookup lease_key (start_under_lease now owner s).1.leases)
unfolding start_under_lease save_player_directory
start_under_lease-IsHandled now owner s h = elim (Bool-cases (is_due now (player_metadata_of s))) [
  | inl due ↦ rw due h
  | inr early ↦ rw early (release_lease-free owner s h)
]

acquire_lease-owned :
    (now : Stamp) (owner : String) (s : StoreShape)
    → lookup lease_key s.leases ≡ none
    → (lease : SyncLease) × ((acquire_lease lease_key owner (5 * 60000) now s).0 ≡ some lease)
      × (owned_or_free owner
            (lookup lease_key (acquire_lease lease_key owner (5 * 60000) now s).1.leases)
          ≡ true)
unfolding acquire_lease
acquire_lease-owned now owner s h =
    let lease : SyncLease = record {
      key = lease_key;
      owner = owner;
      acquired_at = now;
      expires_at = now + 5 * 60000;
    } in
    (
      lease,
      (rw h refl),
      rw h (
          ap (owned_or_free owner) (lookup-insert lease_key lease_key lease s.leases)
          ∙ eq_refl owner),
    )

start_refresh-IsHandled :
    (now : Stamp) (owner : String) (s : StoreShape)
    → lookup lease_key s.leases ≡ none
    → IsHandled owner
        (start_refresh now owner s).0
        (lookup lease_key (start_refresh now owner s).1.leases)
unfolding start_refresh
start_refresh-IsHandled now owner s h = elim (Bool-cases (is_due now (player_metadata_of s))) [
  | inr early ↦ rw early h
  | inl due ↦
      let (lease, got, owned) = acquire_lease-owned now owner s h in
      rw (due, got)
        (start_under_lease-IsHandled now owner (acquire_lease lease_key owner (5 * 60000) now s).1
          owned)
]

store_answer-leases :
    (now : Stamp) (previous : Option PlayerMetadataState) (o : Outcome (List NflPlayer))
    (x : StoreShape)
    → (store_answer now previous o x).1.leases ≡ x.leases
unfolding store_answer save_player_directory
store_answer-leases now previous (returned players) x = refl
store_answer-leases now previous (threw e) x = refl

finish_refresh-free :
    (now : Stamp) (owner : String) (answer : Outcome RawDirectory)
    (others : StoreShape → StoreShape) (d : Start) (x : StoreShape)
    → ((y : StoreShape) → (others y).leases ≡ y.leases)
    → IsHandled owner d (lookup lease_key x.leases)
    → lookup lease_key (finish_refresh now owner answer d (while_fetching others d x)).1.leases
      ≡ none
finish_refresh-free now owner answer others skipped x keeps h = h
finish_refresh-free now owner answer others (started previous) x keeps h =
    let stored = store_answer now previous (normalize_answer now answer) (others x) in
    release_lease-free owner stored.1 (
      ap (λ leases. owned_or_free owner (lookup lease_key leases))
        (store_answer-leases now previous (normalize_answer now answer) (others x) ∙ keeps x)
      ∙ h)

-- Where nobody holds the lease before, and nobody else writes it during the request, nobody holds it
-- after a refresh, however that ended.
pub refresh_releases :
    (now : Stamp) (owner : String) (answer : Outcome RawDirectory)
    (others : StoreShape → StoreShape) (s : StoreShape)
    → ((x : StoreShape) → (others x).leases ≡ x.leases)
    → lookup lease_key s.leases ≡ none
    → lookup lease_key (perform_refresh now owner answer others s).1.leases ≡ none
unfolding perform_refresh
refresh_releases now owner answer others s keeps h =
    finish_refresh-free now owner answer others (start_refresh now owner s).0
      (start_refresh now owner s).1 keeps (start_refresh-IsHandled now owner s h)

module _ (k : String) (other : str_eq lease_key k ≡ false) where
  start_under_lease-other :
      (now : Stamp) (owner : String) (s : StoreShape)
      → lookup k (start_under_lease now owner s).1.leases ≡ lookup k s.leases
  unfolding start_under_lease save_player_directory
  start_under_lease-other now owner s = elim (Bool-cases (is_due now (player_metadata_of s))) [
    | inl due ↦ rw due refl
    | inr early ↦ rw early (release_lease-other lease_key owner s k other)
  ]

  start_with-other :
      (now : Stamp) (owner : String) (o : Option SyncLease) (s : StoreShape)
      → lookup k (start_with now owner o s).1.leases ≡ lookup k s.leases
  start_with-other now owner none s = refl
  start_with-other now owner (some lease) s = start_under_lease-other now owner s

  start_refresh-other :
      (now : Stamp) (owner : String) (s : StoreShape)
      → lookup k (start_refresh now owner s).1.leases ≡ lookup k s.leases
  unfolding start_refresh
  start_refresh-other now owner s = elim (Bool-cases (is_due now (player_metadata_of s))) [
    | inr early ↦ rw early refl
    | inl due ↦
        let asked = acquire_lease lease_key owner (5 * 60000) now s in
        rw due (
          start_with-other now owner asked.0 asked.1
          ∙ acquire_lease-other lease_key owner (5 * 60000) now s k other)
  ]

  finish_refresh-other :
      (now : Stamp) (owner : String) (answer : Outcome RawDirectory)
      (others : StoreShape → StoreShape) (d : Start) (x : StoreShape)
      → ((y : StoreShape) → (others y).leases ≡ y.leases)
      → lookup k (finish_refresh now owner answer d (while_fetching others d x)).1.leases
        ≡ lookup k x.leases
  finish_refresh-other now owner answer others skipped x keeps = refl
  finish_refresh-other now owner answer others (started previous) x keeps =
      let stored = store_answer now previous (normalize_answer now answer) (others x) in
      release_lease-other lease_key owner stored.1 k other
      ∙ ap (lookup k)
          (store_answer-leases now previous (normalize_answer now answer) (others x) ∙ keeps x)

  -- A refresh leaves every lease but its own as it was, on every path.
  pub perform_refresh-other :
      (now : Stamp) (owner : String) (answer : Outcome RawDirectory)
      (others : StoreShape → StoreShape) (s : StoreShape)
      → ((x : StoreShape) → (others x).leases ≡ x.leases)
      → lookup k (perform_refresh now owner answer others s).1.leases ≡ lookup k s.leases
  unfolding perform_refresh
  perform_refresh-other now owner answer others s keeps =
      let begun = start_refresh now owner s in
      finish_refresh-other now owner answer others begun.0 begun.1 keeps
      ∙ start_refresh-other now owner s
