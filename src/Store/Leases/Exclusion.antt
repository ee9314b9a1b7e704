-- ===== src/Store/Leases/Exclusion.antt =====
-- Mutual exclusion for the leases of store.ts: any number of owners acquire, renew and release
-- leases over one store while a clock runs.
use sleeper_ff.Prelude.{
  ℕ, ◌+◌, ◌<◌, ◌≡◌, ◌↔◌, String, true, ◌&&◌, Option, none, some, str_eq, eq_iff, if◌then◌else◌,
  arith,
}
use sleeper_ff.Prelude.Assoc.{lookup, lookup-insert, lookup-remove}
use sleeper_ff.Records.{SyncLease, Stamp}
use sleeper_ff.Store.{StoreShape, empty_store}
use sleeper_ff.Store.Leases.{live, owned_by, acquired, acquire_lease, release_lease}

-- What the owners know: until when each one counts on each lease.
abbrev pub Beliefs : Type 0
Beliefs = String → String → Option Stamp

abbrev pub believe : String → String → Option Stamp → Beliefs → Beliefs
believe o k e b o' k' = if str_eq o o' && str_eq k k' then e else b o' k'

pub record World : Type 0 where
  pub store : StoreShape
  pub now : Stamp
  pub believes : Beliefs

-- An owner that is answered with a lease counts on it until its deadline; a refusal tells it nothing.
abbrev told : String → String → Option SyncLease → Beliefs → Beliefs
told o k none b = b
told o k (some lease) b = believe o k (some lease.expires_at) b

abbrev pub after_acquire : String → String → ℕ → World → World
after_acquire o k ttl w =
    let (lease, s') = acquire_lease k o ttl w.now w.store in
    record w { store = s'; believes = told o k lease w.believes }

abbrev pub after_release : String → String → World → World
after_release o k w = record w {
  store = release_lease k o w.store;
  believes = believe o k none w.believes;
}

pub data Step : World → World → Type 0 where
  tick : (w : World) (n : ℕ) → Step w (record w { now = w.now + n })
  acquire : (w : World) (o k : String) (ttl : ℕ) → Step w (after_acquire o k ttl w)
  release : (w : World) (o k : String) → Step w (after_release o k w)

pub data Reach (start : World) : World → Type 0 where
  here : Reach start start
  next : {v w : World} → Reach start v → Step v w → Reach start w

abbrev pub owner_at : Option SyncLease → Option String
owner_at none = none
owner_at (some l) = some l.owner

abbrev pub deadline_at : Option SyncLease → Option Stamp
deadline_at none = none
deadline_at (some l) = some l.expires_at

pub owned_by_iff :
    (o : String) (held : Option SyncLease) → (owned_by o held ≡ true) ↔ (owner_at held ≡ some o)
owned_by_iff o none = (λ h. cc, λ h. cc)
owned_by_iff o (some l) =
    (λ h. ground (arith, eq_iff l.owner o), λ h. ground (arith, eq_iff l.owner o))

live-lt :
    (now e : Stamp) (held : Option SyncLease)
    → deadline_at held ≡ some e
    → now < e
    → live now held ≡ true
live-lt now e none h lt = cc
live-lt now e (some l) h lt = ground arith

-- An owner that counts on a lease whose deadline has not passed is the owner in the store.
pub record IsSound (w : World) : Type 0 where
  pub at :
      (o k : String) (e : Stamp)
      → w.believes o k ≡ some e
      → w.now < e
      → (owner_at (lookup k w.store.leases) ≡ some o)
        × (deadline_at (lookup k w.store.leases) ≡ some e)

acquire-IsSound :
    (w : World) (o k : String) (ttl : ℕ) → IsSound w → IsSound (after_acquire o k ttl w)
unfolding acquire_lease
acquire-IsSound w o k ttl h = record {
  at = λ o' k' e b lt.
      let lease : SyncLease = record {
        key = k;
        owner = o;
        acquired_at = acquired w.now (lookup k w.store.leases);
        expires_at = w.now + ttl;
      } in
      ground (
        arith,
        h.at o' k' e,
        lookup-insert k k' lease w.store.leases,
        eq_iff o o',
        eq_iff k k',
        owned_by_iff o (lookup k w.store.leases),
        live-lt w.now e (lookup k w.store.leases),
      );
}

release-IsSound : (w : World) (o k : String) → IsSound w → IsSound (after_release o k w)
unfolding release_lease
release-IsSound w o k h = record {
  at = λ o' k' e b lt. ground (
    arith,
    h.at o' k' e,
    lookup-remove k k' w.store.leases,
    eq_iff o o',
    eq_iff k k',
    owned_by_iff o (lookup k w.store.leases),
  );
}

Step-IsSound : {v w : World} → Step v w → IsSound v → IsSound w
Step-IsSound (tick w n) h = record { at = λ o k e b lt. h.at o k e b (omega arith) }
Step-IsSound (acquire w o k ttl) h = acquire-IsSound w o k ttl h
Step-IsSound (release w o k) h = release-IsSound w o k h

pub Reach-IsSound : {v w : World} → IsSound v → Reach v w → IsSound w
Reach-IsSound h here = h
Reach-IsSound h (next r s) = Step-IsSound s (Reach-IsSound h r)

-- An empty store, and owners that hold nothing.
abbrev pub start : World
start = record { store = empty_store; now = 0; believes = λ o k. none }

start-IsSound : IsSound start
start-IsSound = record { at = λ o k e b lt. cc }

-- From an empty store and under one clock, however the owners' calls interleave, no two different owners count on one lease at one time.
pub mutual_exclusion :
    {w : World} (k o o' : String) (e e' : Stamp)
    → Reach start w
    → w.believes o k ≡ some e
    → w.now < e
    → w.believes o' k ≡ some e'
    → w.now < e'
    → o ≡ o'
mutual_exclusion k o o' e e' r b lt b' lt' =
    let s = Reach-IsSound start-IsSound r in cc ((s.at o k e b lt).0, (s.at o' k e' b' lt').0)
