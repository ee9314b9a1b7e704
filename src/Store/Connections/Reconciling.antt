-- ===== src/Store/Connections/Reconciling.antt =====
-- What `reconcileLeagueConnections` of store.ts promises: the connection set follows the accounts.
use sleeper_ff.Prelude.{
  ◌≡◌, refl, ap, String, Bool, true, false, Option, none, some, List, [], ◌∷◌, arith, str_eq,
  if◌then◌else◌, includes, ◌||◌,
}
use sleeper_ff.Prelude.Assoc.{
  Assoc, Every, Every-insert, Every-lookup, lookup, lookup-insert, lookup-map_values, insert,
}
use sleeper_ff.Records.{Stamp, League, LeagueConnection}
use sleeper_ff.Store.{StoreShape}
use sleeper_ff.Store.Connections.{
  is_active, new_connection, season_of, relinked, link_one, link_all, unlinked, linked_league_ids,
  reconcile_league_connections,
}

-- Each connection is stored under its league's id.
abbrev pub HasKeyedConnections : Assoc LeagueConnection → Type 0
HasKeyedConnections = Every (λ k c. c.league_id ≡ k)

abbrev linked_in : Option LeagueConnection → Bool
linked_in none = false
linked_in (some c) = c.linked

-- Whether the league `k` is connected and linked.
abbrev pub linked_at : String → Assoc LeagueConnection → Bool
linked_at k cs = linked_in (lookup k cs)

module _ (at : Stamp) (demo_ids : List String) (leagues : Assoc League) where
  -- What a round stores for its league, in place of `o`.
  abbrev stored : String → Option LeagueConnection → LeagueConnection
  stored id none = new_connection id (includes id demo_ids) true (season_of (lookup id leagues)) at
  stored id (some c) = relinked (includes id demo_ids) at c

  link_one-eq :
      (id : String) (cs : Assoc LeagueConnection)
      → link_one at demo_ids leagues id cs ≡ insert id (stored id (lookup id cs)) cs
  unfolding link_one
  link_one-eq id cs = ground arith

  stored-linked : (id : String) (o : Option LeagueConnection) → (stored id o).linked ≡ true
  stored-linked id o = ground arith

  stored-keyed :
      (id : String) (cs : Assoc LeagueConnection)
      → HasKeyedConnections cs
      → (stored id (lookup id cs)).league_id ≡ id
  stored-keyed id cs h = keyed (lookup id cs) (λ c e. Every-lookup _ id cs h e)
    where
      keyed :
          (o : Option LeagueConnection)
          → ((c : LeagueConnection) → o ≡ some c → c.league_id ≡ id)
          → (stored id o).league_id ≡ id
      keyed none k = refl
      keyed (some c) k = let same = k c refl in ground arith

  linked_at-link_one :
      (k id : String) (cs : Assoc LeagueConnection)
      → linked_at k (link_one at demo_ids leagues id cs)
        ≡ (if str_eq id k then true else linked_at k cs)
  linked_at-link_one k id cs =
      rw (link_one-eq, lookup-insert) (ground (arith, stored-linked id (lookup id cs)))

  link_one-HasKeyedConnections :
      (id : String) (cs : Assoc LeagueConnection)
      → HasKeyedConnections cs
      → HasKeyedConnections (link_one at demo_ids leagues id cs)
  link_one-HasKeyedConnections id cs h =
      rw link_one-eq (Every-insert _ id (stored id (lookup id cs)) cs (stored-keyed id cs h) h)

  link_all-HasKeyedConnections :
      (ids : List String) (cs : Assoc LeagueConnection)
      → HasKeyedConnections cs
      → HasKeyedConnections (link_all at demo_ids leagues ids cs)
  unfolding link_all
  link_all-HasKeyedConnections [] cs h = h
  link_all-HasKeyedConnections (id ∷ ids) cs h =
      link_all-HasKeyedConnections ids (link_one at demo_ids leagues id cs)
        (link_one-HasKeyedConnections id cs h)

  -- After the loop every league it went through is connected and linked.
  linked_at-link_all :
      (k : String) (ids : List String) (cs : Assoc LeagueConnection)
      → (includes k ids || linked_at k cs) ≡ true
      → linked_at k (link_all at demo_ids leagues ids cs) ≡ true
  unfolding link_all
  linked_at-link_all k [] cs h = h
  linked_at-link_all k (id ∷ ids) cs h = ground (
    arith,
    linked_at-link_one k id cs,
    linked_at-link_all k ids (link_one at demo_ids leagues id cs),
  )

-- What is stored for league `k` in place of `o`, once the leagues not in `linked` are unlinked.
abbrev after_unlinking : Stamp → List String → Option LeagueConnection → Option LeagueConnection
after_unlinking at linked o = elim o [ none ↦ none | some v ↦ some (unlinked at linked v) ]

unlinked_exact :
    (at : Stamp) (linked : List String) (k : String) (o : Option LeagueConnection)
    → ((c : LeagueConnection) → o ≡ some c → c.league_id ≡ k)
    → (includes k linked ≡ true → linked_in o ≡ true)
    → linked_in (after_unlinking at linked o) ≡ includes k linked
unfolding unlinked
unlinked_exact at linked k none keyed all = ground arith
unlinked_exact at linked k (some v) keyed all =
    let same : includes v.league_id linked ≡ includes k linked =
      ap (λ x. includes x linked) (keyed v refl) in
    ground (arith, same, all)

unlinked_scheduled :
    (at : Stamp) (linked : List String) (k : String) (o : Option LeagueConnection)
    (c : LeagueConnection)
    → ((c : LeagueConnection) → o ≡ some c → c.league_id ≡ k)
    → after_unlinking at linked o ≡ some c
    → is_active c.status ≡ true
    → includes k linked ≡ true
unfolding unlinked
unlinked_scheduled at linked k none c keyed e act = cc
unlinked_scheduled at linked k (some v) c keyed e act =
    let same : includes v.league_id linked ≡ includes k linked =
      ap (λ x. includes x linked) (keyed v refl) in
    ground (arith, same)

reconciled :
    (at : Stamp) (demo_ids : List String) (s : StoreShape) (k : String)
    → HasKeyedConnections s.league_connections
    → let cs = (reconcile_league_connections at demo_ids s).league_connections in
      (linked_at k cs ≡ includes k (linked_league_ids s))
      × ((c : LeagueConnection)
          → lookup k cs ≡ some c
          → is_active c.status ≡ true
          → includes k (linked_league_ids s) ≡ true)
unfolding reconcile_league_connections
reconciled at demo_ids s k h =
    let linked = linked_league_ids s in
    let after = link_all at demo_ids s.leagues linked s.league_connections in
    let keyed = link_all-HasKeyedConnections at demo_ids s.leagues linked s.league_connections h in
    let own =
      λ (c : LeagueConnection) (e : lookup k after ≡ some c). Every-lookup _ k after keyed e in
    let all = λ (i : includes k linked ≡ true).
      linked_at-link_all at demo_ids s.leagues k linked s.league_connections (ground arith) in
    rw lookup-map_values (
      unlinked_exact at linked k (lookup k after) own all,
      λ c e act. unlinked_scheduled at linked k (lookup k after) c own e act,
    )

-- Reconciling leaves a league linked exactly when some account links it, whatever the connections,
-- each under its own league's id, were before.
pub reconcile_exact :
    (at : Stamp) (demo_ids : List String) (s : StoreShape) (k : String)
    → HasKeyedConnections s.league_connections
    → linked_at k (reconcile_league_connections at demo_ids s).league_connections
      ≡ includes k (linked_league_ids s)
reconcile_exact at demo_ids s k h = (reconciled at demo_ids s k h).0

-- A connection that is still active after reconciling is of a league that some account links: no
-- league that nobody links is scheduled.
pub reconcile_scheduled :
    (at : Stamp) (demo_ids : List String) (s : StoreShape) (k : String) (c : LeagueConnection)
    → HasKeyedConnections s.league_connections
    → lookup k (reconcile_league_connections at demo_ids s).league_connections ≡ some c
    → is_active c.status ≡ true
    → includes k (linked_league_ids s) ≡ true
reconcile_scheduled at demo_ids s k c h e a = (reconciled at demo_ids s k h).1 c e a
