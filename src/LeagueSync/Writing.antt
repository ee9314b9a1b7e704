-- ===== src/LeagueSync/Writing.antt =====
-- What a publication of apps/api/src/sync.ts makes of the document, field by field.
use sleeper_ff.Prelude.{
  ◌≡◌, refl, arith, String, true, Bool-cases, inl, inr, Option, none, some, List, is_some, str_eq,
  not, eq_iff, or_else, [], ◌∷◌, ◌++◌, ◌&&◌, if◌then◌else◌, ◌<◌,
}
use sleeper_ff.Prelude.Assoc.{lookup, Assoc, upsert, remove_if}
use sleeper_ff.Records.{
  Stamp, League, ScoringConfiguration, LeaseGuard, Roster, Matchup, SyncWrite, SyncLease, User,
  Transaction, TradedDraftPick,
}
use sleeper_ff.Store.{StoreShape}
use sleeper_ff.Store.Sync.{
  apply_sync, observe, publish as publish_write, cleared, assign, guard_passes, holds,
}
use sleeper_ff.LeagueSync.Requests.{Keys, Fetched, entry, replaced}

-- Writing the league leaves everything but the leagues and their scoring history.
pub record IsBeside (s t : StoreShape) : Type 0 where
  pub users : t.users ≡ s.users
  pub players : t.players ≡ s.players
  pub rosters : t.rosters ≡ s.rosters
  pub matchups : t.matchups ≡ s.matchups
  pub transactions : t.transactions ≡ s.transactions
  pub draft_picks : t.draft_picks ≡ s.draft_picks
  pub freshness : t.freshness ≡ s.freshness
  pub leases : t.leases ≡ s.leases
  pub connections : t.league_connections ≡ s.league_connections

pub write_league-IsBeside :
    (snapshot_id : ScoringConfiguration → String) (league : League)
    (o : Option ScoringConfiguration) (s : StoreShape)
    → IsBeside s (observe snapshot_id league o s)
      × ((observe snapshot_id league o s).leagues ≡ s.leagues)
unfolding observe
write_league-IsBeside snapshot_id league none s = (
  record {
    users = refl;
    players = refl;
    rosters = refl;
    matchups = refl;
    transactions = refl;
    draft_picks = refl;
    freshness = refl;
    leases = refl;
    connections = refl;
  },
  refl,
)
write_league-IsBeside snapshot_id league (some scoring) s = (
  record {
    users = refl;
    players = refl;
    rosters = refl;
    matchups = refl;
    transactions = refl;
    draft_picks = refl;
    freshness = refl;
    leases = refl;
    connections = refl;
  },
  refl,
)

-- The document `t` that a publication of what was fetched makes of `p`: the lease is held at the
-- instant of the write, the league and all that was fetched are stored, traded picks in place of the
-- league's old ones, each with the time of the run, and the rest is as it was.
pub record IsPublished (keys : Keys) (at : Stamp) (guard : LeaseGuard) (league : League)
    (f : Fetched) (p t : StoreShape) : Type 0 where
  pub lease : SyncLease
  pub held : lookup guard.key p.leases ≡ some lease
  pub owned : lease.owner ≡ guard.owner
  pub live : guard.now < lease.expires_at
  pub stored : lookup league.id t.leagues ≡ some league
  pub users : t.users ≡ upsert (λ (v : User). v.id) (or_else f.users []) p.users
  pub rosters : t.rosters ≡ upsert (λ (v : Roster). v.id) (or_else f.rosters []) p.rosters
  pub matchups : t.matchups ≡ upsert (λ (v : Matchup). v.id) (or_else f.matchups []) p.matchups
  pub transactions :
      t.transactions ≡ upsert (λ (v : Transaction). v.id) (or_else f.transactions []) p.transactions
  pub draft_picks :
      t.draft_picks
      ≡ upsert
          (λ (v : TradedDraftPick). v.id)
          (or_else f.draft_picks [])
          (if is_some f.draft_picks && not (str_eq league.id "")
            then remove_if (λ (v : TradedDraftPick). str_eq v.league_id league.id) p.draft_picks
            else p.draft_picks)
  pub freshness :
      t.freshness
      ≡ assign p.freshness (
          (keys.league, at) ∷ (if is_some f.users then (keys.users, at) ∷ [] else [])
          ++ (if is_some f.rosters then (keys.rosters, at) ∷ [] else [])
          ++ (if is_some f.matchups then (keys.matchups, at) ∷ [] else [])
          ++ (if is_some f.transactions then (keys.transactions, at) ∷ [] else [])
          ++ (if is_some f.draft_picks then (keys.draft_picks, at) ∷ [] else []))
  pub players : t.players ≡ p.players
  pub leases : t.leases ≡ p.leases
  pub connections : t.league_connections ≡ p.league_connections

pub entry-if {ℓ} :
    {V : Type ℓ} (a : String × Stamp) (o : Option V)
    → entry a o ≡ (if is_some o then a ∷ [] else [])
entry-if a none = refl
entry-if a (some v) = refl

pub cleared-if :
    (league_id : String) (o : Option (List TradedDraftPick)) (m : Assoc TradedDraftPick)
    → cleared (replaced league_id o) o m ≡ (
        if is_some o && not (str_eq league_id "")
        then remove_if (λ (v : TradedDraftPick). str_eq v.league_id league_id) m
        else m)
cleared-if league_id none m = refl
cleared-if league_id (some picks) m = elim (Bool-cases (str_eq league_id "")) [
  | inl blank ↦ rw blank refl
  | inr named ↦ rw named refl
]

pub apply_sync-eq-some :
    (snapshot_id : ScoringConfiguration → String) (w : SyncWrite) (s : StoreShape) {s' : StoreShape}
    → apply_sync snapshot_id w s ≡ some s'
    → (guard_passes w.lease_guard s ≡ true) × (publish_write snapshot_id w s ≡ s')
unfolding apply_sync
apply_sync-eq-some snapshot_id w s e = elim (Bool-cases (guard_passes w.lease_guard s)) [
  | inl passes ↦ (passes, cc (rw passes at e))
  | inr lost ↦ cc (rw lost at e)
]

pub holds-lease :
    (g : LeaseGuard) (o : Option SyncLease)
    → holds g o ≡ true
    → (lease : SyncLease) × (o ≡ some lease) × (lease.owner ≡ g.owner) × (g.now < lease.expires_at)
holds-lease g none e = cc
holds-lease g (some lease) e =
    (lease, refl, ground (arith, eq_iff lease.owner g.owner), ground arith)
