-- ===== src/Store/Sync/Publishing.antt =====
-- What `applySync` of store.ts promises: a writer that lost its lease is refused, and traded
-- picks are replaced and not merged.
use sleeper_ff.Prelude.{
  ℕ, ◌+◌, ◌≡◌, refl, ◌≢◌, ◌∙◌, ap, sym, String, true, false, Option, none, some, List, [], arith,
  str_eq, eq_iff, eq_refl, or_else, any,
}
use sleeper_ff.Prelude.Assoc.{
  Assoc, insert, lookup, lookup-insert, lookup-upsert_other, lookup-remove_if_kept,
  lookup-remove_if_test, remove_if, upsert,
}
use sleeper_ff.Records.{
  League, SyncWrite, LeaseGuard, SyncLease, TradedDraftPick, ScoringConfiguration,
}
use sleeper_ff.Store.{StoreShape}
use sleeper_ff.Store.Leases.{acquire_lease, acquired}
use sleeper_ff.Store.Sync.{guard_passes, publish, apply_sync, cleared, observe, write_league}

module _ (o key : String) (ttl now : ℕ) (s : StoreShape) where
  abbrev given : SyncLease
  given = record {
    key = key;
    owner = o;
    acquired_at = acquired now (lookup key s.leases);
    expires_at = now + ttl;
  }

  -- A lease that was given is the one in the store.
  acquire_lease-lookup :
      {lease : SyncLease} (s' : StoreShape)
      → acquire_lease key o ttl now s ≡ (some lease, s')
      → lookup key s'.leases ≡ some given
  unfolding acquire_lease
  acquire_lease-lookup s' e = ground (arith, lookup-insert key key given s.leases, eq_refl key)

refused :
    (g : LeaseGuard) (s : StoreShape) (lease : SyncLease)
    → lookup g.key s.leases ≡ some lease
    → g.owner ≢ lease.owner
    → guard_passes (some g) s ≡ false
refused g s lease e other = ground (arith, eq_iff lease.owner g.owner)

-- Once another owner has been given the lease, a write that is guarded by the first owner's claim is
-- refused, whatever instant it names: the document stays as the other owner finds it.
pub stale_writer_refused :
    (snapshot_id : ScoringConfiguration → String) (w : SyncWrite) (g : LeaseGuard)
    (s s' : StoreShape) (o : String) (ttl now : ℕ) {lease : SyncLease}
    → w.lease_guard ≡ some g
    → acquire_lease g.key o ttl now s ≡ (some lease, s')
    → g.owner ≢ o
    → apply_sync snapshot_id w s' ≡ none
unfolding apply_sync
stale_writer_refused snapshot_id w g s s' o ttl now guarded e other =
    let no =
      refused g s' (given o g.key ttl now s) (acquire_lease-lookup o g.key ttl now s s' e) other in
    rw (guarded, no) refl

observe-kept :
    (snapshot_id : ScoringConfiguration → String) (l : League) (o : Option ScoringConfiguration)
    (s : StoreShape)
    → ((observe snapshot_id l o s).draft_picks ≡ s.draft_picks)
      × ((observe snapshot_id l o s).weekly_snapshots ≡ s.weekly_snapshots)
      × ((observe snapshot_id l o s).roster_history ≡ s.roster_history)
unfolding observe
observe-kept snapshot_id l none s = (refl, refl, refl)
observe-kept snapshot_id l (some c) s = (refl, refl, refl)

-- The league's own part of a write leaves the picks and the histories of rosters and weeks alone.
pub write_league-kept :
    (snapshot_id : ScoringConfiguration → String) (o : Option League) (s : StoreShape)
    → ((write_league snapshot_id o s).draft_picks ≡ s.draft_picks)
      × ((write_league snapshot_id o s).weekly_snapshots ≡ s.weekly_snapshots)
      × ((write_league snapshot_id o s).roster_history ≡ s.roster_history)
unfolding write_league
write_league-kept snapshot_id none s = (refl, refl, refl)
write_league-kept snapshot_id (some l) s =
    observe-kept snapshot_id l l.scoring (record s { leagues = insert l.id l s.leagues })

publish-draft_picks :
    (snapshot_id : ScoringConfiguration → String) (w : SyncWrite) (s : StoreShape)
    → (publish snapshot_id w s).draft_picks
      ≡ upsert
          (λ v. v.id)
          (or_else w.draft_picks [])
          (cleared w.replace_draft_picks_for_league w.draft_picks s.draft_picks)
unfolding publish
publish-draft_picks snapshot_id w s =
    ap
      (λ m.
        upsert (λ v. v.id) (or_else w.draft_picks [])
          (cleared w.replace_draft_picks_for_league w.draft_picks m))
      (write_league-kept snapshot_id w.league s).0

module _ (league : String) (picks : List TradedDraftPick) where
  replaced : Assoc TradedDraftPick → Assoc TradedDraftPick
  replaced m = upsert (λ v. v.id) picks (remove_if (λ p. str_eq p.league_id league) m)

  replaced_new :
      (k : String) (m : Assoc TradedDraftPick) (p : TradedDraftPick)
      → lookup k (replaced m) ≡ some p
      → p.league_id ≡ league
      → any (λ (v : TradedDraftPick). str_eq v.id k) picks ≡ true
  unfolding replaced
  replaced_new k m p e own = ground (
    arith,
    lookup-upsert_other (λ (v : TradedDraftPick). v.id) picks
        (remove_if (λ p. str_eq p.league_id league) m) k,
    lookup-remove_if_test (λ (p : TradedDraftPick). str_eq p.league_id league) k m {v = p},
    eq_iff p.league_id league,
  )

  replaced_kept :
      (k : String) (m : Assoc TradedDraftPick) (p : TradedDraftPick)
      → lookup k m ≡ some p
      → p.league_id ≢ league
      → any (λ (v : TradedDraftPick). str_eq v.id k) picks ≡ false
      → lookup k (replaced m) ≡ some p
  unfolding replaced
  replaced_kept k m p e other absent = ground (
    arith,
    lookup-upsert_other (λ (v : TradedDraftPick). v.id) picks
        (remove_if (λ p. str_eq p.league_id league) m) k,
    lookup-remove_if_kept (λ (p : TradedDraftPick). str_eq p.league_id league) k m {v = p},
    eq_iff p.league_id league,
  )

module _ (snapshot_id : ScoringConfiguration → String) (w : SyncWrite) (s : StoreShape)
    (league k : String) (picks : List TradedDraftPick) (p : TradedDraftPick)
    (which : w.replace_draft_picks_for_league ≡ some league) (named : league ≢ "")
    (given : w.draft_picks ≡ some picks) where
  published : (publish snapshot_id w s).draft_picks ≡ replaced league picks s.draft_picks
  published =
      let unnamed : str_eq league "" ≡ false = ground (arith, eq_iff league "") in
      publish-draft_picks snapshot_id w s ∙ (rw (which, given, unnamed) (unfold replaced in refl))

  -- A write that replaces the traded picks of a league, which it names by a text that is not empty, leaves no other picks there: a stored pick of
  -- the league has the id of one that the write carries, so a pick that was traded back disappears.
  pub publish_replaces_picks :
      lookup k (publish snapshot_id w s).draft_picks ≡ some p
      → p.league_id ≡ league
      → any (λ (v : TradedDraftPick). str_eq v.id k) picks ≡ true
  publish_replaces_picks e own =
      replaced_new league picks k s.draft_picks p (ap (lookup k) (sym published) ∙ e) own

  -- A write that replaces the traded picks of one league keeps each pick of another league, unless
  -- it carries a pick with the same id.
  pub publish_keeps_picks :
      lookup k s.draft_picks ≡ some p
      → p.league_id ≢ league
      → any (λ (v : TradedDraftPick). str_eq v.id k) picks ≡ false
      → lookup k (publish snapshot_id w s).draft_picks ≡ some p
  publish_keeps_picks e other absent =
      ap (lookup k) published ∙ replaced_kept league picks k s.draft_picks p e other absent
