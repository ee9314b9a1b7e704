-- ===== src/Store/Sync/Histories.antt =====
-- The append-only histories that `applySync` of store.ts writes.
use sleeper_ff.Prelude.{
  ◌≡◌, refl, ◌∙◌, ap, String, Bool, true, ◌||◌, Option, none, some, List, [], ◌∷◌, ◌++◌, arith,
  str_eq, eq_iff, eq_refl, if◌then◌else◌, or_else, any, All, Bool-cases, inl, inr,
}
use sleeper_ff.Records.{SyncWrite, RosterObservation, WeeklySnapshot, ScoringConfiguration}
use sleeper_ff.Store.{StoreShape}
use sleeper_ff.Store.Sync.{publish, append_new, append_observations}
use sleeper_ff.Store.Sync.Publishing.{write_league-kept}

-- Whether an observation with the id is recorded.
abbrev pub has : String → List RosterObservation → Bool
has id os = any (λ (v : RosterObservation). str_eq v.id id) os

has_end :
    (id : String) (os : List RosterObservation) (o : RosterObservation)
    → has id (os ++ o ∷ []) ≡ (has id os || str_eq o.id id)
has_end id [] o = ground arith
has_end id (v ∷ os) o = ground (arith, has_end id os o)

-- One observation on its own, and what is recorded after it.
abbrev step : RosterObservation → List RosterObservation → List RosterObservation
step o old = if has o.id old then old else old ++ o ∷ []

has_same :
    (id id' : String) (old : List RosterObservation)
    → str_eq id id' ≡ true
    → has id old ≡ has id' old
has_same id id' old e = ap (λ i. has i old) ((eq_iff id id').0 e)

has-step :
    (id : String) (o : RosterObservation) (old : List RosterObservation)
    → has id (step o old) ≡ (str_eq o.id id || has id old)
has-step id o old = elim (Bool-cases (str_eq o.id id)) [
  | inl same ↦ ground (arith, has_same o.id id old same, has_end id old o)
  | inr other ↦ ground (arith, has_end id old o)
]

has-append_observations :
    (id : String) (os old : List RosterObservation)
    → has id (append_observations os old) ≡ (has id os || has id old)
unfolding append_observations
has-append_observations id [] old = refl
has-append_observations id (o ∷ os) old =
    ground (arith, has-append_observations id os (step o old), has-step id o old)

append_observations-recorded :
    (os old : List RosterObservation)
    → All (λ (o : RosterObservation). has o.id old ≡ true) os
    → append_observations os old ≡ old
unfolding append_observations
append_observations-recorded [] old h = refl
append_observations-recorded (o ∷ os) old h = rw h.0 (append_observations-recorded os old h.1)

-- Every observation of a list is recorded where all of the list is.
recorded_in :
    (os all_of old : List RosterObservation)
    → ((id : String) → has id os ≡ true → has id all_of ≡ true)
    → All (λ (o : RosterObservation). has o.id (append_observations all_of old) ≡ true) os
recorded_in [] all_of old sub = tt
recorded_in (o ∷ os) all_of old sub =
    let there : has o.id all_of ≡ true = sub o.id (ground (arith, eq_refl o.id)) in
    (
      ground (arith, has-append_observations o.id all_of old),
      recorded_in os all_of old (λ id h. sub id (ground arith)),
    )

any_end :
    (w : WeeklySnapshot) (old : List WeeklySnapshot)
    → any (λ (v : WeeklySnapshot). str_eq v.id w.id) (old ++ w ∷ []) ≡ true
any_end w [] = ground (arith, eq_refl w.id)
any_end w (v ∷ old) = ground (arith, any_end w old)

append_new-again :
    (w : Option WeeklySnapshot) (old : List WeeklySnapshot)
    → append_new w (append_new w old) ≡ append_new w old
append_new-again none old = refl
append_new-again (some w) old =
    elim (Bool-cases (any (λ (v : WeeklySnapshot). str_eq v.id w.id) old)) [
      | inl there ↦ rw (there, there) refl
      | inr new ↦ rw new (rw (any_end w old) refl)
    ]

publish-roster_history :
    (snapshot_id : ScoringConfiguration → String) (w : SyncWrite) (s : StoreShape)
    → (publish snapshot_id w s).roster_history
      ≡ append_observations (or_else w.roster_observations []) s.roster_history
unfolding publish
publish-roster_history snapshot_id w s =
    ap (append_observations (or_else w.roster_observations []))
      (write_league-kept snapshot_id w.league s).2

publish-weekly_snapshots :
    (snapshot_id : ScoringConfiguration → String) (w : SyncWrite) (s : StoreShape)
    → (publish snapshot_id w s).weekly_snapshots ≡ append_new w.weekly_snapshot s.weekly_snapshots
unfolding publish
publish-weekly_snapshots snapshot_id w s =
    ap (append_new w.weekly_snapshot) (write_league-kept snapshot_id w.league s).1

-- A write that is applied a second time adds nothing to the histories: an observation or a weekly
-- snapshot is recorded once for its id, however often it is synchronized.
pub publish_again :
    (snapshot_id : ScoringConfiguration → String) (w : SyncWrite) (s : StoreShape)
    → ((publish snapshot_id w (publish snapshot_id w s)).roster_history
        ≡ (publish snapshot_id w s).roster_history)
      × ((publish snapshot_id w (publish snapshot_id w s)).weekly_snapshots
          ≡ (publish snapshot_id w s).weekly_snapshots)
publish_again snapshot_id w s =
    let os = or_else w.roster_observations [] in
    let once = publish snapshot_id w s in
    (
      publish-roster_history snapshot_id w once
          ∙ (rw (publish-roster_history snapshot_id w s) (
              append_observations-recorded os (append_observations os s.roster_history)
                (recorded_in os os s.roster_history (λ id h. h)))),
      publish-weekly_snapshots snapshot_id w once
          ∙ (rw (publish-weekly_snapshots snapshot_id w s)
              (append_new-again w.weekly_snapshot s.weekly_snapshots)),
    )
