-- ===== src/Store/Rosters.antt =====
-- The roster history of store.ts, as the list that the document keeps: appended once for an id, read
-- newest first, and pruned beyond a number of observations of a roster and week.
use sleeper_ff.Prelude.{
  ℕ, ◌+◌, ◌-◌, String, Bool, true, not, ◌&&◌, Option, none, some, List, [], ◌∷◌, str_eq, ltb, ◌==◌,
  if◌then◌else◌, or_else, keep, length, includes, take,
}
use sleeper_ff.Prelude.Assoc.{Assoc, lookup, insert}
use sleeper_ff.Records.{Stamp, RosterObservation}
use sleeper_ff.Store.Sync.{append_observations}

-- `recordRosterObservations`: how many are new, and the history
unfoldable pub record_roster_observations :
    List RosterObservation → List RosterObservation → ℕ × List RosterObservation
record_roster_observations observations history =
    let after = append_observations observations history in (length after - length history, after)

-- The stable sort by `observedAt`, newest first
unfoldable pub place_newest : RosterObservation → List RosterObservation → List RosterObservation
place_newest a [] = a ∷ []
place_newest a (b ∷ bs) =
    if ltb a.observed_at b.observed_at then b ∷ place_newest a bs else a ∷ b ∷ bs

unfoldable pub sort_newest : List RosterObservation → List RosterObservation
sort_newest [] = []
sort_newest (a ∷ rest) = place_newest a (sort_newest rest)

pub record RosterHistoryQuery : Type 0 where
  pub season : Option String
  pub week : Option ℕ
  pub roster_id : Option ℕ
  pub limit : Option ℕ

abbrev same_text : Option String → String → Bool
same_text none s = true
same_text (some q) s = str_eq s q

abbrev same_number : Option ℕ → ℕ → Bool
same_number none n = true
same_number (some q) n = n == q

abbrev limited : Option ℕ → List RosterObservation → List RosterObservation
limited none os = os
limited (some n) os = take n os

-- `rosterHistory`
unfoldable pub roster_history :
    String → RosterHistoryQuery → List RosterObservation → List RosterObservation
roster_history league_id q history = limited q.limit (
    sort_newest (
      keep
        (λ (v : RosterObservation).
          (str_eq v.league_id league_id && same_text q.season v.season)
          && (same_number q.week v.week && same_number q.roster_id v.roster_id))
        history))

module _ (key : RosterObservation → String) (before : Stamp) (keep_per_week : ℕ) where
  -- The ids to drop, of observations that come newest first; `key` is their league, roster, season and
  -- week.
  unfoldable pub dropped : Assoc ℕ → List RosterObservation → List String
  dropped ranks [] = []
  dropped ranks (v ∷ rest) =
      let rank = or_else (lookup (key v) ranks) 0 + 1 in
      let more = dropped (insert (key v) rank ranks) rest in
      if ltb keep_per_week rank && ltb v.observed_at before then v.id ∷ more else more

  -- `pruneRosterHistory`
  unfoldable pub prune_roster_history : List RosterObservation → ℕ × List RosterObservation
  prune_roster_history history =
      let drop = dropped [] (sort_newest history) in
      (length drop, keep (λ (v : RosterObservation). not (includes v.id drop)) history)
