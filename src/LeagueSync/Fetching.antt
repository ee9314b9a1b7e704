-- ===== src/LeagueSync/Fetching.antt =====
-- What a run of apps/api/src/sync.ts fetches.
use sleeper_ff.Prelude.{
  ◌≡◌, refl, arith, Bool, true, false, Bool-cases, inl, inr, Option, none, some, ℕ, ◌+◌, ◌≤◌, ◌⊎◌,
  subst, ◌*◌,
}
use sleeper_ff.Prelude.Assoc.{lookup}
use sleeper_ff.Records.{Stamp}
use sleeper_ff.Store.{StoreShape}
use sleeper_ff.SleeperClient.{Outcome, returned, threw}
use sleeper_ff.LeagueSync.{
  after_league, perform, commit, fail_with, keep_league, keys_for, log_sync, publish, write_of,
  season_id, success,
}
use sleeper_ff.LeagueSync.Requests.{
  Failure, fetch_all, obtain, Keys, Upstream, Fetched, is_stale, users_ms, rosters_ms, matchups_ms,
  transactions_ms, draft_picks_ms, is_due, Job, SyncResult, done, api, internal, refreshed_of,
  names_of,
}

-- A chain of requests that succeeds is one whose first request does.
pub >>=-eq-returned {ℓ κ} :
    {A : Type ℓ} {B : Type κ} (m : Outcome A) (f : A → Outcome B) {b : B}
    → sleeper_ff.LeagueSync.Requests.◌>>=◌ m f ≡ returned b
    → (a : A) × (m ≡ returned a) × (f a ≡ returned b)
>>=-eq-returned (returned a) f e = (a, refl, e)
>>=-eq-returned (threw err) f e = cc

-- A resource is wanted where the run is forced, where it was never synchronized, or where its time to
-- live has passed since it was.
abbrev pub IsWanted : Bool → ℕ → Stamp → Option Stamp → Type 0
IsWanted force ttl now none = Unit {0}
IsWanted force ttl now (some at) = (force ≡ true) ⊎ (at + ttl ≤ now)

-- What was fetched, where the resource with this time to live was last synchronized then
abbrev pub IsFetched :
    {V : Type 0} → Bool → ℕ → Stamp → Option Stamp → Outcome V → Option V → Type 0
IsFetched force ttl now last answer none = ¬ (IsWanted force ttl now last)
IsFetched force ttl now last answer (some v) = IsWanted force ttl now last × (answer ≡ returned v)

is_stale-IsWanted :
    (now : Stamp) (last : Option Stamp) (ttl : ℕ) (force : Bool)
    → is_stale now last ttl force ≡ true
    → IsWanted force ttl now last
unfolding is_stale
is_stale-IsWanted now none ttl force e = tt
is_stale-IsWanted now (some at) ttl true e = inl refl
is_stale-IsWanted now (some at) ttl false e = inr (ground arith)

is_stale-unwanted :
    (now : Stamp) (last : Option Stamp) (ttl : ℕ) (force : Bool)
    → is_stale now last ttl force ≡ false
    → ¬ (IsWanted force ttl now last)
unfolding is_stale
is_stale-unwanted now none ttl force e w = cc
is_stale-unwanted now (some at) ttl force e (inl forced) = cc (rw forced at e)
is_stale-unwanted now (some at) ttl force e (inr past) = ground arith

obtain-IsFetched :
    {V : Type 0} (now : Stamp) (last : Option Stamp) (ttl : ℕ) (force : Bool) (answer : Outcome V)
    {v : Option V}
    → obtain (is_stale now last ttl force) answer ≡ returned v
    → IsFetched force ttl now last answer v
obtain-IsFetched now last ttl force answer {v} e = elim (Bool-cases (is_stale now last ttl force)) [
  | inr fresh ↦
      let kept : none ≡ v = cc (rw fresh at e) in
      subst (IsFetched force ttl now last answer) kept (is_stale-unwanted now last ttl force fresh)
  | inl due ↦
      let (value, answered, left) = >>=-eq-returned answer _ (rw due at e) in
      let taken : some value ≡ v = cc left in
      subst (IsFetched force ttl now last answer) taken
        (is_stale-IsWanted now last ttl force due, answered)
]

-- The same of a field of all that was fetched
fetched_field :
    {V : Type 0} (field : Fetched → Option V) {g f : Fetched} (same : g ≡ f) (now : Stamp)
    (last : Option Stamp) (ttl : ℕ) (force : Bool) (answer : Outcome V)
    → obtain (is_stale now last ttl force) answer ≡ returned (field g)
    → IsFetched force ttl now last answer (field f)
fetched_field field same now last ttl force answer e =
    subst (λ h. IsFetched force ttl now last answer (field h)) same
      (obtain-IsFetched now last ttl force answer e)

-- Where all requests of a run succeed, each resource was fetched exactly where the run was forced, where
-- the resource was never synchronized, or where its time to live (six hours for the users, five minutes
-- for rosters and traded picks, two for matchups and transactions) has passed since it was; and what
-- was fetched is what the upstream answered.
pub fetch_all_stale :
    (keys : Keys) (now : Stamp) (force : Bool) (up : Upstream) (s : StoreShape) {f : Fetched}
    → fetch_all keys now force up s ≡ returned f
    → IsFetched force (6 * 60 * 60000) now (lookup keys.users s.freshness) up.users f.users
      × IsFetched force (5 * 60000) now (lookup keys.rosters s.freshness) up.rosters f.rosters
      × IsFetched force (2 * 60000) now (lookup keys.matchups s.freshness) up.matchups f.matchups
      × IsFetched force
          (2 * 60000)
          now
          (lookup keys.transactions s.freshness)
          up.transactions
          f.transactions
      × IsFetched force
          (5 * 60000)
          now
          (lookup keys.draft_picks s.freshness)
          up.draft_picks
          f.draft_picks
unfolding fetch_all
fetch_all_stale keys now force up s {f} e =
    let (us, eu, e₁) =
      >>=-eq-returned (obtain (is_due s now force keys.users users_ms) up.users) _ e in
    let (rs, er, e₂) =
      >>=-eq-returned (obtain (is_due s now force keys.rosters rosters_ms) up.rosters) _ e₁ in
    let (ms, em, e₃) =
      >>=-eq-returned (obtain (is_due s now force keys.matchups matchups_ms) up.matchups) _ e₂ in
    let (ts, et, e₄) =
      >>=-eq-returned
        (obtain (is_due s now force keys.transactions transactions_ms) up.transactions) _ e₃ in
    let (ps, ep, e₅) =
      >>=-eq-returned (obtain (is_due s now force keys.draft_picks draft_picks_ms) up.draft_picks) _
        e₄ in
    let same : record {
      users = us;
      rosters = rs;
      matchups = ms;
      transactions = ts;
      draft_picks = ps;
      names = up.arrived (names_of us rs ms ts ps);
    }
        ≡ f =
      cc e₅ in
    (
      fetched_field (λ g. g.users) same now (lookup keys.users s.freshness) users_ms force up.users
          eu,
      fetched_field (λ g. g.rosters) same now (lookup keys.rosters s.freshness) rosters_ms force
          up.rosters er,
      fetched_field (λ g. g.matchups) same now (lookup keys.matchups s.freshness) matchups_ms force
          up.matchups em,
      fetched_field (λ g. g.transactions) same now (lookup keys.transactions s.freshness)
          transactions_ms force up.transactions et,
      fetched_field (λ g. g.draft_picks) same now (lookup keys.draft_picks s.freshness)
          draft_picks_ms force up.draft_picks ep,
    )
