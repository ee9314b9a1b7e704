-- ===== src/Providers/Identity/Resolving.antt =====
-- Every row of a source is resolved or refused, and only to a player that the directory holds:
-- `resolveIdentities` of apps/api/src/providers/identity.ts.
use sleeper_ff.Prelude.{
  ℕ, ◌+◌, ◌≡◌, refl, ap, ◌∙◌, String, true, Bool-cases, inl, inr, Option, none, some, Option-cases,
  List, [], ◌∷◌, arith, length, length-append, All, find, ◌>>=◌, is_some, str_eq, includes, any,
  ◌==◌, ◌||◌, All-append,
}
use sleeper_ff.Prelude.Assoc.{Assoc, lookup, upsert, insert, lookup-insert}
use sleeper_ff.Records.{NflPlayer}
use sleeper_ff.Providers.Identity.{
  Verdict, check_match, record_verdict, resolve_person, count, matched, unmatched, attempts_of,
  check_attempt, disagrees, resolve_all, resolve_defense, resolve_identities, resolve,
  defense_ids_of, is_same, directory_of, normalize_name, own_family, no_indexes, nothing_yet,
}
use sleeper_ff.Providers.Identity.Indexing.{
  Counts, IdentityResolution, MatchMethod, Indexes, ProviderIdentity, ResolvedIdentity,
  IdentityLink, cross_attempts, family, normalize_team, index_links, failing, position_mismatch,
}
use sleeper_ff.Providers.Identity.Known.{
  IsKnown, IsKnownIndexes, find-All, cross_attempts-Known, name_attempts-Known, index_links-Known,
}

-- How many rows are matched, by the counts of the methods
abbrev pub sum_of : Counts → ℕ
sum_of n = n.cross_id + n.team_defense + n.name_team_position + n.name_position

abbrev pub rows_of : IdentityResolution → ℕ
rows_of r = length r.resolved + length r.unresolved

sum_of-count : (m : MatchMethod) (n : Counts) → sum_of (count m n) ≡ sum_of n + 1
sum_of-count MatchMethod.cross_id n = omega arith
sum_of-count MatchMethod.team_defense n = omega arith
sum_of-count MatchMethod.name_team_position n = omega arith
sum_of-count MatchMethod.name_position n = omega arith

-- A verdict that names no player outside the directory
abbrev IsSound : Assoc NflPlayer → Verdict → Type 0
IsSound directory (matched row) = IsKnown directory row.sleeper_id
IsSound directory (unmatched row) = Unit

abbrev IsSoundResult : Assoc NflPlayer → IdentityResolution → Type 0
IsSoundResult directory r =
    All (λ (row : ResolvedIdentity). IsKnown directory row.sleeper_id) r.resolved
    × (sum_of r.by_method ≡ length r.resolved)

record_verdict-Sound :
    (directory : Assoc NflPlayer) (v : Verdict) (r : IdentityResolution)
    → IsSound directory v
    → IsSoundResult directory r
    → IsSoundResult directory (record_verdict v r) × (rows_of (record_verdict v r) ≡ rows_of r + 1)
unfolding record_verdict
record_verdict-Sound directory (matched row) r k h = (
  (
    All-append (λ (row : ResolvedIdentity). IsKnown directory row.sleeper_id) r.resolved (row ∷ [])
        h.0 (k, tt),
    sum_of-count row.method r.by_method ∙ omega (arith, h.1, length-append r.resolved (row ∷ [])),
  ),
  omega (arith, length-append r.resolved (row ∷ [])),
)
record_verdict-Sound directory (unmatched row) r k h =
    (h, omega (arith, length-append r.unresolved (row ∷ [])))

module _ (upper : String → String) (letters : String → String) (directory : Assoc NflPlayer) where
  check_match-Sound :
      (identity : ProviderIdentity) (method : MatchMethod) (id : String)
      → IsKnown directory id
      → (v : Verdict) × (check_match upper letters identity method id (lookup id directory)
          ≡ some v)
        × IsSound directory v
  unfolding check_match
  check_match-Sound identity method id k = elim (Option-cases (lookup id directory)) [
    | inl missing ↦ cc (k, ap is_some missing)
    | inr (player, found) ↦
        elim (Bool-cases (
          disagrees upper letters (family upper identity.position) (own_family upper letters player)
            player.fantasy_positions)) [
              | inl other ↦ (
                unmatched (failing identity position_mismatch (id ∷ [])),
                (rw (found, other) refl),
                tt,
              )
              | inr same ↦ (
                matched
                    record { provider_id = identity.provider_id; sleeper_id = id; method = method },
                (rw (found, same) refl),
                k,
              )
            ]
  ]

  check_attempt-Sound :
      (identity : ProviderIdentity) (attempts : List (MatchMethod × List String))
      (o : Option (MatchMethod × List String))
      → find (λ a. length a.1 == 1) attempts ≡ o
      → All (λ a. All (IsKnown directory) a.1) attempts
      → (v : Verdict) × (check_attempt upper letters directory identity attempts o ≡ some v)
        × IsSound directory v
  unfolding check_attempt
  check_attempt-Sound identity attempts none e h = (_, refl, tt)
  check_attempt-Sound identity attempts (some (method, [])) e h =
      cc (find-All (λ a. All (IsKnown directory) a.1) (λ a. length a.1 == 1) attempts h e).1
  check_attempt-Sound identity attempts (some (method, id ∷ others)) e h =
      check_match-Sound identity method id
        (find-All (λ a. All (IsKnown directory) a.1) (λ a. length a.1 == 1) attempts h e).0.0

  resolve_person-Sound :
      (ix : Indexes) (identity : ProviderIdentity)
      → IsKnownIndexes directory ix
      → (v : Verdict) × (resolve_person upper letters directory ix identity ≡ some v)
        × IsSound directory v
  unfolding resolve_person
  resolve_person-Sound ix identity h =
      check_attempt-Sound identity (attempts_of upper letters ix identity) _ refl (
        All-append (λ a. All (IsKnown directory) a.1)
          (cross_attempts ix.by_cross_id identity.cross_ids) _
          (cross_attempts-Known directory ix.by_cross_id identity.cross_ids h.0)
          (name_attempts-Known directory ix (normalize_name letters identity.name)
            (normalize_team upper identity.team) (family upper identity.position) h))

  abbrev AreKnown : List String → Type 0
  AreKnown ids = (id : String) → includes id ids ≡ true → IsKnown directory id

  resolve_defense-Sound :
      (defense_ids : List String) (identity : ProviderIdentity) (team : Option String)
      → AreKnown defense_ids
      → IsSound directory (resolve_defense upper letters defense_ids identity team)
  unfolding resolve_defense
  resolve_defense-Sound defense_ids identity none k = tt
  resolve_defense-Sound defense_ids identity (some team) k =
      elim (Bool-cases (includes team defense_ids)) [
        | inl there ↦ rw there (k team there)
        | inr missing ↦ rw missing tt
      ]

  resolve-Sound :
      (defense_ids : List String) (ix : Indexes) (identity : ProviderIdentity)
      → AreKnown defense_ids
      → IsKnownIndexes directory ix
      → (v : Verdict) × (resolve upper letters directory defense_ids ix identity ≡ some v)
        × IsSound directory v
  unfolding resolve
  resolve-Sound defense_ids ix identity k h =
      elim (Bool-cases (is_same "DEF" (family upper identity.position))) [
        | inl defense ↦ (
          resolve_defense upper letters defense_ids identity (normalize_team upper identity.team),
          (rw defense refl),
          resolve_defense-Sound defense_ids identity (normalize_team upper identity.team) k,
        )
        | inr person ↦
            let (v, e, sound) = resolve_person-Sound ix identity h in (v, (rw person e), sound)
      ]

  resolve_all-Sound :
      (defense_ids : List String) (ix : Indexes) (identities : List ProviderIdentity)
      (r : IdentityResolution)
      → AreKnown defense_ids
      → IsKnownIndexes directory ix
      → IsSoundResult directory r
      → (r' : IdentityResolution) × (resolve_all upper letters directory defense_ids ix identities r
          ≡ some r')
        × IsSoundResult directory r'
        × (rows_of r' ≡ rows_of r + length identities)
  unfolding resolve_all
  resolve_all-Sound defense_ids ix [] r k h s = (r, refl, s, omega arith)
  resolve_all-Sound defense_ids ix (identity ∷ identities) r k h s =
      let (v, e, sound) = resolve-Sound defense_ids ix identity k h in
      let (next, one) = record_verdict-Sound directory v r sound s in
      let (r', found, s', rows) =
        resolve_all-Sound defense_ids ix identities (record_verdict v r) k h next in
      (
        r',
        ap
              (λ o. o >>= λ w.
                resolve_all upper letters directory defense_ids ix identities (record_verdict w r))
              e
            ∙ found,
        s',
        omega (arith, one, rows),
      )

-- A directory holds the id of each of its players.
upsert-has :
    (players : List NflPlayer) (entries : Assoc NflPlayer) (id : String)
    → (any (λ (p : NflPlayer). str_eq p.id id) players || is_some (lookup id entries)) ≡ true
    → is_some (lookup id (upsert (λ p. p.id) players entries)) ≡ true
unfolding upsert
upsert-has [] entries id h = h
upsert-has (p ∷ players) entries id h =
    upsert-has players (insert p.id p entries) id (ground (arith, lookup-insert p.id id p entries))

defense_ids_of-any :
    (players : List NflPlayer) (id : String)
    → includes id (defense_ids_of players) ≡ true
    → any (λ (p : NflPlayer). str_eq p.id id) players ≡ true
defense_ids_of-any [] id h = h
defense_ids_of-any (p ∷ players) id h = ground (arith, defense_ids_of-any players id)

-- Resolving the rows of a source always ends in a result, reading no player that is not there. Each
-- resolved row names a player of the directory; each row is resolved or refused, once; and the counts
-- of the methods add up to the number of resolved rows.
pub resolve_identities_sound :
    (upper letters : String → String) (identities : List ProviderIdentity)
    (links : List IdentityLink) (players : List NflPlayer)
    → (r : IdentityResolution) × (resolve_identities upper letters identities links players
        ≡ some r)
      × All (λ (row : ResolvedIdentity). IsKnown (directory_of players) row.sleeper_id) r.resolved
      × (length r.resolved + length r.unresolved ≡ length identities)
      × (sum_of r.by_method ≡ length r.resolved)
unfolding resolve_identities
resolve_identities_sound upper letters identities links players =
    let directory = directory_of players in
    let ix = index_links upper letters directory links no_indexes in
    let (r, found, (known, counted), rows) =
      resolve_all-Sound upper letters directory (defense_ids_of players) ix identities nothing_yet
        (λ id there. upsert-has players [] id (ground (arith, defense_ids_of-any players id there)))
        (index_links-Known upper letters directory links no_indexes (tt, tt, tt))
        (tt, omega arith) in
    (r, found, known, omega (arith, rows), counted)
