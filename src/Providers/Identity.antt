-- ===== src/Providers/Identity.antt =====
-- apps/api/src/providers/identity.ts, with the records of providers/provider.ts: whose projection a
-- source's row is. `upper` is `toUpperCase`, and `letters` is `toLowerCase().normalize('NFD')`; the
-- text of a message is not modelled, and the rate of the statistics is the quotient of two of them.
pub mod Indexing
pub mod Names
pub mod Known
pub mod Agreeing
pub mod Resolving
use Prim.Native.String.{◌++◌ as concat}
use sleeper_ff.Prelude.{
  ℕ, zero, suc, ◌+◌, String, Bool, not, ◌&&◌, ◌||◌, Option, none, some, List, [], ◌∷◌, ◌++◌, map,
  any, find, keep, ltb, leb, ◌==◌, ◌>>=◌, str_eq, if◌then◌else◌, or_else, or_option, length,
  includes, is_some, false,
}
use sleeper_ff.Prelude.Assoc.{Assoc, lookup, insert, upsert}
use sleeper_ff.Prelude.Text.{colon, trim}
use sleeper_ff.Records.{NflPlayer}
use sleeper_ff.Providers.Identity.Names.{normalize_name}
use sleeper_ff.Providers.Identity.Indexing.{
  Counts, IdentityLink, IdentityResolution, Indexes, MatchMethod, ProviderIdentity,
  ResolvedIdentity, UnresolvedIdentity, ambiguous, cross_attempts, cross_id, failing, family,
  index_links, is_defense_name, is_team_defense, name_attempts, name_position, name_team_position,
  no_match, normalize_team, not_in_sleeper, position_mismatch, team_defense,
}

abbrev pub is_same : String → Option String → Bool
is_same p none = false
is_same p (some q) = str_eq q p

abbrev pub first_of : List String → Option String
first_of [] = none
first_of (x ∷ xs) = some x

-- Which of the two lists a row ends in
pub data Verdict : Type 0 where
  matched : ResolvedIdentity → Verdict
  unmatched : UnresolvedIdentity → Verdict

abbrev pub count : MatchMethod → Counts → Counts
count MatchMethod.cross_id n = record n { cross_id = n.cross_id + 1 }
count MatchMethod.team_defense n = record n { team_defense = n.team_defense + 1 }
count MatchMethod.name_team_position n = record n { name_team_position = n.name_team_position + 1 }
count MatchMethod.name_position n = record n { name_position = n.name_position + 1 }

unfoldable pub record_verdict : Verdict → IdentityResolution → IdentityResolution
record_verdict (matched row) r = record r {
  resolved = r.resolved ++ row ∷ [];
  by_method = count row.method r.by_method;
}
record_verdict (unmatched row) r = record r { unresolved = r.unresolved ++ row ∷ [] }

abbrev pub directory_of : List NflPlayer → Assoc NflPlayer
directory_of players = upsert (λ player. player.id) players []

-- `defenseIds`
abbrev pub defense_ids_of : List NflPlayer → List String
defense_ids_of players =
    map (λ player. player.id)
      (keep
        (λ (player : NflPlayer).
          is_team_defense player.position || any is_defense_name player.fantasy_positions)
        players)

abbrev pub no_indexes : Indexes
no_indexes = record { by_cross_id = []; by_name_team_position = []; by_name_position = [] }

abbrev pub nothing_yet : IdentityResolution
nothing_yet = record {
  resolved = [];
  unresolved = [];
  by_method = record { cross_id = 0; team_defense = 0; name_team_position = 0; name_position = 0 };
}

module _ (upper : String → String) (letters : String → String) where
  abbrev pub attempts_of : Indexes → ProviderIdentity → List (MatchMethod × List String)
  attempts_of ix identity =
      cross_attempts ix.by_cross_id identity.cross_ids
      ++ name_attempts ix (normalize_name letters identity.name)
          (normalize_team upper identity.team) (family upper identity.position)

  -- The refusal of a row that no attempt decides
  unfoldable pub undecided :
      ProviderIdentity → Option (MatchMethod × List String) → UnresolvedIdentity
  undecided identity none = failing identity no_match []
  undecided identity (some (method, candidates)) = failing identity ambiguous candidates

  abbrev pub disagrees : Option String → Option String → List String → Bool
  disagrees none own positions = false
  disagrees (some p) none positions = false
  disagrees (some p) (some own) positions =
      not (str_eq p own) && not (any (λ q. is_same p (family upper (some q))) positions)

  abbrev pub own_family : NflPlayer → Option String
  own_family player =
      or_option (family upper player.position) (family upper (first_of player.fantasy_positions))

  -- What follows a match by `method`; `none` is the error of reading a player that is not there.
  unfoldable pub check_match :
      ProviderIdentity → MatchMethod → String → Option NflPlayer → Option Verdict
  check_match identity method id none = none
  check_match identity method id (some player) =
      if disagrees (family upper identity.position) (own_family player) player.fantasy_positions
      then some (unmatched (failing identity position_mismatch (id ∷ [])))
      else some
          (matched record { provider_id = identity.provider_id; sleeper_id = id; method = method })

  -- By the first attempt with one candidate
  unfoldable pub check_attempt :
      Assoc NflPlayer
      → ProviderIdentity
      → List (MatchMethod × List String)
      → Option (MatchMethod × List String)
      → Option Verdict
  unfolding check_match undecided
  check_attempt directory identity attempts none =
      some (unmatched (undecided identity (find (λ a. ltb 1 (length a.1)) attempts)))
  check_attempt directory identity attempts (some (method, [])) = none
  check_attempt directory identity attempts (some (method, id ∷ others)) =
      check_match identity method id (lookup id directory)

  unfoldable pub resolve_person : Assoc NflPlayer → Indexes → ProviderIdentity → Option Verdict
  unfolding check_attempt
  resolve_person directory ix identity =
      let attempts = attempts_of ix identity in
      check_attempt directory identity attempts (find (λ a. length a.1 == 1) attempts)

  unfoldable pub resolve_defense : List String → ProviderIdentity → Option String → Verdict
  resolve_defense defense_ids identity none = unmatched (failing identity no_match [])
  resolve_defense defense_ids identity (some team) =
      if not (includes team defense_ids)
      then unmatched (failing identity not_in_sleeper [])
      else matched record {
        provider_id = identity.provider_id;
        sleeper_id = team;
        method = MatchMethod.team_defense;
      }

  -- The body of the loop over the rows
  unfoldable pub resolve :
      Assoc NflPlayer → List String → Indexes → ProviderIdentity → Option Verdict
  unfolding resolve_person resolve_defense
  resolve directory defense_ids ix identity =
      if is_same "DEF" (family upper identity.position)
      then some (resolve_defense defense_ids identity (normalize_team upper identity.team))
      else resolve_person directory ix identity

  -- The loop over the rows
  unfoldable pub resolve_all :
      Assoc NflPlayer
      → List String
      → Indexes
      → List ProviderIdentity
      → IdentityResolution
      → Option IdentityResolution
  unfolding resolve record_verdict
  resolve_all directory defense_ids ix [] r = some r
  resolve_all directory defense_ids ix (identity ∷ identities) r =
      resolve directory defense_ids ix identity >>= λ v.
      resolve_all directory defense_ids ix identities (record_verdict v r)

  -- `resolveIdentities`
  unfoldable pub resolve_identities :
      List ProviderIdentity → List IdentityLink → List NflPlayer → Option IdentityResolution
  unfolding resolve_all index_links
  resolve_identities identities links players =
      let directory = directory_of players in
      resolve_all directory (defense_ids_of players)
        (index_links upper letters directory links no_indexes) identities nothing_yet
