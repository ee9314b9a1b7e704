-- ===== src/Providers/Identity/Indexing.antt =====
-- The records of apps/api/src/providers/provider.ts and identity.ts, and the indexes that
-- `resolveIdentities` builds of an identity map.
use Prim.Native.String.{◌++◌ as concat}
use sleeper_ff.Prelude.{
  ℕ, String, Bool, ◌||◌, Option, none, some, List, [], ◌∷◌, ◌++◌, str_eq, if◌then◌else◌, or_else,
  includes, is_some, false,
}
use sleeper_ff.Prelude.Assoc.{Assoc, lookup, insert}
use sleeper_ff.Prelude.Text.{colon, trim}
use sleeper_ff.Records.{NflPlayer}
use sleeper_ff.Providers.Identity.Names.{normalize_name}

pub record ProviderIdentity : Type 0 where
  pub provider_id : String
  pub name : String
  pub team : Option String
  pub position : Option String
  pub cross_ids : Assoc String

pub record IdentityLink : Type 0 where
  pub sleeper_id : String
  pub name : String
  pub team : Option String
  pub position : Option String
  pub cross_ids : Assoc String

pub data UnresolvedReason : Type 0 where
  no_match ambiguous not_in_sleeper position_mismatch inactive : UnresolvedReason

pub record UnresolvedIdentity : Type 0 where
  pub provider_id : String
  pub name : String
  pub team : Option String
  pub position : Option String
  pub reason : UnresolvedReason
  pub candidates : List String

pub data MatchMethod : Type 0 where
  cross_id team_defense name_team_position name_position : MatchMethod

pub record ResolvedIdentity : Type 0 where
  pub provider_id : String
  pub sleeper_id : String
  pub method : MatchMethod

-- `byMethod`
pub record Counts : Type 0 where
  pub cross_id : ℕ
  pub team_defense : ℕ
  pub name_team_position : ℕ
  pub name_position : ℕ

-- `resolved`, `unresolved` and `byMethod` of the result
pub record IdentityResolution : Type 0 where
  pub resolved : List ResolvedIdentity
  pub unresolved : List UnresolvedIdentity
  pub by_method : Counts

abbrev pub team_aliases : Assoc String
team_aliases =
    ("OAK", "LV")
    ∷ ("SD", "LAC")
    ∷ ("SDG", "LAC")
    ∷ ("STL", "LAR")
    ∷ ("LA", "LAR")
    ∷ ("RAM", "LAR")
    ∷ ("RAI", "LV")
    ∷ ("WSH", "WAS")
    ∷ ("WFT", "WAS")
    ∷ ("JAC", "JAX")
    ∷ ("ARZ", "ARI")
    ∷ ("BLT", "BAL")
    ∷ ("CLV", "CLE")
    ∷ ("HST", "HOU")
    ∷ ("LVR", "LV")
    ∷ ("GNB", "GB")
    ∷ ("KAN", "KC")
    ∷ ("NWE", "NE")
    ∷ ("NOR", "NO")
    ∷ ("SFO", "SF")
    ∷ ("TAM", "TB")
    ∷ []

abbrev pub position_family : Assoc String
position_family =
    ("QB", "QB")
    ∷ ("RB", "RB")
    ∷ ("FB", "RB")
    ∷ ("WR", "WR")
    ∷ ("TE", "TE")
    ∷ ("K", "K")
    ∷ ("PK", "K")
    ∷ ("DEF", "DEF")
    ∷ ("DST", "DEF")
    ∷ ("D/ST", "DEF")
    ∷ []

abbrev pub named : Assoc String → String → String
named table key = or_else (lookup key table) key

unfoldable pub normalize_team : (String → String) → Option String → Option String
normalize_team upper none = none
normalize_team upper (some value) =
    let key = upper (trim value) in if str_eq key "" then none else some (named team_aliases key)

abbrev pub is_defense_name : String → Bool
is_defense_name p = str_eq p "DEF" || str_eq p "DST" || str_eq p "D/ST"

-- `isTeamDefense`
abbrev pub is_team_defense : Option String → Bool
is_team_defense none = false
is_team_defense (some p) = is_defense_name p

unfoldable pub family : (String → String) → Option String → Option String
family upper none = none
family upper (some p) = if str_eq p "" then none else some (named position_family (upper p))

abbrev pub Index : Type 0
Index = Assoc (List String)

abbrev pub bucket_with : String → Option (List String) → List String
bucket_with value none = value ∷ []
bucket_with value (some bucket) = if includes value bucket then bucket else bucket ++ value ∷ []

unfoldable pub push : Index → String → String → Index
push index key value = insert key (bucket_with value (lookup key index)) index

abbrev pub candidates_at : Index → String → List String
candidates_at index key = or_else (lookup key index) []

abbrev pub bar : String → String → String
bar a b = concat a (concat "|" b)

pub record Indexes : Type 0 where
  pub by_cross_id : Index
  pub by_name_team_position : Index
  pub by_name_position : Index

unfoldable pub push_cross_ids : Assoc String → String → Index → Index
push_cross_ids [] value index = index
push_cross_ids ((namespace, id) ∷ ids) value index =
    push_cross_ids ids value (if str_eq id "" then index else push index (colon namespace id) value)

module _ (upper : String → String) (letters : String → String) where
  unfoldable pub add_names : IdentityLink → Option String → Indexes → Indexes
  add_names link none ix = ix
  add_names link (some position) ix =
      let name = normalize_name letters link.name in
      let named_ix = record ix {
        by_name_position = push ix.by_name_position (bar name position) link.sleeper_id;
      } in
      if str_eq name "" then ix else elim (normalize_team upper link.team) [
        | none ↦ named_ix
        | some team ↦ record named_ix {
          by_name_team_position =
              push ix.by_name_team_position (bar name (bar team position)) link.sleeper_id;
        }
      ]

  -- The loop over the links
  unfoldable pub index_links : Assoc NflPlayer → List IdentityLink → Indexes → Indexes
  index_links directory [] ix = ix
  index_links directory (link ∷ links) ix = index_links directory links (
      if is_some (lookup link.sleeper_id directory)
      then add_names link (family upper link.position)
          (record ix { by_cross_id = push_cross_ids link.cross_ids link.sleeper_id ix.by_cross_id })
      else ix)

abbrev pub failing : ProviderIdentity → UnresolvedReason → List String → UnresolvedIdentity
failing identity reason candidates = record {
  provider_id = identity.provider_id;
  name = identity.name;
  team = identity.team;
  position = identity.position;
  reason = reason;
  candidates = candidates;
}

unfoldable pub cross_attempts : Index → Assoc String → List (MatchMethod × List String)
cross_attempts index [] = []
cross_attempts index ((namespace, id) ∷ ids) =
    if str_eq id ""
    then cross_attempts index ids
    else (MatchMethod.cross_id, candidates_at index (colon namespace id)) ∷ cross_attempts index ids

unfoldable pub name_attempts :
    Indexes → String → Option String → Option String → List (MatchMethod × List String)
name_attempts ix name team none = []
name_attempts ix name none (some position) =
    if str_eq name ""
    then []
    else (MatchMethod.name_position, candidates_at ix.by_name_position (bar name position)) ∷ []
name_attempts ix name (some team) (some position) =
    if str_eq name ""
    then []
    else (
      MatchMethod.name_team_position,
      candidates_at ix.by_name_team_position (bar name (bar team position)),
    )
      ∷ (MatchMethod.name_position, candidates_at ix.by_name_position (bar name position))
      ∷ []
