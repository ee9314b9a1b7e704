-- ===== src/Store/Aliases.antt =====
-- The player aliases of store.ts, as the list that the document keeps.
use sleeper_ff.Prelude.{
  ℕ, String, Bool, false, not, ◌&&◌, Option, none, some, List, [], ◌∷◌, ◌++◌, str_eq, ltb,
  if◌then◌else◌, length, keep,
}
use sleeper_ff.Prelude.Assoc.{Assoc, lookup, insert, values}
use sleeper_ff.Records.{Stamp}

pub record PlayerAlias : Type 0 where
  pub source : String
  pub alias_key : String
  pub player_id : String
  pub observed_at : Stamp
  pub body : String

abbrev is_ambiguous : PlayerAlias → Option PlayerAlias → Bool
is_ambiguous a none = false
is_ambiguous a (some existing) = not (str_eq existing.player_id a.player_id)

-- The loop of `savePlayerAliases`; `none` is the error of an alias of another source, or of a key
-- that names two players.
unfoldable pub resolve : String → List PlayerAlias → Assoc PlayerAlias → Option (Assoc PlayerAlias)
resolve source [] resolved = some resolved
resolve source (a ∷ rest) resolved =
    let more = resolve source rest (insert a.alias_key a resolved) in
    if not (str_eq a.source source)
    then none
    else if is_ambiguous a (lookup a.alias_key resolved)
    then none
    else more

abbrev replaced :
    String → List PlayerAlias → Option (Assoc PlayerAlias) → Option (ℕ × List PlayerAlias)
replaced source stored none = none
replaced source stored (some resolved) = some (
  length resolved,
  keep (λ (a : PlayerAlias). not (str_eq a.source source)) stored ++ values resolved,
)

-- `savePlayerAliases`: how many are stored, and the list
unfoldable pub save_player_aliases :
    String → List PlayerAlias → List PlayerAlias → Option (ℕ × List PlayerAlias)
unfolding resolve
save_player_aliases source aliases stored = replaced source stored (resolve source aliases [])

-- `playerAliases`
unfoldable pub player_aliases : Option String → List PlayerAlias → List PlayerAlias
player_aliases none stored = stored
player_aliases (some source) stored = keep (λ (a : PlayerAlias). str_eq a.source source) stored

-- `prunePlayerAliases`
unfoldable pub prune_player_aliases : String → Stamp → List PlayerAlias → ℕ × List PlayerAlias
prune_player_aliases source before stored =
    let is_old = λ (a : PlayerAlias). str_eq a.source source && ltb a.observed_at before in
    (length (keep is_old stored), keep (λ a. not (is_old a)) stored)
