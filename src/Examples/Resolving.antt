-- ===== src/Examples/Resolving.antt =====
-- Identities on concrete inputs.
use sleeper_ff.Prelude.{◌≡◌, refl, ◌+◌, String, none, some, [], ◌∷◌, All, find, length, ◌==◌}
use sleeper_ff.Prelude.Assoc.{lookup}
use sleeper_ff.Prelude.Text.{trim}
use sleeper_ff.Records.{NflPlayer}
use sleeper_ff.Providers.Identity.{
  resolve_identities, resolve, attempts_of, directory_of, own_family, resolve_person, check_attempt,
  check_match,
}
use sleeper_ff.Providers.Identity.Indexing.{
  ProviderIdentity, IdentityLink, MatchMethod, ResolvedIdentity, IdentityResolution, family,
  Indexes, cross_attempts, name_attempts, normalize_team,
}
use sleeper_ff.Providers.Identity.Names.{normalize_name}
use sleeper_ff.Providers.Identity.Known.{IsKnown}
use sleeper_ff.Providers.Identity.Resolving.{resolve_identities_sound, sum_of}
use sleeper_ff.Providers.Identity.Agreeing.{resolve_agrees, IsAgreed}

abbrev same : String → String
same s = s

abbrev moore : NflPlayer
moore = record {
  id = "4983";
  first_name = some "DJ";
  last_name = some "Moore";
  full_name = "DJ Moore";
  team = some "CHI";
  position = some "WR";
  fantasy_positions = "WR" ∷ [];
  status = none;
  injury_status = none;
  synchronized_at = 0;
}

abbrev row : ProviderIdentity
row = record {
  provider_id = "p1";
  name = "d.j. moore";
  team = some "CHI";
  position = some "WR";
  cross_ids = [];
}

abbrev link : IdentityLink
link = record {
  sleeper_id = "4983";
  name = "dj moore jr";
  team = some "CHI";
  position = some "WR";
  cross_ids = ("gsis", "g1") ∷ [];
}

resolve_identities_sound_example :
    (r : IdentityResolution) × (resolve_identities same same (row ∷ []) (link ∷ []) (moore ∷ [])
      ≡ some r)
    × All
        (λ (found : ResolvedIdentity). IsKnown (directory_of (moore ∷ [])) found.sleeper_id)
        r.resolved
    × (length r.resolved + length r.unresolved ≡ length (row ∷ []))
    × (sum_of r.by_method ≡ length r.resolved)
resolve_identities_sound_example =
    resolve_identities_sound same same (row ∷ []) (link ∷ []) (moore ∷ [])

abbrev indexes : Indexes
indexes = record {
  by_cross_id = [];
  by_name_team_position = ("dj moore|CHI|WR", "4983" ∷ []) ∷ [];
  by_name_position = ("dj moore|WR", "4983" ∷ []) ∷ [];
}

abbrev by_team : ResolvedIdentity
by_team = record {
  provider_id = "p1";
  sleeper_id = "4983";
  method = MatchMethod.name_team_position;
}

resolve_agrees_example :
    (player : NflPlayer) × (find (λ a. length a.1 == 1) (attempts_of same same indexes row)
      ≡ some (by_team.method, by_team.sleeper_id ∷ []))
    × (lookup by_team.sleeper_id (("4983", moore) ∷ []) ≡ some player)
    × IsAgreed same same
        (family same row.position)
        (own_family same same player)
        player.fantasy_positions
    × (by_team.provider_id ≡ row.provider_id)
unfolding resolve resolve_person family lookup normalize_team trim normalize_name cross_attempts
    name_attempts check_attempt check_match
resolve_agrees_example =
    resolve_agrees same same (("4983", moore) ∷ []) [] indexes row {row = by_team} refl refl
