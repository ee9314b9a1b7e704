-- ===== src/Providers/Identity/Agreeing.antt =====
-- What a match of apps/api/src/providers/identity.ts rests on.
use sleeper_ff.Prelude.{
  ◌≡◌, refl, ap, ◌∙◌, String, true, false, Bool-cases, inl, inr, Option, none, some, List, [], ◌∷◌,
  arith, length, find, ◌==◌, find-test, ◌⊎◌, eq_iff, str_eq, any,
}
use sleeper_ff.Prelude.Assoc.{Assoc, lookup}
use sleeper_ff.Records.{NflPlayer}
use sleeper_ff.Providers.Identity.{
  matched, check_match, disagrees, own_family, check_attempt, resolve, resolve_person, is_same,
  attempts_of,
}
use sleeper_ff.Providers.Identity.Indexing.{
  ProviderIdentity, ResolvedIdentity, MatchMethod, family, Indexes,
}

only : {A : Type 0} (x : A) (xs : List A) → (length (x ∷ xs) == 1) ≡ true → xs ≡ []
only x [] h = refl
only x (y ∷ ys) h = ground arith

module _ (upper : String → String) (letters : String → String) where
  -- Some position is of that family.
  abbrev pub IsAmong : String → List String → Type 0
  IsAmong p [] = ⊥
  IsAmong p (q ∷ qs) = (family upper (some q) ≡ some p) ⊎ IsAmong p qs

  -- The family that a row states is the player's own, or one of the player's positions is of it, where
  -- both are stated.
  abbrev pub IsAgreed : Option String → Option String → List String → Type 0
  IsAgreed none own positions = Unit {0}
  IsAgreed (some p) none positions = Unit {0}
  IsAgreed (some p) (some own) positions = (p ≡ own) ⊎ IsAmong p positions

  is_same-eq : (p : String) (o : Option String) → is_same p o ≡ true → o ≡ some p
  is_same-eq p none e = cc
  is_same-eq p (some q) e = ground (arith, eq_iff q p, eq_iff p q)

  any-IsAmong :
      (p : String) (positions : List String)
      → any (λ q. is_same p (family upper (some q))) positions ≡ true
      → IsAmong p positions
  any-IsAmong p [] e = cc
  any-IsAmong p (q ∷ qs) e = elim (Bool-cases (is_same p (family upper (some q)))) [
    | inl here ↦ inl (is_same-eq p (family upper (some q)) here)
    | inr not_here ↦ inr (any-IsAmong p qs (rw not_here at e))
  ]

  disagrees-IsAgreed :
      (stated own : Option String) (positions : List String)
      → disagrees upper letters stated own positions ≡ false
      → IsAgreed stated own positions
  disagrees-IsAgreed none own positions e = tt
  disagrees-IsAgreed (some p) none positions e = tt
  disagrees-IsAgreed (some p) (some own) positions e = elim (Bool-cases (str_eq p own)) [
    | inl same ↦ inl ((eq_iff p own).0 same)
    | inr other ↦ inr (any-IsAmong p positions (ground arith))
  ]

  -- The player that a match by `method` stands on
  abbrev pub Agrees :
      ProviderIdentity → MatchMethod → String → Option NflPlayer → ResolvedIdentity → Type 0
  Agrees identity method id o row =
      (player : NflPlayer) × (o ≡ some player)
      × IsAgreed (family upper identity.position) (own_family upper letters player)
          player.fantasy_positions
      × (row ≡ record { provider_id = identity.provider_id; sleeper_id = id; method = method })

  check_match-Agrees :
      (identity : ProviderIdentity) (method : MatchMethod) (id : String) (o : Option NflPlayer)
      {row : ResolvedIdentity}
      → check_match upper letters identity method id o ≡ some (matched row)
      → Agrees identity method id o row
  unfolding check_match
  check_match-Agrees identity method id none e = cc
  check_match-Agrees identity method id (some player) {row} e =
      elim (Bool-cases (
        disagrees upper letters (family upper identity.position) (own_family upper letters player)
          player.fantasy_positions)) [
            | inl other ↦ cc
            | inr same ↦
                (player, refl, disagrees-IsAgreed _ _ player.fantasy_positions same, ground arith)
          ]

  check_attempt-Agrees :
      (directory : Assoc NflPlayer) (identity : ProviderIdentity)
      (attempts : List (MatchMethod × List String)) (o : Option (MatchMethod × List String))
      {row : ResolvedIdentity}
      → find (λ a. length a.1 == 1) attempts ≡ o
      → check_attempt upper letters directory identity attempts o ≡ some (matched row)
      → (player : NflPlayer) × (find (λ a. length a.1 == 1) attempts
          ≡ some (row.method, row.sleeper_id ∷ []))
        × (lookup row.sleeper_id directory ≡ some player)
        × IsAgreed
            (family upper identity.position)
            (own_family upper letters player)
            player.fantasy_positions
        × (row.provider_id ≡ identity.provider_id)
  unfolding check_attempt
  check_attempt-Agrees directory identity attempts none f e = cc
  check_attempt-Agrees directory identity attempts (some (method, [])) f e = cc
  check_attempt-Agrees directory identity attempts (some (method, id ∷ others)) {row} f e =
      let (player, found, agreed, r) = check_match-Agrees identity method id _ e in
      let single = only id others (find-test (λ a. length a.1 == 1) attempts f) in
      (
        player,
        cc (f, single, ap (λ own. own.method) r, ap (λ own. own.sleeper_id) r),
        ap (λ own. lookup own.sleeper_id directory) r ∙ found,
        agreed,
        ap (λ own. own.provider_id) r,
      )

  -- A row that is no team defense and is resolved to an id was resolved by its first attempt with a
  -- single candidate, which is that id, of a player in the directory; the player's position is of the
  -- family that the row states, or one of the player's other positions is, where both are stated.
  pub resolve_agrees :
      (directory : Assoc NflPlayer) (defense_ids : List String) (ix : Indexes)
      (identity : ProviderIdentity) {row : ResolvedIdentity}
      → is_same "DEF" (family upper identity.position) ≡ false
      → resolve upper letters directory defense_ids ix identity ≡ some (matched row)
      → (player : NflPlayer) × (find (λ a. length a.1 == 1) (attempts_of upper letters ix identity)
          ≡ some (row.method, row.sleeper_id ∷ []))
        × (lookup row.sleeper_id directory ≡ some player)
        × IsAgreed
            (family upper identity.position)
            (own_family upper letters player)
            player.fantasy_positions
        × (row.provider_id ≡ identity.provider_id)
  unfolding resolve resolve_person
  resolve_agrees directory defense_ids ix identity person e =
      check_attempt-Agrees directory identity (attempts_of upper letters ix identity) _ refl
        (ground arith)
