-- ===== src/Providers/Identity/Known.antt =====
-- The indexes of apps/api/src/providers/identity.ts hold no id but those of the directory.
use sleeper_ff.Prelude.{
  ◌≡◌, String, Bool, true, Bool-cases, Option, none, some, Option-cases, List, [], ◌∷◌, arith, All,
  find, is_some, str_eq, or_else, includes, inl, inr, subst, All-append,
}
use sleeper_ff.Prelude.Assoc.{Assoc, lookup, Every, Every-insert, Every-lookup}
use sleeper_ff.Records.{NflPlayer}
use sleeper_ff.Providers.Identity.{normalize_name, colon}
use sleeper_ff.Providers.Identity.Indexing.{
  Indexes, Index, add_names, cross_attempts, index_links, name_attempts, push_cross_ids, push,
  IdentityLink, bucket_with, candidates_at, bar, family, normalize_team,
}

abbrev pub IsKnown : Assoc NflPlayer → String → Type 0
IsKnown directory id = is_some (lookup id directory) ≡ true

pub find-All {ℓ κ} :
    {A : Type ℓ} (P : A → Type κ) (p : A → Bool) (xs : List A) {x : A}
    → All P xs
    → find p xs ≡ some x
    → P x × (p x ≡ true)
find-All P p [] h e = cc
find-All P p (y ∷ xs) {x} h e = elim (Bool-cases (p y)) [
  | inl found ↦ let same : y ≡ x = ground arith in subst (λ z. P z × (p z ≡ true)) same (h.0, found)
  | inr passed ↦ find-All P p xs h.1 (ground arith)
]

module _ (directory : Assoc NflPlayer) where
  abbrev pub IsKnownIndex : Index → Type 0
  IsKnownIndex = Every (λ key ids. All (IsKnown directory) ids)

  bucket_with-Known :
      (value : String) (o : Option (List String))
      → IsKnown directory value
      → All (IsKnown directory) (or_else o [])
      → All (IsKnown directory) (bucket_with value o)
  bucket_with-Known value none k h = (k, tt)
  bucket_with-Known value (some bucket) k h = elim (Bool-cases (includes value bucket)) [
    | inl held ↦ rw held h
    | inr new ↦ rw new (All-append (IsKnown directory) bucket (value ∷ []) h (k, tt))
  ]

  candidates_at-Known :
      (index : Index) (key : String)
      → IsKnownIndex index
      → All (IsKnown directory) (candidates_at index key)
  candidates_at-Known index key h = elim (Option-cases (lookup key index)) [
    | inl missing ↦ rw missing tt
    | inr (ids, found) ↦
        rw found (Every-lookup (λ k v. All (IsKnown directory) v) key index h found)
  ]

  push-Known :
      (index : Index) (key value : String)
      → IsKnown directory value
      → IsKnownIndex index
      → IsKnownIndex (push index key value)
  unfolding push
  push-Known index key value k h =
      Every-insert (λ own ids. All (IsKnown directory) ids) key _ index
        (bucket_with-Known value (lookup key index) k (candidates_at-Known index key h)) h

  push_cross_ids-Known :
      (ids : Assoc String) (value : String) (index : Index)
      → IsKnown directory value
      → IsKnownIndex index
      → IsKnownIndex (push_cross_ids ids value index)
  unfolding push_cross_ids
  push_cross_ids-Known [] value index k h = h
  push_cross_ids-Known ((namespace, id) ∷ ids) value index k h =
      push_cross_ids-Known ids value _ k (elim (Bool-cases (str_eq id "")) [
        | inl missing ↦ rw missing h
        | inr present ↦ rw present (push-Known index (colon namespace id) value k h)
      ])

  abbrev pub IsKnownIndexes : Indexes → Type 0
  IsKnownIndexes ix =
      IsKnownIndex ix.by_cross_id
      × IsKnownIndex ix.by_name_team_position
      × IsKnownIndex ix.by_name_position

  pub cross_attempts-Known :
      (index : Index) (ids : Assoc String)
      → IsKnownIndex index
      → All (λ a. All (IsKnown directory) a.1) (cross_attempts index ids)
  unfolding cross_attempts
  cross_attempts-Known index [] h = tt
  cross_attempts-Known index ((namespace, id) ∷ ids) h = elim (Bool-cases (str_eq id "")) [
    | inl missing ↦ rw missing (cross_attempts-Known index ids h)
    | inr present ↦
        rw present
          (candidates_at-Known index (colon namespace id) h, cross_attempts-Known index ids h)
  ]

  pub name_attempts-Known :
      (ix : Indexes) (name : String) (team position : Option String)
      → IsKnownIndexes ix
      → All (λ a. All (IsKnown directory) a.1) (name_attempts ix name team position)
  unfolding name_attempts
  name_attempts-Known ix name team none h = tt
  name_attempts-Known ix name none (some position) h = elim (Bool-cases (str_eq name "")) [
    | inl missing ↦ rw missing tt
    | inr present ↦ rw present (candidates_at-Known ix.by_name_position (bar name position) h.2, tt)
  ]
  name_attempts-Known ix name (some team) (some position) h = elim (Bool-cases (str_eq name "")) [
    | inl missing ↦ rw missing tt
    | inr present ↦ rw present (
      candidates_at-Known ix.by_name_team_position (bar name (bar team position)) h.1,
      (candidates_at-Known ix.by_name_position (bar name position) h.2, tt),
    )
  ]

module _ (upper : String → String) (letters : String → String) (directory : Assoc NflPlayer) where
  add_names-Known :
      (link : IdentityLink) (position : Option String) (ix : Indexes)
      → IsKnown directory link.sleeper_id
      → IsKnownIndexes directory ix
      → IsKnownIndexes directory (add_names upper letters link position ix)
  unfolding add_names
  add_names-Known link none ix k h = h
  add_names-Known link (some position) ix k h =
      let name = normalize_name letters link.name in
      let by_name =
        push-Known directory ix.by_name_position (bar name position) link.sleeper_id k h.2 in
      elim (Bool-cases (str_eq name "")) [
        | inl missing ↦ rw missing h
        | inr present ↦ elim (Option-cases (normalize_team upper link.team)) [
          | inl teamless ↦ rw (present, teamless) (h.0, h.1, by_name)
          | inr (team, e) ↦
              rw (present, e)
                (
                  h.0,
                  push-Known directory ix.by_name_team_position (bar name (bar team position))
                      link.sleeper_id k h.1,
                  by_name,
                )
        ]
      ]

  pub index_links-Known :
      (links : List IdentityLink) (ix : Indexes)
      → IsKnownIndexes directory ix
      → IsKnownIndexes directory (index_links upper letters directory links ix)
  unfolding index_links
  index_links-Known [] ix h = h
  index_links-Known (link ∷ links) ix h =
      index_links-Known links _ (elim (Bool-cases (is_some (lookup link.sleeper_id directory))) [
        | inl known ↦ rw known (
            add_names-Known link (family upper link.position) _ known (
              push_cross_ids-Known directory link.cross_ids link.sleeper_id ix.by_cross_id known
                  h.0,
              h.1,
              h.2,
            ))
        | inr unknown ↦ rw unknown h
      ])
