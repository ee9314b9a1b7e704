-- ===== src/Config/Origins.antt =====
-- apps/api/src/config/origins.ts: the browser origins that may send credentialed requests. `new URL`
-- is a parameter, `none` where it throws; the text of an error is not modelled.
use sleeper_ff.Prelude.{
  ◌≡◌, refl, ◌⊎◌, arith, String, Bool, false, not, ◌&&◌, ◌||◌, Option, none, some, List, [], ◌∷◌,
  ◌++◌, str_eq, if◌then◌else◌, includes, keep, map, or_else, All, Bool-cases, inl, inr, ◌>>=◌,
  eq_iff, subst, >>=-eq-some, All-append,
}
use sleeper_ff.Prelude.Text.{trim, split}

-- The fields of a `URL` that are read
pub record Url : Type 0 where
  pub protocol : String
  pub username : String
  pub password : String
  pub pathname : String
  pub search : String
  pub hash : String
  pub hostname : String
  pub origin : String

abbrev pub development_origin : String
development_origin = "http://localhost:5173"

abbrev pub loopback : List String
loopback = "localhost" ∷ "127.0.0.1" ∷ "[::1]" ∷ []

abbrev pub is_blank : String → Bool
is_blank s = str_eq s ""

-- `split(',').map(entry => entry.trim()).filter(Boolean)`
abbrev pub entries_of : Option String → List String
entries_of value = keep (λ e. not (is_blank e)) (map trim (split b',' (or_else value "")))

-- The tests that throw
unfoldable pub is_refused : Bool → Url → Bool
is_refused production url =
    not (str_eq url.protocol "https:") && not (str_eq url.protocol "http:")
    || not (is_blank url.username)
    || not (is_blank url.password)
    || not (is_blank url.pathname) && not (str_eq url.pathname "/")
    || not (is_blank url.search)
    || not (is_blank url.hash)
    || not (str_eq url.protocol "https:") && not (not production && includes url.hostname loopback)

module _ (url_of : String → Option Url) where
  -- `none` is an `OriginError`.
  abbrev pub add_origin : Bool → List String → Option Url → Option (List String)
  add_origin production origins none = none
  add_origin production origins (some url) =
      if is_refused production url
      then none
      else if includes url.origin origins
      then some origins
      else some (origins ++ url.origin ∷ [])

  -- The loop of `parseWebOrigins`
  unfoldable pub collect_origins : Bool → List String → List String → Option (List String)
  unfolding is_refused
  collect_origins production [] origins = some origins
  collect_origins production (entry ∷ entries) origins =
      add_origin production origins (url_of entry) >>= λ more.
      collect_origins production entries more

  unfoldable pub parse_web_origins : Option String → Bool → Option (List String)
  unfolding collect_origins
  parse_web_origins value production = collect_origins production (entries_of value) []

  -- `webOrigins`
  unfoldable pub web_origins : Option String → Bool → Option (List String)
  unfolding parse_web_origins
  web_origins value production = parse_web_origins value production >>= λ configured.
      elim configured [
        | [] ↦ some (development_origin ∷ [])
        | origin ∷ origins ↦ some (origin ∷ origins)
      ]

  -- An origin that some entry of the list names, on a URL that no test refuses
  abbrev pub IsGranted : Bool → List String → String → Type 0
  IsGranted production [] origin = ⊥
  IsGranted production (entry ∷ entries) origin =
      ((url : Url) × (url_of entry ≡ some url)
        × (is_refused production url ≡ false)
        × (url.origin ≡ origin))
      ⊎ IsGranted production entries origin

abbrev pub IsDistinct : List String → Type 0
IsDistinct [] = Unit
IsDistinct (x ∷ xs) = (includes x xs ≡ false) × IsDistinct xs

includes-snoc :
    (s x : String) (xs : List String) → includes s (xs ++ x ∷ []) ≡ (includes s xs || str_eq x s)
includes-snoc s x [] = ground arith
includes-snoc s x (y ∷ ys) = ground (arith, includes-snoc s x ys)

IsDistinct-snoc :
    (xs : List String) (x : String)
    → includes x xs ≡ false
    → IsDistinct xs
    → IsDistinct (xs ++ x ∷ [])
IsDistinct-snoc [] x h d = (refl, tt)
IsDistinct-snoc (y ∷ ys) x h d = (
  ground (arith, includes-snoc y x ys, eq_iff x y, eq_iff y x),
  IsDistinct-snoc ys x (ground arith) d.1,
)

module _ (url_of : String → Option Url) (production : Bool) (P : String → Type 0) where
  abbrev Good : List String → Type 0
  Good origins = All P origins × IsDistinct origins

  add_origin-Good :
      (origins : List String) (o : Option Url) {more : List String}
      → ((url : Url) → o ≡ some url → is_refused production url ≡ false → P url.origin)
      → add_origin url_of production origins o ≡ some more
      → Good origins
      → Good more
  add_origin-Good origins none p e h = cc
  add_origin-Good origins (some url) {more} p e h = elim (Bool-cases (is_refused production url)) [
    | inl bad ↦ cc (rw bad at e)
    | inr good ↦ elim (Bool-cases (includes url.origin origins)) [
      | inl held ↦ let same : origins ≡ more = ground arith in subst Good same h
      | inr new ↦
          let same : origins ++ url.origin ∷ [] ≡ more = ground arith in
          subst Good same (
            All-append P origins (url.origin ∷ []) h.0 (p url refl good, tt),
            IsDistinct-snoc origins url.origin new h.1,
          )
    ]
  ]

  collect_origins-Good :
      (entries origins : List String) {found : List String}
      → ((origin : String) → IsGranted url_of production entries origin → P origin)
      → collect_origins url_of production entries origins ≡ some found
      → Good origins
      → Good found
  unfolding collect_origins
  collect_origins-Good [] origins {found} p e h =
      let same : origins ≡ found = cc in subst Good same h
  collect_origins-Good (entry ∷ entries) origins p e h =
      let (more, added, rest) =
        >>=-eq-some (add_origin url_of production origins (url_of entry)) _ e in
      collect_origins-Good entries more (λ origin granted. p origin (inr granted)) rest
        (add_origin-Good origins (url_of entry)
          (λ url u good. p url.origin (inl (url, u, good, refl))) added h)

-- Every allowed origin is the origin of an entry of `WEB_ORIGIN`, on a URL that is refused by none of
-- the tests, and none is in the list twice.
pub parse_web_origins_exact :
    (url_of : String → Option Url) (value : Option String) (production : Bool)
    {origins : List String}
    → parse_web_origins url_of value production ≡ some origins
    → All (IsGranted url_of production (entries_of value)) origins × IsDistinct origins
unfolding parse_web_origins
parse_web_origins_exact url_of value production e =
    collect_origins-Good url_of production (IsGranted url_of production (entries_of value))
      (entries_of value) [] (λ origin granted. granted) e (tt, tt)
