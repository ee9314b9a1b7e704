-- ===== src/Http/Selection.antt =====
-- apps/api/src/http/validation.ts: the vocabulary of the routes (`fields`, without the seasons and the
-- usernames), a parameter of a path, and the selection of players.
use Prim.Native.Char.{code}
use sleeper_ff.Prelude.{
  ℕ, ◌≡◌, ◌≤◌, refl, arith, String, Bool, true, false, not, ◌&&◌, ◌||◌, Option, none, some, List,
  [], ◌∷◌, leb, ltb, ◌==◌, str_eq, or_else, all, if◌then◌else◌, is_some, Bool-cases, inl, inr,
  subst, sym, Option-cases,
}
use sleeper_ff.Prelude.Assoc.{Assoc, lookup}
use sleeper_ff.Prelude.Text.{trim}
use sleeper_ff.Players.Normalizing.{id_rest, valid_player_id}
use sleeper_ff.Http.Validation.{
  Value, number, text, texts, Rule, valued, text_length, integer, enumeration, flag, pattern_of,
  list_of, optional, with_default, Supplied, Result, ok, refused, required, malformed, exclusive,
  apply, ◌>>=◌, >>=-eq-ok, apply_exact, apply_rule, once, repeated, other,
}

-- `/^[A-Za-z0-9_-]{1,n}$/`
abbrev pub is_id : ℕ → String → Bool
is_id n raw = not (str_eq raw "") && id_rest n raw

is_printable : String → Bool
is_printable String.[] = true
is_printable (String.◌∷◌ c s) =
    let rest = is_printable s in not (leb (code c) 31 || code c == 127) && rest

-- `/^[^\u0000-\u001f\u007f]{2,100}$/`
unfoldable pub is_query : String → Bool
unfolding is_printable
is_query raw = leb 2 (text_length raw) && leb (text_length raw) 100 && is_printable raw

abbrev pub league_id : Rule String
league_id = pattern_of (is_id 32) 32

abbrev pub week : Rule ℕ
week = integer 1 18

abbrev pub player_ids : Rule (List String)
player_ids = list_of (pattern_of (is_id 64) 64) 100

abbrev pub player_query : Rule String
player_query = pattern_of is_query 100

abbrev pub result_limit : Rule ℕ
result_limit = integer 1 50

abbrev pub force : Rule Bool
force = flag

abbrev pub league_format : Rule String
league_format = enumeration ("redraft" ∷ "dynasty" ∷ [])

or_refused {ℓ} : {A : Type ℓ} → String → Option A → Result A
or_refused name none = refused (malformed name)
or_refused name (some a) = ok a

-- `param`, of the route's parameter by its name, `none` where it is no text
unfoldable pub param {ℓ} : {A : Type ℓ} → String → Option String → Rule A → Result A
unfolding or_refused
param name none item = refused (required name)
param name (some raw) item =
    let parsed = or_refused name (item.parse raw) in
    if str_eq raw "" then refused (required name) else parsed

-- `PlayerSelection`, its `null` as `unselected`
pub data PlayerSelection : Type 0 where
  by_ids : List String → PlayerSelection
  by_query : String → ℕ → PlayerSelection
  unselected : PlayerSelection

abbrev pub selection_schema : Assoc (Rule Value)
selection_schema =
    ("ids", optional (valued texts player_ids))
    ∷ ("q", optional (valued text player_query))
    ∷ ("limit", with_default (valued number result_limit) (number 25))
    ∷ []

-- What a parsed value is, at the type that its rule gives it
texts_in : Option (Option Value) → Option (List String)
texts_in (some (some (texts entries))) = some entries
texts_in held = none

text_in : Option (Option Value) → Option String
text_in (some (some (text t))) = some t
text_in held = none

number_in : Option (Option Value) → Option ℕ
number_in (some (some (number n))) = some n
number_in held = none

abbrev by_trimmed : String → ℕ → Result PlayerSelection
by_trimmed trimmed limit =
    if ltb (text_length trimmed) 2 then refused (malformed "q") else ok (by_query trimmed limit)

abbrev choose : Option (List String) → Option String → ℕ → Result PlayerSelection
choose (some ids) (some q) limit = refused (exclusive "ids")
choose (some ids) none limit =
    if not (all valid_player_id ids) then refused (malformed "ids") else ok (by_ids ids)
choose none (some q) limit = by_trimmed (trim q) limit
choose none none limit = ok unselected

-- `playerSelection` of the query. The schema gives `limit` a value wherever it is accepted.
unfoldable pub player_selection : Assoc Supplied → Result PlayerSelection
unfolding texts_in text_in number_in
player_selection source = apply source selection_schema >>= λ parsed.
    choose (texts_in (lookup "ids" parsed)) (text_in (lookup "q" parsed))
      (or_else (number_in (lookup "limit" parsed)) 25)

-- What the routes may rely on in a selection
unfoldable pub IsUsable : PlayerSelection → Type 0
IsUsable (by_ids ids) = all valid_player_id ids ≡ true
IsUsable (by_query q limit) = 2 ≤ text_length q
IsUsable unselected = Unit {0}

by_trimmed-IsUsable :
    (trimmed : String) (limit : ℕ) {chosen : PlayerSelection}
    → by_trimmed trimmed limit ≡ ok chosen
    → IsUsable chosen
unfolding IsUsable
by_trimmed-IsUsable trimmed limit {chosen} e = elim (Bool-cases (ltb (text_length trimmed) 2)) [
  | inl short ↦ cc (rw short at e)
  | inr long ↦
      let whole : by_query trimmed limit ≡ chosen = cc (rw long at e) in
      subst IsUsable whole (ground arith)
]

choose-IsUsable :
    (ids : Option (List String)) (q : Option String) (limit : ℕ) {chosen : PlayerSelection}
    → choose ids q limit ≡ ok chosen
    → IsUsable chosen
unfolding IsUsable
choose-IsUsable (some ids) (some q) limit e = cc
choose-IsUsable (some ids) none limit {chosen} e = elim (Bool-cases (all valid_player_id ids)) [
  | inr refused_ids ↦ cc (rw refused_ids at e)
  | inl valid ↦ let whole : by_ids ids ≡ chosen = cc (rw valid at e) in subst IsUsable whole valid
]
choose-IsUsable none (some q) limit e = by_trimmed-IsUsable (trim q) limit e
choose-IsUsable none none limit {chosen} e =
    let whole : unselected ≡ chosen = cc e in subst IsUsable whole tt

-- A selection that is accepted names only players that the directory's rule for ids accepts, or searches
-- for at least two characters once the white space around them is off.
pub player_selection-IsUsable :
    (source : Assoc Supplied) {chosen : PlayerSelection}
    → player_selection source ≡ ok chosen
    → IsUsable chosen
unfolding player_selection
player_selection-IsUsable source e =
    let (parsed, accepted, chosen) = >>=-eq-ok (apply source selection_schema) _ e in
    choose-IsUsable (texts_in (lookup "ids" parsed)) (text_in (lookup "q" parsed))
      (or_else (number_in (lookup "limit" parsed)) 25) chosen

text_in-some :
    (name : String) (item : Rule String) (supplied : Option Supplied) (v : Option Value)
    → apply_rule name (optional (valued text item)) supplied ≡ ok v
    → is_some supplied ≡ true
    → is_some (text_in (some v)) ≡ true
unfolding text_in
text_in-some name item none v e h = cc
text_in-some name item (some repeated) v e h = cc
text_in-some name item (some other) v e h = cc
text_in-some name item (some (once raw)) v e h = elim (Option-cases (item.parse raw)) [
  | inl refused_text ↦ cc (rw refused_text at e)
  | inr (t, parsed) ↦
      let whole : some (text t) ≡ v = cc (rw parsed at e) in
      subst (λ o. is_some (text_in (some o)) ≡ true) whole refl
]

choose-searched :
    (ids : Option (List String)) (q : Option String) (limit : ℕ) {chosen : List String}
    → choose ids q limit ≡ ok (by_ids chosen)
    → is_some q ≡ false
choose-searched (some ids) (some q) limit e = cc
choose-searched none (some q) limit e = elim (Bool-cases (ltb (text_length (trim q)) 2)) [
  | inl short ↦ cc (rw short at e)
  | inr long ↦ cc (rw long at e)
]
choose-searched ids none limit e = refl

-- A selection by ids is only made of a query that supplies no search, not even an empty one.
pub player_selection-exclusive :
    (source : Assoc Supplied) {ids : List String}
    → player_selection source ≡ ok (by_ids ids)
    → is_some (lookup "q" source) ≡ false
unfolding player_selection lookup
player_selection-exclusive source e =
    let (parsed, accepted, chosen) = >>=-eq-ok (apply source selection_schema) _ e in
    elim (Bool-cases (is_some (lookup "q" source))) [
      | inr absent ↦ absent
      | inl searched ↦
          let (item, v, found, applied, stored) =
            apply_exact source selection_schema "q" accepted searched in
          let same : optional (valued text player_query) ≡ item = cc found in
          let ruled = subst (λ r. apply_rule "q" r (lookup "q" source) ≡ ok v) (sym same) applied in
          let held = text_in-some "q" player_query (lookup "q" source) v ruled searched in
          let free =
            choose-searched (texts_in (lookup "ids" parsed)) (text_in (lookup "q" parsed))
              (or_else (number_in (lookup "limit" parsed)) 25) chosen in
          cc (rw stored at free, held)
    ]
