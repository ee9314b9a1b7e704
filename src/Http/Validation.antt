-- ===== src/Http/Validation.antt =====
-- apps/api/src/http/validation.ts: the parameters of a request against a route's schema. A regular
-- expression is a parameter of its rule; the text of a refusal and decimal numbers are not modelled, and
-- the length of a text counts its characters.
use sleeper_ff.Prelude.{
  ℕ, suc, ◌≡◌, refl, ap, sym, ◌∙◌, String, Bool, true, false, not, ◌&&◌, ◌||◌, Option, none, some,
  List, [], ◌∷◌, any, length, leb, ltb, ◌==◌, str_eq, eq_iff, if◌then◌else◌, is_some, includes,
  Option-cases, Bool-cases, inl, inr, subst,
}
use sleeper_ff.Prelude.Assoc.{Assoc, lookup}
use sleeper_ff.Prelude.Text.{decimal, split, strip_prefix}

pub data Value : Type 0 where
  number : ℕ → Value
  text : String → Value
  switch : Bool → Value
  texts : List String → Value

-- `fallback` is what absence means, where it means something; `parse` gives `none` where it throws.
pub record Rule {ℓ} (A : Type ℓ) : Type ℓ where
  pub is_optional : Bool
  pub fallback : Option A
  pub parse : String → Option A

abbrev pub rule {ℓ} : {A : Type ℓ} → (String → Option A) → Rule A
rule parse = record { is_optional = false; fallback = none; parse = parse }

abbrev pub map_option {ℓ κ} : {A : Type ℓ} {B : Type κ} → (A → B) → Option A → Option B
map_option f none = none
map_option f (some a) = some (f a)

-- A rule in a schema, whose values are of several types
abbrev pub valued {ℓ} : {A : Type ℓ} → (A → Value) → Rule A → Rule Value
valued f item = record {
  is_optional = item.is_optional;
  fallback = map_option f item.fallback;
  parse = λ raw. map_option f (item.parse raw);
}

unfoldable pub text_length : String → ℕ
text_length String.[] = 0
text_length (String.◌∷◌ c s) = suc (text_length s)

abbrev pub in_range : ℕ → ℕ → Option ℕ → Option ℕ
in_range low high none = none
in_range low high (some n) = if leb low n && leb n high then some n else none

-- `-?\d{1,9}`, as a number that is not negative: a negative one is below every bound but that of 0
abbrev pub whole_number : String → Option ℕ
whole_number digits = if leb (text_length digits) 9 then decimal digits else none

abbrev pub negative_zero : Option ℕ → Option ℕ
negative_zero none = none
negative_zero (some n) = if n == 0 then some 0 else none

abbrev pub signed : String → Option String → Option ℕ
signed raw none = whole_number raw
signed raw (some digits) = negative_zero (whole_number digits)

-- `integer(min, max)`
unfoldable pub integer : ℕ → ℕ → Rule ℕ
integer low high = rule λ raw. in_range low high (signed raw (strip_prefix "-" raw))

-- `enumeration(values)`
abbrev pub enumeration : List String → Rule String
enumeration options = rule λ raw. if includes raw options then some raw else none

-- `flag()`
abbrev pub flag : Rule Bool
flag = rule λ raw.
    if not (str_eq raw "true") && not (str_eq raw "false") then none else some (str_eq raw "true")

-- `pattern(regex, maxLength)`
abbrev pub pattern_of : (String → Bool) → ℕ → Rule String
pattern_of test max_length =
    rule λ raw. if ltb max_length (text_length raw) || not (test raw) then none else some raw

unfoldable pub parse_each {ℓ} : {A : Type ℓ} → Rule A → List String → Option (List A)
parse_each item [] = some []
parse_each item (entry ∷ entries) = elim (item.parse entry) [
  | none ↦ none
  | some v ↦ elim (parse_each item entries) [ none ↦ none | some vs ↦ some (v ∷ vs) ]
]

-- `list(item, maxEntries)`
unfoldable pub list_of {ℓ} : {A : Type ℓ} → Rule A → ℕ → Rule (List A)
unfolding parse_each
list_of item max_entries = rule λ raw.
    let entries = split b',' raw in
    if ltb max_entries (length entries) || any (λ e. str_eq e "") entries
    then none
    else parse_each item entries

abbrev pub optional {ℓ} : {A : Type ℓ} → Rule A → Rule A
optional item = record item { is_optional = true; fallback = none }

abbrev pub with_default {ℓ} : {A : Type ℓ} → Rule A → A → Rule A
with_default item value = record item { is_optional = true; fallback = some value }

-- A parameter as it was supplied: once, more than once, or as something that is no text
pub data Supplied : Type 0 where
  once : String → Supplied
  repeated other : Supplied

-- A `ValidationError`
pub data Refusal : Type 0 where
  unrecognized supplied_twice malformed required exclusive : String → Refusal

pub data Result {ℓ} (A : Type ℓ) : Type ℓ where
  ok : A → Result A
  refused : Refusal → Result A

abbrev pub or_malformed : String → Option Value → Result (Option Value)
or_malformed name none = refused (malformed name)
or_malformed name (some v) = ok (some v)

-- One parameter of the schema
abbrev pub apply_rule : String → Rule Value → Option Supplied → Result (Option Value)
apply_rule name item none = if item.is_optional then ok item.fallback else refused (required name)
apply_rule name item (some repeated) = refused (supplied_twice name)
apply_rule name item (some other) = refused (malformed name)
apply_rule name item (some (once raw)) = or_malformed name (item.parse raw)

infixl 5 ◌>>=◌
abbrev pub ◌>>=◌ {ℓ κ} : {A : Type ℓ} {B : Type κ} → Result A → (A → Result B) → Result B
ok a >>= f = f a
refused e >>= f = refused e

unfoldable pub check_names : Assoc (Rule Value) → Assoc Supplied → Result (Unit {0})
check_names schema [] = ok tt
check_names schema ((name, supplied) ∷ source) =
    if is_some (lookup name schema) then check_names schema source else refused (unrecognized name)

unfoldable pub apply_rules : Assoc Supplied → Assoc (Rule Value) → Result (Assoc (Option Value))
apply_rules source [] = ok []
apply_rules source ((name, item) ∷ schema) = apply_rule name item (lookup name source) >>= λ v.
    apply_rules source schema >>= λ parsed. ok ((name, v) ∷ parsed)

-- `apply(source, schema)`
unfoldable pub apply : Assoc Supplied → Assoc (Rule Value) → Result (Assoc (Option Value))
unfolding check_names apply_rules
apply source schema = check_names schema source >>= λ checked. apply_rules source schema

pub >>=-eq-ok {ℓ κ} :
    {A : Type ℓ} {B : Type κ} (m : Result A) (f : A → Result B) {b : B}
    → m >>= f ≡ ok b
    → (a : A) × (m ≡ ok a) × (f a ≡ ok b)
>>=-eq-ok (ok a) f e = (a, refl, e)
>>=-eq-ok (refused r) f e = cc

check_names-known :
    (schema : Assoc (Rule Value)) (source : Assoc Supplied) (name : String) {u : Unit {0}}
    → check_names schema source ≡ ok u
    → is_some (lookup name source) ≡ true
    → is_some (lookup name schema) ≡ true
unfolding check_names lookup
check_names-known schema [] name e h = cc
check_names-known schema ((own, supplied) ∷ source) name {u} e h =
    elim (Bool-cases (is_some (lookup own schema))) [
      | inr unknown ↦ cc (rw unknown at e)
      | inl known ↦ elim (Bool-cases (str_eq own name)) [
        | inl same ↦ ap (λ n. is_some (lookup n schema)) (sym ((eq_iff own name).0 same)) ∙ known
        | inr different ↦ check_names-known schema source name (rw known at e) (rw different at h)
      ]
    ]

apply_rules-lookup :
    (source : Assoc Supplied) (schema : Assoc (Rule Value)) (name : String)
    {parsed : Assoc (Option Value)} {item : Rule Value}
    → apply_rules source schema ≡ ok parsed
    → lookup name schema ≡ some item
    → (v : Option Value) × (apply_rule name item (lookup name source) ≡ ok v)
      × (lookup name parsed ≡ some v)
unfolding apply_rules lookup
apply_rules-lookup source [] name e h = cc
apply_rules-lookup source ((own, first) ∷ schema) name {parsed} {item} e h =
    let (v, applied, rest) = >>=-eq-ok (apply_rule own first (lookup own source)) _ e in
    let (others, more, end) = >>=-eq-ok (apply_rules source schema) _ rest in
    let whole : parsed ≡ (own, v) ∷ others = cc end in
    elim (Bool-cases (str_eq own name)) [
      | inl same ↦
          let names : own ≡ name = (eq_iff own name).0 same in
          let items : first ≡ item = cc (rw same at h) in
          (
            v,
            subst (λ n. apply_rule n item (lookup n source) ≡ ok v) names
                (subst (λ r. apply_rule own r (lookup own source) ≡ ok v) items applied),
            ap (lookup name) whole ∙ (rw same refl),
          )
      | inr different ↦
          let (w, done, stored) = apply_rules-lookup source schema name more (rw different at h) in
          (w, done, ap (lookup name) whole ∙ (rw different stored))
    ]

-- Where the parameters of a request are accepted, each one that was supplied is in the schema, and its
-- parsed value is what its rule there makes of what was supplied.
pub apply_exact :
    (source : Assoc Supplied) (schema : Assoc (Rule Value)) (name : String)
    {parsed : Assoc (Option Value)}
    → apply source schema ≡ ok parsed
    → is_some (lookup name source) ≡ true
    → (item : Rule Value) × (v : Option Value) × (lookup name schema ≡ some item)
      × (apply_rule name item (lookup name source) ≡ ok v)
      × (lookup name parsed ≡ some v)
unfolding apply
apply_exact source schema name e h =
    let (u, checked, rules) = >>=-eq-ok (check_names schema source) _ e in
    let known = check_names-known schema source name checked h in
    elim (Option-cases (lookup name schema)) [
      | inl missing ↦ cc (known, ap is_some missing)
      | inr (item, found) ↦
          let (v, applied, stored) = apply_rules-lookup source schema name rules found in
          (item, v, found, applied, stored)
    ]
