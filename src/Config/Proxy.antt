-- ===== src/Config/Proxy.antt =====
-- apps/api/src/config/proxy.ts: how many hops of `X-Forwarded-For` the process believes. The text of
-- an error is not modelled, and a number is exact at every length.
use Prim.Native.Char.{code}
use sleeper_ff.Prelude.{
  ℕ, ◌≡◌, ◌≤◌, inl, inr, Bool-cases, refl, arith, String, Bool, true, false, not, ◌&&◌, ◌||◌,
  Option, none, some, List, [], ◌∷◌, ltb, leb, ◌==◌, str_eq, if◌then◌else◌, includes, all, keep,
  map, ap, ◌-◌, ◌∙◌, if_both,
}
use sleeper_ff.Prelude.Text.{trim, split, decimal}

pub data TrustProxySetting : Type 0 where
  trusts : Bool → TrustProxySetting
  hops : ℕ → TrustProxySetting
  listed : String → TrustProxySetting

pub data Parsed : Type 0 where
  setting : TrustProxySetting → Parsed
  -- a `TrustProxyError`
  refused : Parsed

abbrev pub named : List String
named = "loopback" ∷ "linklocal" ∷ "uniquelocal" ∷ []

is_digit : ℕ → Bool
is_digit c = leb b'0' c && leb c b'9'

is_hex_colon_dot : ℕ → Bool
is_hex_colon_dot c =
    leb b'0' c && leb c b'9'
    || leb b'a' c && leb c b'f'
    || leb b'A' c && leb c b'F'
    || c == b':'
    || c == b'.'

-- up to this many digits, and at least one, to the end
digits_to_end : ℕ → String → Bool
unfolding is_digit
digits_to_end n String.[] = false
digits_to_end n (String.◌∷◌ c String.[]) = is_digit (code c) && leb 1 n
digits_to_end n (String.◌∷◌ c (String.◌∷◌ d s)) =
    let rest = digits_to_end (n - 1) (String.◌∷◌ d s) in is_digit (code c) && leb 2 n && rest

-- after at least one character of an address
address_rest : String → Bool
unfolding is_hex_colon_dot digits_to_end
address_rest String.[] = true
address_rest (String.◌∷◌ c s) =
    let rest = address_rest s in
    if is_hex_colon_dot (code c) then rest else code c == b'/' && digits_to_end 3 s

-- `ADDRESS_OR_SUBNET.test(entry)`
unfoldable pub address_or_subnet : String → Bool
unfolding address_rest is_hex_colon_dot
address_or_subnet String.[] = false
address_or_subnet (String.◌∷◌ c s) = is_hex_colon_dot (code c) && address_rest s

-- `split(',').map(entry => entry.trim()).filter(Boolean)`
abbrev pub entries_of : String → List String
entries_of raw = keep (λ e. not (str_eq e "")) (map trim (split b',' raw))

abbrev pub is_entry : String → Bool
is_entry e = includes e named || address_or_subnet e

unfoldable pub parse_list : String → List String → Parsed
parse_list raw [] = refused
parse_list raw (e ∷ es) = if all is_entry (e ∷ es) then setting (listed raw) else refused

abbrev pub parse_hops : ℕ → Parsed
parse_hops n = if ltb 16 n then refused else setting (hops n)

abbrev pub parse_number : String → Option ℕ → Parsed
parse_number raw (some n) = parse_hops n
parse_number raw none = parse_list raw (entries_of raw)

parse_raw : Bool → String → Parsed
unfolding parse_list
parse_raw enforced raw =
    if str_eq raw ""
    then if enforced then refused else setting (trusts false)
    else if str_eq raw "false"
    then setting (trusts false)
    else if str_eq raw "true"
    then if enforced then refused else setting (trusts true)
    else parse_number raw (decimal raw)

-- `parseTrustProxy(value, { production, servesHttp })`
unfoldable pub parse_trust_proxy : Option String → Bool → Bool → Parsed
unfolding parse_raw
parse_trust_proxy none production serves_http =
    if production && serves_http then refused else setting (trusts false)
parse_trust_proxy (some value) production serves_http =
    parse_raw (production && serves_http) (trim value)

-- What a setting lets a client decide: a number of hops within the bound, or a list whose every
-- entry is a name or an address; the whole chain only where that is allowed.
abbrev pub IsGuarded : Bool → Parsed → Type 0
IsGuarded enforced (setting (trusts b)) = (enforced && b) ≡ false
IsGuarded enforced (setting (hops n)) = n ≤ 16
IsGuarded enforced (setting (listed raw)) = all is_entry (entries_of raw) ≡ true
IsGuarded enforced refused = Unit

parse_list-Guarded :
    (enforced : Bool) (raw : String) (es : List String)
    → entries_of raw ≡ es
    → IsGuarded enforced (parse_list raw es)
unfolding parse_list
parse_list-Guarded enforced raw [] e = tt
parse_list-Guarded enforced raw (x ∷ es) e = elim (Bool-cases (all is_entry (x ∷ es))) [
  | inl good ↦ rw good (ap (all is_entry) e ∙ good)
  | inr bad ↦ rw bad tt
]

parse_number-Guarded :
    (enforced : Bool) (raw : String) (o : Option ℕ) → IsGuarded enforced (parse_number raw o)
parse_number-Guarded enforced raw (some n) = elim (Bool-cases (ltb 16 n)) [
  | inl many ↦ rw many tt
  | inr few ↦ rw few (ground arith)
]
parse_number-Guarded enforced raw none = parse_list-Guarded enforced raw (entries_of raw) refl

-- What is refused where it would matter is harmless where it is not.
refusal-Guarded :
    (enforced b : Bool) → IsGuarded enforced (if enforced then refused else setting (trusts b))
refusal-Guarded true b = tt
refusal-Guarded false b = refl

unenforced : (enforced : Bool) → (enforced && false) ≡ false
unenforced true = refl
unenforced false = refl

parse_raw-Guarded : (enforced : Bool) (raw : String) → IsGuarded enforced (parse_raw enforced raw)
unfolding parse_raw
parse_raw-Guarded enforced raw =
    if_both (IsGuarded enforced) (str_eq raw "") (refusal-Guarded enforced false) (
      if_both (IsGuarded enforced) (str_eq raw "false") (unenforced enforced) (
        if_both (IsGuarded enforced) (str_eq raw "true") (refusal-Guarded enforced true)
          (parse_number-Guarded enforced raw (decimal raw))))

-- A parsed `TRUST_PROXY` guards the addresses that the limits are charged to: a process that serves
-- traffic in production never trusts the whole chain, a number of hops is at most 16, and of a list
-- every entry is one of the three names or has the form of an address or a subnet.
pub parse_trust_proxy-Guarded :
    (value : Option String) (production serves_http : Bool)
    → IsGuarded (production && serves_http) (parse_trust_proxy value production serves_http)
unfolding parse_trust_proxy
parse_trust_proxy-Guarded none production serves_http =
    refusal-Guarded (production && serves_http) false
parse_trust_proxy-Guarded (some value) production serves_http =
    parse_raw-Guarded (production && serves_http) (trim value)

is_trusting : Parsed → Bool
is_trusting (setting (trusts b)) = true
is_trusting (setting (hops n)) = false
is_trusting (setting (listed raw)) = false
is_trusting refused = false

parse_list-untrusting : (raw : String) (es : List String) → is_trusting (parse_list raw es) ≡ false
unfolding parse_list is_trusting
parse_list-untrusting raw [] = refl
parse_list-untrusting raw (x ∷ es) = ground arith

parse_number-untrusting : (raw : String) (o : Option ℕ) → is_trusting (parse_number raw o) ≡ false
unfolding is_trusting
parse_number-untrusting raw (some n) = ground arith
parse_number-untrusting raw none = parse_list-untrusting raw (entries_of raw)

-- Where no whole chain may be trusted, and an unset variable is refused, only `false` is left.
is_trusting-parse_raw :
    (raw : String) → is_trusting (parse_raw true raw) ≡ true → str_eq raw "false" ≡ true
unfolding parse_raw is_trusting
is_trusting-parse_raw raw h = ground (arith, parse_number-untrusting raw (decimal raw))

abbrev pub stated : Option String → Bool
stated none = false
stated (some value) = str_eq (trim value) "false"

-- A process that serves traffic in production takes the client's address from the connection only
-- where the setting says `false`: it is never what an unset variable means.
pub direct_is_stated :
    (value : Option String) (b : Bool)
    → parse_trust_proxy value true true ≡ setting (trusts b)
    → stated value ≡ true
unfolding parse_trust_proxy is_trusting
direct_is_stated none b e = cc
direct_is_stated (some value) b e = is_trusting-parse_raw (trim value) (ap is_trusting e)
