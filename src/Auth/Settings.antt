-- ===== src/Auth/Settings.antt =====
-- The session policy and the session cookie of apps/api/src/auth.ts.
use sleeper_ff.Prelude.{
  ℕ, ◌*◌, ◌/◌, min, String, Bool, not, ◌&&◌, Option, none, some, List, [], ◌∷◌, ◌==◌, if◌then◌else◌,
  ◌>>=◌, map,
}
use sleeper_ff.Prelude.Text.{split, trim, strip_prefix}
use Prim.Native.String.{◌++◌ as concat}

-- `NODE_ENV` is production, and the flag is `true`
unfoldable pub demo_enabled : Bool → Bool → Bool
demo_enabled production flag = not production && flag

unfoldable pub insecure_cookies_enabled : Bool → Bool → Bool
insecure_cookies_enabled production flag = not production && flag

unfoldable pub cookie_name : Bool → String
cookie_name insecure = if insecure then "huddle_session" else "__Host-huddle_session"

pub record SessionPolicy : Type 0 where
  pub absolute_ms : ℕ
  pub idle_ms : ℕ
  pub rotate_ms : ℕ
  pub grace_ms : ℕ
  pub touch_ms : ℕ

-- The numbers that the environment names, whole ones; `none` is an unset or empty variable.
pub record SessionEnv : Type 0 where
  pub ttl_hours : Option ℕ
  pub idle_minutes : Option ℕ
  pub rotate_minutes : Option ℕ
  pub grace_seconds : Option ℕ

-- `none` is the refusal to start.
unfoldable pub positive_number : Option ℕ → ℕ → ℕ → Option ℕ
positive_number none fallback unit_ms = some (fallback * unit_ms)
positive_number (some value) fallback unit_ms = if value == 0 then none else some (value * unit_ms)

unfoldable pub session_policy : SessionEnv → Option SessionPolicy
unfolding positive_number
session_policy env = do
  absolute ← positive_number env.ttl_hours 24 3600000
  idle ← positive_number env.idle_minutes 120 60000
  rotate ← positive_number env.rotate_minutes 30 60000
  grace ← positive_number env.grace_seconds 60 1000
  some (record {
    absolute_ms = absolute;
    idle_ms = min idle absolute;
    rotate_ms = min rotate absolute;
    grace_ms = grace;
    touch_ms = min 60000 (min idle absolute / 10);
  })

-- A `Set-Cookie` header, by its fields.
pub record SessionCookie : Type 0 where
  pub name : String
  pub value : String
  pub secure : Bool
  pub same_site : String
  pub max_age_seconds : ℕ

unfoldable pub session_cookie : Bool → String → ℕ → SessionCookie
unfolding cookie_name
session_cookie insecure value max_age_ms = record {
  name = cookie_name insecure;
  value = value;
  secure = not insecure;
  same_site = if insecure then "Lax" else "Strict";
  max_age_seconds = max_age_ms / 1000;
}

unfoldable pub clear_session_cookie : Bool → SessionCookie
unfolding session_cookie
clear_session_cookie insecure = session_cookie insecure "" 0

-- `v.startsWith(name=)`, with the value behind it
unfoldable first_value : String → List String → Option String
first_value name [] = none
first_value name (v ∷ vs) = elim (strip_prefix name v) [
  | some value ↦ some value
  | none ↦ first_value name vs
]

-- The session cookie in a request's `Cookie` header.
unfoldable pub cookie : Bool → Option String → Option String
unfolding first_value cookie_name
cookie insecure none = none
cookie insecure (some header) =
    first_value (concat (cookie_name insecure) "=") (map trim (split b';' header))
