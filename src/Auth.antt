-- ===== src/Auth.antt =====
-- apps/api/src/auth.ts: session policy, login sessions, their rotation, and the two request guards.
-- `node:crypto` is the parameter `digest` and the random tokens that callers pass in; the clock is the
-- argument `now`. Counting failures in a metric changes no answer and is left out.
pub mod Settings
pub mod Guarding
pub mod Policy
pub mod Lifetimes
pub mod Replay
use sleeper_ff.Prelude.{
  ℕ, ◌+◌, ◌-◌, ◌*◌, ◌/◌, min, String, Bool, true, false, not, ◌&&◌, ◌||◌, Option, none, some, List,
  [], ◌∷◌, str_eq, ltb, leb, ◌==◌, if◌then◌else◌, is_some, any, ◌>>=◌, includes, map, or_else,
  length,
}
use sleeper_ff.Prelude.Text.{split, trim, strip_prefix}
use Prim.Native.String.{◌++◌ as concat}
use sleeper_ff.Records.{
  Stamp, ApplicationUser, ApplicationSession, expired, reuse_detected, user_removed,
}
use sleeper_ff.Store.{StoreShape}
use sleeper_ff.Store.Sessions.{
  session_at, application_user, save_session, revoke_session, revoke_session_family, touch_session,
  rotate_session as store_rotate_session, prune_sessions, add_session_csrf_hash,
}
use sleeper_ff.Auth.Settings.{
  SessionCookie, SessionEnv, SessionPolicy, clear_session_cookie, cookie, session_cookie,
  session_policy,
}
use sleeper_ff.Config.Origins.{Url, parse_web_origins}

pub record Authentication : Type 0 where
  pub user : ApplicationUser
  pub session : ApplicationSession
  pub raw_session_id : String

pub data Verdict : Type 0 where
  -- 401 with its message, and the cookie that it clears, if it does
  rejected : String → Option SessionCookie → Verdict
  -- the request goes on, with a new cookie after a rotation
  accepted : Authentication → Option SessionCookie → Verdict

module _ (digest : String → String) where
  -- `issueSession`: a new family for `user`, from two fresh tokens and a fresh family id.
  unfoldable pub issue_session :
      ApplicationUser
      → SessionPolicy
      → Stamp
      → String
      → String
      → String
      → StoreShape
      → ApplicationSession × StoreShape
  issue_session user policy now raw csrf_token family s =
      let session : ApplicationSession = record {
        id_hash = digest raw;
        user_id = user.id;
        family_id = family;
        csrf_hashes = digest csrf_token ∷ [];
        created_at = now;
        last_rotated_at = now;
        last_seen_at = now;
        expires_at = now + min policy.idle_ms policy.absolute_ms;
        absolute_expires_at = now + policy.absolute_ms;
        superseded_at = none;
        revoked_at = none;
        revoked_reason = none;
      } in
      (session, (prune_sessions now 604800000 (save_session session s)).1)

  -- The successor of `current` under a fresh token.
  abbrev pub successor : ApplicationSession → SessionPolicy → Stamp → String → ApplicationSession
  successor current policy now raw = record current {
    id_hash = digest raw;
    last_rotated_at = now;
    last_seen_at = now;
    expires_at = min (now + policy.idle_ms) current.absolute_expires_at;
    superseded_at = none;
  }

  -- `rotateSession`
  unfoldable pub rotate_session :
      ApplicationSession
      → SessionPolicy
      → Stamp
      → String
      → StoreShape
      → ApplicationSession × StoreShape
  rotate_session current policy now raw s =
      let next = successor current policy now raw in
      (next, store_rotate_session current.id_hash next now s)

  -- What the middleware `authentication` closes over, and a fresh token for a rotation.
  module _ (policy : SessionPolicy) (insecure : Bool) (now : Stamp) (fresh : String) where
    unfoldable pub reject : String → Verdict
    reject error = rejected error (some (clear_session_cookie insecure))

    abbrev pub touched : ApplicationSession → ApplicationSession
    touched session = record session {
      expires_at = min (now + policy.idle_ms) session.absolute_expires_at;
      last_seen_at = now;
    }

    abbrev pub is_current : ApplicationSession → Bool
    is_current session = not (is_some session.superseded_at)

    -- A session that may be used: rotated, touched, or left as it is.
    unfoldable pub renewed :
        String → ApplicationUser → ApplicationSession → StoreShape → Verdict × StoreShape
    unfolding rotate_session
    renewed raw user session s =
        if is_current session && leb (session.last_rotated_at + policy.rotate_ms) now
        then (let (next, s') = rotate_session session policy now fresh s in
            (
              accepted (record { user = user; session = next; raw_session_id = fresh })
                  (some (session_cookie insecure fresh (session.absolute_expires_at - now))),
              s',
            ))
        else if is_current session && leb (session.last_seen_at + policy.touch_ms) now
        then (let t = touched session in
            (
              accepted (record { user = user; session = t; raw_session_id = raw }) none,
              touch_session session.id_hash t.expires_at now s,
            ))
        else (accepted (record { user = user; session = session; raw_session_id = raw }) none, s)

    -- A predecessor that is presented after its grace window.
    abbrev pub past_grace : Option Stamp → Bool
    past_grace none = false
    past_grace (some at) = ltb (at + policy.grace_ms) now

    unfoldable pub admit : String → ApplicationSession → StoreShape → Verdict × StoreShape
    unfolding reject
    admit raw session s =
        if is_some session.revoked_at
        then (
          reject "Session expired or revoked.",
          revoke_session_family session.family_id reuse_detected now s,
        )
        else if leb session.expires_at now || leb session.absolute_expires_at now
        then (
          reject "Session expired. Sign in again.",
          revoke_session session.id_hash expired now s,
        )
        else if past_grace session.superseded_at
        then (
          reject "Session expired or revoked.",
          revoke_session_family session.family_id reuse_detected now s,
        )
        else elim (application_user session.user_id s) [
          | none ↦ (
            reject "Authentication required.",
            revoke_session_family session.family_id user_removed now s,
          )
          | some user ↦ renewed raw user session s
        ]

    -- An empty id is no id.
    unfoldable pub present : String → StoreShape → Verdict × StoreShape
    unfolding reject
    present raw s =
        if str_eq raw ""
        then (rejected "Authentication required." none, s)
        else elim (session_at (digest raw) s) [
          | none ↦ (reject "Session expired or revoked.", s)
          | some session ↦ admit raw session s
        ]

    -- The middleware, for the request's cookie header.
    unfoldable pub authentication : Option String → StoreShape → Verdict × StoreShape
    unfolding present
    authentication header s = elim (cookie insecure header) [
      | none ↦ (rejected "Authentication required." none, s)
      | some raw ↦ present raw s
    ]

  abbrev pub mutating : List String
  mutating = "POST" ∷ "PUT" ∷ "PATCH" ∷ "DELETE" ∷ []

  -- Whether `csrf` lets a request of this method go on.
  unfoldable pub csrf : String → Option String → Authentication → Bool
  csrf method supplied auth = if not (includes method mutating) then true else elim supplied [
    | none ↦ false
    | some token ↦
        not (str_eq token "") && any (λ hash. str_eq hash (digest token)) auth.session.csrf_hashes
  ]

-- The settings that `validateAuthenticationConfig` reads, each flag as its test. Whether a hash has the
-- form of a scrypt hash is a field.
pub record AuthenticationEnv : Type 0 where
  pub production : Bool
  pub demo_auth : Bool
  pub insecure_dev_cookies : Bool
  pub has_password_hash : Bool
  pub is_scrypt_hash : Bool
  pub has_identity_provider : Bool
  pub web_origin : Option String
  pub session : SessionEnv

-- Whether the allowed origins are read, and where `needed` there is one
abbrev pub has_origins : Bool → Option (List String) → Bool
has_origins needed none = false
has_origins needed (some origins) = not (needed && leb (length origins) 0)

-- `validateAuthenticationConfig`: whether the process may start. `url_of` is `new URL`.
unfoldable pub validate_authentication_config :
    (String → Option Url) → AuthenticationEnv → Bool → Bool
validate_authentication_config url_of env serves_http =
    if env.production && env.demo_auth
    then false
    else if env.production && env.insecure_dev_cookies
    then false
    else if (env.production && serves_http)
        && not (env.has_password_hash || env.has_identity_provider)
    then false
    else if (env.production && env.has_password_hash) && not env.is_scrypt_hash
    then false
    else if (env.production && serves_http) && str_eq (trim (or_else env.web_origin "")) ""
    then false
    else has_origins (env.production && serves_http)
        (parse_web_origins url_of env.web_origin env.production)
      && is_some (session_policy env.session)

-- `issueCsrfToken`: the digest of a fresh token joins the session's, of which five are kept.
unfoldable pub issue_csrf_token :
    (String → String) → ApplicationSession → String → StoreShape → StoreShape
issue_csrf_token digest session csrf_token s =
    add_session_csrf_hash session.id_hash (digest csrf_token) 5 s
