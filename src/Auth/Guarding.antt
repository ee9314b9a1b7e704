-- ===== src/Auth/Guarding.antt =====
-- Which requests the `authentication` middleware of auth.ts lets through, and what it does to the
-- stored sessions of those that it turns away.
use sleeper_ff.Prelude.{
  ◌<◌, ◌≡◌, ◌≢◌, String, Bool, false, Option, none, some, arith, Option-cases, inl, inr,
}
use sleeper_ff.Records.{Stamp, ApplicationUser, ApplicationSession}
use sleeper_ff.Store.{StoreShape}
use sleeper_ff.Store.Sessions.{session_at, application_user}
use sleeper_ff.Auth.{Authentication, accepted, authentication, admit, present, renewed, past_grace}
use sleeper_ff.Auth.Settings.{SessionPolicy, SessionCookie, cookie}

module _ (digest : String → String) (policy : SessionPolicy) (insecure : Bool) (now : Stamp)
    (fresh : String) where
  -- What a request must show to be let through as `a`.
  pub record IsEntitled (header : Option String) (s : StoreShape) (a : Authentication)
      : Type 0 where
    pub raw : String
    pub session : ApplicationSession
    pub presented : cookie insecure header ≡ some raw
    pub stored : session_at (digest raw) s ≡ some session
    pub not_revoked : session.revoked_at ≡ none
    pub in_idle_window : now < session.expires_at
    pub in_lifetime : now < session.absolute_expires_at
    pub in_grace : past_grace digest policy insecure now fresh session.superseded_at ≡ false
    pub account : application_user session.user_id s ≡ some a.user
    pub same_family : a.session.family_id ≡ session.family_id
    pub same_lifetime : a.session.absolute_expires_at ≡ session.absolute_expires_at

  renewed_fields :
      (raw : String) (user : ApplicationUser) (session : ApplicationSession) (s : StoreShape)
      {a : Authentication} {c : Option SessionCookie}
      → (renewed digest policy insecure now fresh raw user session s).0 ≡ accepted a c
      → (a.user ≡ user)
        × (a.session.family_id ≡ session.family_id)
        × (a.session.absolute_expires_at ≡ session.absolute_expires_at)
  unfolding renewed
  renewed_fields raw user session s e = ground arith

  -- The tests that `admit` makes, all passed.
  abbrev Passed : ApplicationSession → StoreShape → Authentication → Type 0
  Passed session s a =
      (session.revoked_at ≡ none)
      × (now < session.expires_at)
      × (now < session.absolute_expires_at)
      × (past_grace digest policy insecure now fresh session.superseded_at ≡ false)
      × (application_user session.user_id s ≡ some a.user)
      × (a.session.family_id ≡ session.family_id)
      × (a.session.absolute_expires_at ≡ session.absolute_expires_at)

  admit_fields :
      (raw : String) (session : ApplicationSession) (s : StoreShape) (user : ApplicationUser)
      {a : Authentication} {c : Option SessionCookie}
      → application_user session.user_id s ≡ some user
      → (admit digest policy insecure now fresh raw session s).0 ≡ accepted a c
      → Passed session s a
  unfolding admit
  admit_fields raw session s user {a} {c} u e =
      ground (arith, renewed_fields raw user session s {a = a} {c = c})

  admit_needs_user :
      (raw : String) (session : ApplicationSession) (s : StoreShape) {a : Authentication}
      {c : Option SessionCookie}
      → application_user session.user_id s ≡ none
      → (admit digest policy insecure now fresh raw session s).0 ≢ accepted a c
  unfolding admit
  admit_needs_user raw session s u e = ground arith

  admit-Passed :
      (raw : String) (session : ApplicationSession) (s : StoreShape) {a : Authentication}
      {c : Option SessionCookie}
      → (admit digest policy insecure now fresh raw session s).0 ≡ accepted a c
      → Passed session s a
  admit-Passed raw session s e = elim (Option-cases (application_user session.user_id s)) [
    | inl gone ↦ absurd (admit_needs_user raw session s gone e)
    | inr (user, found) ↦ admit_fields raw session s user found e
  ]

  -- A request is let through only with the id of a stored session in its cookie that is not revoked,
  -- inside both of its deadlines, superseded for no longer than the grace window, and of an account
  -- that is still there; and what goes on with it is that account and a session of that family with
  -- that lifetime.
  pub authentication-IsEntitled :
      (header : Option String) (s : StoreShape) {a : Authentication} {c : Option SessionCookie}
      → (authentication digest policy insecure now fresh header s).0 ≡ accepted a c
      → IsEntitled header s a
  unfolding authentication present
  authentication-IsEntitled header s {a} {c} e = elim (Option-cases (cookie insecure header)) [
    | inl absent ↦ absurd (ground arith)
    | inr (raw, presented) ↦ elim (Option-cases (session_at (digest raw) s)) [
      | inl unknown ↦ absurd (ground arith)
      | inr (session, stored) ↦
          let p = admit-Passed raw session s {a = a} {c = c} (ground arith) in
          record {
            raw = raw;
            session = session;
            presented = presented;
            stored = stored;
            not_revoked = p.0;
            in_idle_window = p.1;
            in_lifetime = p.2;
            in_grace = p.3;
            account = p.4;
            same_family = p.5;
            same_lifetime = p.6;
          }
    ]
  ]
