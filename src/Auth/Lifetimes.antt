-- ===== src/Auth/Lifetimes.antt =====
-- auth.ts never extends a session past its absolute deadline: login, rotation and the sliding idle
-- window of the middleware keep every stored session within its cap.
use sleeper_ff.Prelude.{
  ◌+◌, ◌≡◌, refl, ap, ◌∙◌, String, Bool, true, false, not, Option, none, some, arith, min, leb,
  ◌||◌, str_eq, is_some, if◌then◌else◌, ◌&&◌,
}
use sleeper_ff.Prelude.Assoc.{lookup, Every-lookup}
use sleeper_ff.Records.{
  Stamp, ApplicationUser, ApplicationSession, reuse_detected, user_removed, expired,
}
use sleeper_ff.Store.{StoreShape}
use sleeper_ff.Store.Sessions.{session_at, application_user, revoke_session_family}
use sleeper_ff.Store.Sessions.Families.{
  HasCappedSessions, IsCapped, revoke_session_family-HasCappedSessions,
  revoke_session-HasCappedSessions, touch_session-HasCappedSessions,
  rotate_session-HasCappedSessions, save_session-HasCappedSessions,
  prune_sessions-HasCappedSessions,
}
use sleeper_ff.Auth.{
  authentication, issue_session, admit, present, renewed, reject, successor, rotate_session,
  past_grace, Verdict, rejected,
}
use sleeper_ff.Auth.Settings.{SessionPolicy, cookie}

-- What an answer of the middleware leaves in the store.
record Keeps (r : Verdict × StoreShape) : Type 0 where
  kept : HasCappedSessions r.1

-- A conditional keeps what both of its branches have.
if_keeps {ℓ} :
    {A : Type 0} (Kept : A → Type ℓ) (test : Bool) {yes_part no_part : A}
    → Kept yes_part
    → Kept no_part
    → Kept (if test then yes_part else no_part)
if_keeps Kept true kept _ = kept
if_keeps Kept false _ kept = kept

module _ (digest : String → String) where
  -- A login stores a session within its cap, and prunes.
  pub issue_session-HasCappedSessions :
      (user : ApplicationUser) (policy : SessionPolicy) (now : Stamp)
      (raw csrf_token family : String) (s : StoreShape)
      → HasCappedSessions s
      → HasCappedSessions (issue_session digest user policy now raw csrf_token family s).1
  unfolding issue_session
  issue_session-HasCappedSessions user policy now raw csrf_token family s h =
      prune_sessions-HasCappedSessions now 604800000 _
        (save_session-HasCappedSessions _ s (omega arith) h)

  module _ (policy : SessionPolicy) (insecure : Bool) (now : Stamp) (fresh : String) where
    renewed-Keeps :
        (raw : String) (user : ApplicationUser) (session : ApplicationSession) (s : StoreShape)
        → lookup session.id_hash s.sessions ≡ some session
        → HasCappedSessions s
        → Keeps (renewed digest policy insecure now fresh raw user session s)
    unfolding renewed rotate_session
    renewed-Keeps raw user session s e h =
        if_keeps Keeps
          (not (is_some session.superseded_at)
            && leb (session.last_rotated_at + policy.rotate_ms) now)
          (record {
            kept =
                rotate_session-HasCappedSessions session.id_hash
                  (successor digest session policy now fresh) now s (omega arith) h;
          })
          (if_keeps Keeps
            (not (is_some session.superseded_at)
              && leb (session.last_seen_at + policy.touch_ms) now)
            (record {
              kept =
                  touch_session-HasCappedSessions session.id_hash session
                    (min (now + policy.idle_ms) session.absolute_expires_at) now s e (omega arith)
                    h;
            })
            (record { kept = h }))

    admit_user-Keeps :
        (raw : String) (session : ApplicationSession) (s : StoreShape) (o : Option ApplicationUser)
        → lookup session.id_hash s.sessions ≡ some session
        → HasCappedSessions s
        → Keeps (elim o [
          | none ↦ (
            reject digest policy insecure now fresh "Authentication required.",
            revoke_session_family session.family_id user_removed now s,
          )
          | some user ↦ renewed digest policy insecure now fresh raw user session s
        ])
    admit_user-Keeps raw session s none e h = record {
      kept = revoke_session_family-HasCappedSessions session.family_id user_removed now s h;
    }
    admit_user-Keeps raw session s (some user) e h = renewed-Keeps raw user session s e h

    admit-Keeps :
        (raw : String) (session : ApplicationSession) (s : StoreShape)
        → lookup session.id_hash s.sessions ≡ some session
        → HasCappedSessions s
        → Keeps (admit digest policy insecure now fresh raw session s)
    unfolding admit
    admit-Keeps raw session s e h =
        if_keeps Keeps (is_some session.revoked_at)
          (record {
            kept = revoke_session_family-HasCappedSessions session.family_id reuse_detected now s h;
          })
          (if_keeps Keeps (leb session.expires_at now || leb session.absolute_expires_at now)
            (record { kept = revoke_session-HasCappedSessions session.id_hash expired now s h })
            (if_keeps Keeps (past_grace digest policy insecure now fresh session.superseded_at)
              (record {
                kept =
                    revoke_session_family-HasCappedSessions session.family_id reuse_detected now s
                      h;
              })
              (admit_user-Keeps raw session s (application_user session.user_id s) e h)))

    present_found-Keeps :
        (raw : String) (s : StoreShape) (o : Option ApplicationSession)
        → lookup (digest raw) s.sessions ≡ o
        → HasCappedSessions s
        → Keeps (elim o [
          | none ↦ (reject digest policy insecure now fresh "Session expired or revoked.", s)
          | some session ↦ admit digest policy insecure now fresh raw session s
        ])
    present_found-Keeps raw s none e h = record { kept = h }
    present_found-Keeps raw s (some session) e h =
        let keyed = Every-lookup IsCapped (digest raw) s.sessions h e in
        admit-Keeps raw session s (ap (λ (k : String). lookup k s.sessions) keyed.0 ∙ e) h

    present-Keeps :
        (raw : String) (s : StoreShape)
        → HasCappedSessions s
        → Keeps (present digest policy insecure now fresh raw s)
    unfolding present session_at
    present-Keeps raw s h =
        if_keeps Keeps (str_eq raw "") (record { kept = h })
          (present_found-Keeps raw s (lookup (digest raw) s.sessions) refl h)

    -- Whatever a request presents, and on every branch of the middleware, each stored session stays
    -- under its own digest with an idle deadline no later than its absolute one.
    pub authentication-HasCappedSessions :
        (header : Option String) (s : StoreShape)
        → HasCappedSessions s
        → HasCappedSessions (authentication digest policy insecure now fresh header s).1
    unfolding authentication
    authentication-HasCappedSessions header s h = (header_keeps (cookie insecure header)).kept
      where
        header_keeps :
            (o : Option String)
            → Keeps (elim o [
              | none ↦ (rejected "Authentication required." none, s)
              | some raw ↦ present digest policy insecure now fresh raw s
            ])
        header_keeps none = record { kept = h }
        header_keeps (some raw) = present-Keeps raw s h
