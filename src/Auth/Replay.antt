-- ===== src/Auth/Replay.antt =====
-- What auth.ts does with the id of a session that may have been stolen: one that was revoked, or one
-- that was rotated away longer ago than the grace window.
use sleeper_ff.Prelude.{
  ◌<◌, ◌≡◌, ap, sym, ◌∙◌, ◌≢◌, ◌⊎◌, inl, inr, String, Bool, true, Option, some, arith, is_some,
  eq_iff,
}
use sleeper_ff.Prelude.Assoc.{lookup}
use sleeper_ff.Records.{Stamp, ApplicationSession, reuse_detected}
use sleeper_ff.Store.{StoreShape}
use sleeper_ff.Store.Sessions.{session_at, revoke_session_family}
use sleeper_ff.Store.Sessions.Families.{revoke_session_family_all}
use sleeper_ff.Auth.{Verdict, rejected, authentication, admit, present, past_grace, reject}
use sleeper_ff.Auth.Settings.{SessionPolicy, cookie, clear_session_cookie}

module _ (digest : String → String) (policy : SessionPolicy) (insecure : Bool) (now : Stamp)
    (fresh : String) where
  -- The session was revoked; or, inside its deadlines, it is presented after its grace window.
  abbrev pub IsReplayed : ApplicationSession → Type 0
  IsReplayed session =
      (is_some session.revoked_at ≡ true)
      ⊎ ((now < session.expires_at)
          × (now < session.absolute_expires_at)
          × (past_grace digest policy insecure now fresh session.superseded_at ≡ true))

  abbrev turned_away : ApplicationSession → StoreShape → Verdict × StoreShape
  turned_away session s = (
    rejected "Session expired or revoked." (some (clear_session_cookie insecure)),
    revoke_session_family session.family_id reuse_detected now s,
  )

  admit_replayed :
      (raw : String) (session : ApplicationSession) (s : StoreShape)
      → IsReplayed session
      → admit digest policy insecure now fresh raw session s ≡ turned_away session s
  unfolding admit reject
  admit_replayed raw session s (inl revoked) = rw revoked
  admit_replayed raw session s (inr late) = ground arith

  authentication_replayed :
      (header : Option String) (s : StoreShape) (raw : String) (session : ApplicationSession)
      → cookie insecure header ≡ some raw
      → raw ≢ ""
      → session_at (digest raw) s ≡ some session
      → IsReplayed session
      → authentication digest policy insecure now fresh header s ≡ turned_away session s
  unfolding authentication present
  authentication_replayed header s raw session c n e r =
      ground (arith, eq_iff raw "", admit_replayed raw session s r)

  -- Presenting the id of a stored session that was revoked, or that is inside its deadlines and was
  -- superseded longer ago than the grace window, is refused and clears the cookie; afterwards every
  -- stored session of the same rotation family is revoked, the thief's successor and the owner's.
  pub replay_revokes_family :
      (header : Option String) (s : StoreShape) (raw : String) (session : ApplicationSession)
      (id : String) (other : ApplicationSession)
      → cookie insecure header ≡ some raw
      → raw ≢ ""
      → session_at (digest raw) s ≡ some session
      → IsReplayed session
      → lookup id (authentication digest policy insecure now fresh header s).1.sessions ≡ some other
      → other.family_id ≡ session.family_id
      → ((authentication digest policy insecure now fresh header s).0
          ≡ rejected "Session expired or revoked." (some (clear_session_cookie insecure)))
        × (is_some other.revoked_at ≡ true)
  replay_revokes_family header s raw session id other c n e r found same =
      let replayed = authentication_replayed header s raw session c n e r in
      (
        ap (λ p. p.0) replayed,
        (revoke_session_family_all session.family_id reuse_detected now s id other
              (ap (λ p. lookup id p.1.sessions) (sym replayed) ∙ found)).0
            same,
      )
