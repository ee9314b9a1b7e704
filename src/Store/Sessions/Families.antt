-- ===== src/Store/Sessions/Families.antt =====
-- What the session writes of store.ts do to a rotation family, and to the deadlines of its sessions.
use sleeper_ff.Prelude.{
  ℕ, ◌≤◌, ◌≡◌, ◌≢◌, refl, String, true, Option, none, some, arith, eq_iff, is_some,
}
use sleeper_ff.Prelude.Assoc.{
  lookup, insert, lookup-map_values, Every, Every-lookup, Every-remove_if, Every-insert,
  Every-map_values,
}
use mathlib.Core.Path.{subst}
use sleeper_ff.Records.{Stamp, ApplicationSession, SessionRevocation}
use sleeper_ff.Store.{StoreShape}
use sleeper_ff.Store.Sessions.{
  revoke, revoke_session_family, in_family, change_session, change_session, save_session,
  rotate_session, touch_session, revoke_session, prune_sessions,
}

revoke-revoked :
    (reason : SessionRevocation) (at : Stamp) (session : ApplicationSession)
    → is_some (revoke reason at session).revoked_at ≡ true
unfolding revoke
revoke-revoked reason at session = ground arith

-- What is stored where `session` was, once its family is revoked.
Settled : String → Option ApplicationSession → ApplicationSession → Type 0
Settled family before after =
    ((after.family_id ≡ family) → is_some after.revoked_at ≡ true)
    × ((after.family_id ≢ family) → before ≡ some after)

Settled-one :
    (family : String) (reason : SessionRevocation) (at : Stamp) (v : ApplicationSession)
    → Settled family (some v) (in_family family reason at v)
unfolding Settled revoke
Settled-one family reason at v =
    (λ h. ground (arith, eq_iff v.family_id family), λ h. ground (arith, eq_iff v.family_id family))

settled :
    (family : String) (reason : SessionRevocation) (at : Stamp) (before : Option ApplicationSession)
    (after : ApplicationSession)
    → elim before [ none ↦ none | some v ↦ some (in_family family reason at v) ] ≡ some after
    → Settled family before after
unfolding Settled revoke
settled family reason at none after e = cc
settled family reason at (some v) after e =
    let same : in_family family reason at v ≡ after = cc in
    subst (Settled family (some v)) same (Settled-one family reason at v)

-- After a family is revoked, every stored session of it is revoked, and every stored session of
-- another family is as it was.
pub revoke_session_family_all :
    (family : String) (reason : SessionRevocation) (at : Stamp) (s : StoreShape) (id : String)
    (session : ApplicationSession)
    → lookup id (revoke_session_family family reason at s).sessions ≡ some session
    → ((session.family_id ≡ family) → is_some session.revoked_at ≡ true)
      × ((session.family_id ≢ family) → lookup id s.sessions ≡ some session)
unfolding revoke_session_family Settled
revoke_session_family_all family reason at s id session e =
    settled family reason at (lookup id s.sessions) session (rw lookup-map_values at e)

-- A session is stored under its own digest, and its idle deadline does not pass its absolute one.
abbrev pub IsCapped : String → ApplicationSession → Type 0
IsCapped key session = (session.id_hash ≡ key) × (session.expires_at ≤ session.absolute_expires_at)

abbrev pub HasCappedSessions : StoreShape → Type 0
HasCappedSessions s = Every IsCapped s.sessions

revoke-IsCapped :
    (reason : SessionRevocation) (at : Stamp) (key : String) (session : ApplicationSession)
    → IsCapped key session
    → IsCapped key (revoke reason at session)
unfolding revoke
revoke-IsCapped reason at key session h = ground arith

in_family-IsCapped :
    (family : String) (reason : SessionRevocation) (at : Stamp) (key : String)
    (session : ApplicationSession)
    → IsCapped key session
    → IsCapped key (in_family family reason at session)
in_family-IsCapped family reason at key session h =
    let r = revoke-IsCapped reason at key session h in ground arith

pub revoke_session_family-HasCappedSessions :
    (family : String) (reason : SessionRevocation) (at : Stamp) (s : StoreShape)
    → HasCappedSessions s
    → HasCappedSessions (revoke_session_family family reason at s)
unfolding revoke_session_family
revoke_session_family-HasCappedSessions family reason at s h =
    Every-map_values IsCapped (in_family family reason at) s.sessions
      (in_family-IsCapped family reason at) h

change_found :
    (id : String) (f : ApplicationSession → ApplicationSession) (s : StoreShape)
    (o : Option ApplicationSession)
    → lookup id s.sessions ≡ o
    → ((u : ApplicationSession) → o ≡ some u → IsCapped id u → IsCapped id (f u))
    → HasCappedSessions s
    → HasCappedSessions (elim o [
      | none ↦ s
      | some session ↦ record s { sessions = insert id (f session) s.sessions }
    ])
change_found id f s none e p h = h
change_found id f s (some u) e p h =
    Every-insert IsCapped id (f u) s.sessions (p u refl (Every-lookup IsCapped id s.sessions h e)) h

pub change_session-HasCappedSessions :
    (id : String) (f : ApplicationSession → ApplicationSession) (s : StoreShape)
    → ((u : ApplicationSession) → lookup id s.sessions ≡ some u → IsCapped id u → IsCapped id (f u))
    → HasCappedSessions s
    → HasCappedSessions (change_session id f s)
change_session-HasCappedSessions id f s p h = change_found id f s (lookup id s.sessions) refl p h

pub revoke_session-HasCappedSessions :
    (id : String) (reason : SessionRevocation) (at : Stamp) (s : StoreShape)
    → HasCappedSessions s
    → HasCappedSessions (revoke_session id reason at s)
unfolding revoke_session
revoke_session-HasCappedSessions id reason at s h =
    change_session-HasCappedSessions id (revoke reason at) s
      (λ u _ c. revoke-IsCapped reason at id u c) h

pub save_session-HasCappedSessions :
    (session : ApplicationSession) (s : StoreShape)
    → session.expires_at ≤ session.absolute_expires_at
    → HasCappedSessions s
    → HasCappedSessions (save_session session s)
unfolding save_session
save_session-HasCappedSessions session s c h =
    Every-insert IsCapped session.id_hash session s.sessions (refl, c) h

pub rotate_session-HasCappedSessions :
    (id : String) (next : ApplicationSession) (at : Stamp) (s : StoreShape)
    → next.expires_at ≤ next.absolute_expires_at
    → HasCappedSessions s
    → HasCappedSessions (rotate_session id next at s)
unfolding rotate_session
rotate_session-HasCappedSessions id next at s c h =
    save_session-HasCappedSessions next
      (change_session id (λ p. record p { superseded_at = some at }) s) c
      (change_session-HasCappedSessions id (λ p. record p { superseded_at = some at }) s
        (λ u _ k. k) h)

-- Renewing the idle window of the session that is stored under `id`, up to its own absolute deadline.
pub touch_session-HasCappedSessions :
    (id : String) (session : ApplicationSession) (deadline now : Stamp) (s : StoreShape)
    → lookup id s.sessions ≡ some session
    → deadline ≤ session.absolute_expires_at
    → HasCappedSessions s
    → HasCappedSessions (touch_session id deadline now s)
unfolding touch_session
touch_session-HasCappedSessions id session deadline now s e d h =
    change_session-HasCappedSessions id _ s
      (λ u found c. let same : session ≡ u = cc in ground arith) h

pub prune_sessions-HasCappedSessions :
    (now : Stamp) (retention : ℕ) (s : StoreShape)
    → HasCappedSessions s
    → HasCappedSessions (prune_sessions now retention s).1
unfolding prune_sessions
prune_sessions-HasCappedSessions now retention s h = Every-remove_if IsCapped _ s.sessions h
