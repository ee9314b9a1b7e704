-- ===== src/Store/Sessions.antt =====
-- The sessions of store.ts: digests, rotation families, revocation and pruning.
pub mod Families
use sleeper_ff.Prelude.{
  ℕ, ◌+◌, String, Bool, true, false, Option, none, some, List, [], ◌∷◌, str_eq, ltb, not, take,
  keep, if◌then◌else◌, or_else, max, length, ◌-◌, is_some,
}
use sleeper_ff.Prelude.Assoc.{Assoc, lookup, insert, map_values, remove_if}
use sleeper_ff.Records.{Stamp, ApplicationSession, SessionRevocation, ApplicationUser}
use sleeper_ff.Store.{StoreShape}

-- `revoke`: the first revocation stands.
unfoldable pub revoke : SessionRevocation → Stamp → ApplicationSession → ApplicationSession
revoke reason at session = elim session.revoked_at [
  | some _ ↦ session
  | none ↦ record session { revoked_at = some at; revoked_reason = some reason }
]

-- `applicationUser`
unfoldable pub application_user : String → StoreShape → Option ApplicationUser
application_user id s = lookup id s.application_users

-- `session`
unfoldable pub session_at : String → StoreShape → Option ApplicationSession
session_at id_hash s = lookup id_hash s.sessions

unfoldable pub save_session : ApplicationSession → StoreShape → StoreShape
save_session session s = record s { sessions = insert session.id_hash session s.sessions }

-- A write to the session under `id_hash`, where there is one.
abbrev pub change_session :
    String → (ApplicationSession → ApplicationSession) → StoreShape → StoreShape
change_session id_hash f s = elim (lookup id_hash s.sessions) [
  | none ↦ s
  | some session ↦ record s { sessions = insert id_hash (f session) s.sessions }
]

unfoldable pub revoke_session : String → SessionRevocation → Stamp → StoreShape → StoreShape
unfolding revoke
revoke_session id_hash reason at s = change_session id_hash (revoke reason at) s

abbrev in_family : String → SessionRevocation → Stamp → ApplicationSession → ApplicationSession
in_family family_id reason at session =
    if str_eq session.family_id family_id then revoke reason at session else session

unfoldable pub revoke_session_family : String → SessionRevocation → Stamp → StoreShape → StoreShape
unfolding revoke
revoke_session_family family_id reason at s = record s {
  sessions = map_values (in_family family_id reason at) s.sessions;
}

abbrev of_user : String → SessionRevocation → Stamp → ApplicationSession → ApplicationSession
of_user user_id reason at session =
    if str_eq session.user_id user_id then revoke reason at session else session

unfoldable pub revoke_user_sessions : String → SessionRevocation → Stamp → StoreShape → StoreShape
unfolding revoke
revoke_user_sessions user_id reason at s = record s {
  sessions = map_values (of_user user_id reason at) s.sessions;
}

-- Rotation is one write: the predecessor is marked and its successor stored together.
unfoldable pub rotate_session : String → ApplicationSession → Stamp → StoreShape → StoreShape
unfolding save_session
rotate_session previous_id_hash next at s =
    save_session next
      (change_session previous_id_hash (λ p. record p { superseded_at = some at }) s)

-- `if (!session || session.revokedAt) return;`
abbrev unless_revoked :
    (ApplicationSession → ApplicationSession) → ApplicationSession → ApplicationSession
unless_revoked f session = if is_some session.revoked_at then session else f session

unfoldable pub touch_session : String → Stamp → Stamp → StoreShape → StoreShape
touch_session id_hash expires_at seen_at s =
    change_session id_hash
      (unless_revoked
        (λ session. record session { expires_at = expires_at; last_seen_at = seen_at }))
      s

unfoldable pub add_session_csrf_hash : String → String → ℕ → StoreShape → StoreShape
add_session_csrf_hash id_hash csrf_hash limit s =
    change_session id_hash
      (unless_revoked (λ session. record session {
        csrf_hashes =
            take limit
              (csrf_hash ∷ keep (λ value. not (str_eq value csrf_hash)) session.csrf_hashes);
      }))
      s

-- When a session stopped authenticating anything.
abbrev pub dead_at : ApplicationSession → Stamp
dead_at session =
    max session.absolute_expires_at (max session.expires_at (or_else session.revoked_at 0))

-- The store without the sessions dead for longer than the retention, and how many those were.
unfoldable pub prune_sessions : Stamp → ℕ → StoreShape → ℕ × StoreShape
prune_sessions now retention_ms s =
    let left = remove_if (λ session. ltb (dead_at session + retention_ms) now) s.sessions in
    (length s.sessions - length left, record s { sessions = left })
