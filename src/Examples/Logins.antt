-- ===== src/Examples/Logins.antt =====
-- Session cookies and the login middleware on a concrete session.
use sleeper_ff.Prelude.{◌≡◌, refl, arith, String, true, none, some, Option, [], ◌∷◌, inr, ap}
use sleeper_ff.Prelude.Assoc.{lookup, insert, map_values}
use sleeper_ff.Prelude.Text.{split, strip_prefix, trim}
use sleeper_ff.Records.{ApplicationUser, ApplicationSession, reuse_detected}
use sleeper_ff.Store.{StoreShape, empty_store}
use sleeper_ff.Store.Sessions.{
  session_at, application_user, touch_session, revoke_session_family, revoke,
}
use sleeper_ff.Store.Sessions.Families.{HasCappedSessions}
use sleeper_ff.Auth.{
  Authentication, authentication, accepted, present, admit, reject, renewed, rejected,
}
use sleeper_ff.Auth.Settings.{
  SessionEnv, SessionPolicy, cookie, cookie_name, clear_session_cookie, session_policy,
}
use sleeper_ff.Auth.Guarding.{authentication-IsEntitled, IsEntitled}
use sleeper_ff.Auth.Replay.{replay_revokes_family}
use sleeper_ff.Auth.Lifetimes.{authentication-HasCappedSessions}

-- A digest that changes nothing
abbrev hash : String → String
hash s = s

abbrev no_env : SessionEnv
no_env = record {
  ttl_hours = none;
  idle_minutes = none;
  rotate_minutes = none;
  grace_seconds = none;
}

abbrev policy : SessionPolicy
policy = record {
  absolute_ms = 86400000;
  idle_ms = 7200000;
  rotate_ms = 1800000;
  grace_ms = 60000;
  touch_ms = 60000;
}

default_policy : session_policy no_env ≡ some policy
unfolding session_policy
default_policy = refl

abbrev user : ApplicationUser
user = record {
  id = "u";
  login = "ann";
  password_hash = "";
  sleeper_user_id = none;
  sleeper_username = none;
  sleeper_league_ids = [];
  sleeper_linked_at = none;
  created_at = 0;
}

abbrev session : ApplicationSession
session = record {
  id_hash = "r";
  user_id = "u";
  family_id = "f";
  csrf_hashes = [];
  created_at = 100;
  expires_at = 7200100;
  absolute_expires_at = 86400100;
  last_rotated_at = 100;
  last_seen_at = 100;
  superseded_at = none;
  revoked_at = none;
  revoked_reason = none;
}

abbrev store : StoreShape
store = record empty_store { application_users = ("u", user) ∷ []; sessions = ("r", session) ∷ [] }

abbrev header : Option String
header = some "huddle_session=r"

abbrev accepted_as : Authentication
accepted_as = record { user = user; session = session; raw_session_id = "r" }

abbrev old : ApplicationSession
old = record session { superseded_at = some 200 }

abbrev replayed : StoreShape
replayed = record store { sessions = ("r", old) ∷ [] }

presented : cookie true header ≡ some "r"
unfolding cookie split strip_prefix trim cookie_name
presented = refl

let_through : (authentication hash policy true 300 "new" header store).0 ≡ accepted accepted_as none
unfolding authentication cookie split strip_prefix trim cookie_name session_at application_user
    lookup present admit renewed touch_session insert
let_through = refl

replayed_by :
    (authentication hash policy true 70000 "new" header replayed).1.sessions
    ≡ ("r", record old { revoked_at = some 70000; revoked_reason = some reuse_detected }) ∷ []
unfolding authentication cookie split strip_prefix trim cookie_name session_at application_user
    lookup present admit renewed touch_session insert reject revoke_session_family map_values revoke
replayed_by = refl

replay_revokes_family_example :
    ((authentication hash policy true 70000 "new" header replayed).0
      ≡ rejected "Session expired or revoked." (some (clear_session_cookie true)))
    × (true ≡ true)
unfolding lookup session_at
replay_revokes_family_example =
    replay_revokes_family hash policy true 70000 "new" header replayed "r" old "r"
      (record old { revoked_at = some 70000; revoked_reason = some reuse_detected }) presented
      (λ e. cc) refl (inr (omega arith, omega arith, refl)) (ap (lookup "r") replayed_by) refl

authentication-IsEntitled_example : IsEntitled hash policy true 300 "new" header store accepted_as
authentication-IsEntitled_example =
    authentication-IsEntitled hash policy true 300 "new" header store let_through

authentication-HasCappedSessions_example :
    HasCappedSessions (authentication hash policy true 300 "new" header store).1
authentication-HasCappedSessions_example =
    authentication-HasCappedSessions hash policy true 300 "new" header store
      ((refl, omega arith), tt)
