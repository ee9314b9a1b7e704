-- ===== src/Auth/Policy.antt =====
-- The bounds that `sessionPolicy` of auth.ts keeps between its durations.
use sleeper_ff.Prelude.{ℕ, ◌*◌, ◌≤◌, ◌<◌, ◌≡◌, some, arith, none, Option, >>=-eq-some}
use sleeper_ff.Auth.Settings.{SessionEnv, SessionPolicy, session_policy, positive_number}

positive_number_pos :
    (value : Option ℕ) (fallback unit_ms : ℕ) {n : ℕ}
    → 0 < fallback
    → 0 < unit_ms
    → positive_number value fallback unit_ms ≡ some n
    → unit_ms ≤ n
unfolding positive_number
positive_number_pos none fallback unit_ms f u e = grind arith
positive_number_pos (some v) fallback unit_ms f u e = grind arith

-- A policy that the process starts with has every duration positive; the idle window and the rotation
-- interval fit in the lifetime, and ten renewals of the idle window fit in the window itself.
pub session_policy_bounds :
    (env : SessionEnv) {p : SessionPolicy}
    → session_policy env ≡ some p
    → (0 < p.idle_ms)
      × (p.idle_ms ≤ p.absolute_ms)
      × (0 < p.rotate_ms)
      × (p.rotate_ms ≤ p.absolute_ms)
      × (0 < p.grace_ms)
      × (0 < p.touch_ms)
      × (10 * p.touch_ms ≤ p.idle_ms)
unfolding session_policy
session_policy_bounds env e =
    let (absolute, a, e₁) = >>=-eq-some (positive_number env.ttl_hours 24 3600000) _ e in
    let (idle, i, e₂) = >>=-eq-some (positive_number env.idle_minutes 120 60000) _ e₁ in
    let (rotate, r, e₃) = >>=-eq-some (positive_number env.rotate_minutes 30 60000) _ e₂ in
    let (grace, g, e₄) = >>=-eq-some (positive_number env.grace_seconds 60 1000) _ e₃ in
    let pa = positive_number_pos env.ttl_hours 24 3600000 (omega arith) (omega arith) a in
    let pi = positive_number_pos env.idle_minutes 120 60000 (omega arith) (omega arith) i in
    let pr = positive_number_pos env.rotate_minutes 30 60000 (omega arith) (omega arith) r in
    let pg = positive_number_pos env.grace_seconds 60 1000 (omega arith) (omega arith) g in
    ground arith
